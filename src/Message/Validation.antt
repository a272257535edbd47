-- ===== src/Message/Validation.antt =====
-- When metadata is valid, and which error it has otherwise.
use pactix.Prelude.{
  ◌≡◌, refl, ◌↔◌, Bool, true, false, Option, none, some, String, ok, arith, >>=-eq-ok,
}
use pactix.Prelude.Text.{is_blank}
use pactix.Message.{
  MessageMetadata, MessageEnvelope, JsonValue, has_key, blank_key, validate, new_envelope,
}

-- The texts that metadata must have: what `validate` promises.
pub record IsValid (m : MessageMetadata) : Type 0 where
  pub has_message_id : is_blank m.message_id ≡ false
  pub has_event_type : is_blank m.event_type ≡ false
  pub key_not_blank : (key : String) → m.ordering_key ≡ some key → is_blank key ≡ false

-- The third field of `IsValid`, as a test.
key_not_blank-of_test :
    (o : Option String) → blank_key o ≡ false → (key : String) → o ≡ some key → is_blank key ≡ false
key_not_blank-of_test none h key e = cc
key_not_blank-of_test (some k) h key e = ground arith

test-of_key_not_blank :
    (o : Option String)
    → ((key : String) → o ≡ some key → is_blank key ≡ false)
    → blank_key o ≡ false
test-of_key_not_blank none h = refl
test-of_key_not_blank (some k) h = h k refl

pub validate-IsValid : (m : MessageMetadata) (b : Bool) → validate m b ≡ ok tt → IsValid m
unfolding validate
validate-IsValid m b h = record {
  has_message_id = ground arith;
  has_event_type = ground arith;
  key_not_blank = key_not_blank-of_test m.ordering_key (ground arith);
}

pub IsValid-validate : (m : MessageMetadata) → IsValid m → validate m false ≡ ok tt
unfolding validate
IsValid-validate m v = ground (
  arith,
  v.has_message_id,
  v.has_event_type,
  test-of_key_not_blank m.ordering_key v.key_not_blank,
)

-- `validate` passes exactly the metadata whose message id and event type are not blank and whose
-- ordering key, where there is one, is not blank.
pub validate_iff : (m : MessageMetadata) → (validate m false ≡ ok tt) ↔ IsValid m
validate_iff m = (validate-IsValid m false, IsValid-validate m)

-- With `requires_ordering_key` it passes exactly the valid metadata that has an ordering key.
validate_required_iff :
    (m : MessageMetadata)
    → (validate m true ≡ ok tt) ↔ (IsValid m × (key : String) × (m.ordering_key ≡ some key))
validate_required_iff m = (to, from)
  where
    key_of : (o : Option String) → has_key o ≡ true → (key : String) × (o ≡ some key)
    key_of none h = cc
    key_of (some k) h = (k, refl)

    to : validate m true ≡ ok tt → IsValid m × (key : String) × (m.ordering_key ≡ some key)
    to h =
        let (key, e) = key_of m.ordering_key (unfold validate in ground arith) in
        (validate-IsValid m true h, key, e)

    from : IsValid m × (key : String) × (m.ordering_key ≡ some key) → validate m true ≡ ok tt
    from (v, key, e) =
        unfold validate in
        ground (
          arith,
          v.has_message_id,
          v.has_event_type,
          v.key_not_blank key e,
          test-of_key_not_blank m.ordering_key v.key_not_blank,
        )

-- An envelope holds the metadata and the payload that it was made of, and only valid metadata.
pub new_envelope_lem :
    (m : MessageMetadata) (p : JsonValue) (e : MessageEnvelope)
    → new_envelope m p ≡ ok e
    → (e ≡ record { metadata = m; payload = p }) × IsValid m
unfolding new_envelope
new_envelope_lem m p e h =
    let (_, passed, made) = >>=-eq-ok (validate m false) _ h in
    (cc, validate-IsValid m false passed)
