-- ===== src/Transport/Metadata.antt =====
-- The headers that both senders write where they have a value, and the metadata that both receivers
-- make of the fields of a message.
use pactix.Prelude.{◌≡◌, refl, true, false, Option, none, some, String, str_eq, if◌then◌else◌}
use pactix.Prelude.Dict.{Dict, get, UniqueKeys, get-put}
use pactix.Prelude.Dict.Laws.{or_before, put-UniqueKeys}
use pactix.Dialect.{DateTime}
use pactix.Message.{MessageMetadata, new_metadata, with_headers}
use pactix.Outbox.Model.{OutboxMessageRecord}
use pactix.Transport.{with_keys, put_some}

-- The metadata of a row, as a receiver has it: the headers and the time are its own.
abbrev pub received_metadata : DateTime → Dict String → OutboxMessageRecord → MessageMetadata
received_metadata occurred_at headers r = record {
  message_id = r.message_id;
  event_type = r.event_type;
  message_key = r.message_key;
  ordering_key = r.ordering_key;
  correlation_id = r.correlation_id;
  headers = headers;
  occurred_at = occurred_at;
}

-- Setting the keys where they are not None makes metadata with these keys.
pub with_keys-new_metadata :
    (occurred_at : DateTime) (i t : String) (a b c : Option String) (headers : Dict String)
    → with_headers (with_keys a b c (new_metadata occurred_at i t)) headers
      ≡ record (new_metadata occurred_at i t) {
        message_key = a;
        ordering_key = b;
        correlation_id = c;
        headers = headers;
      }
unfolding with_keys with_headers
with_keys-new_metadata now i t none none none headers = refl
with_keys-new_metadata now i t none none (some c) headers = refl
with_keys-new_metadata now i t none (some b) none headers = refl
with_keys-new_metadata now i t none (some b) (some c) headers = refl
with_keys-new_metadata now i t (some a) none none headers = refl
with_keys-new_metadata now i t (some a) none (some c) headers = refl
with_keys-new_metadata now i t (some a) (some b) none headers = refl
with_keys-new_metadata now i t (some a) (some b) (some c) headers = refl

pub get-put_some :
    (d : Dict String) (k : String) (o : Option String) (j : String)
    → get (put_some d k o) j ≡ (if str_eq k j then or_before o (get d j) else get d j)
unfolding put_some
get-put_some d k none j = elim (str_eq k j) as (λ b. get d j ≡ (if b then get d j else get d j)) [
  | true ↦ refl
  | false ↦ refl
]
get-put_some d k (some v) j = get-put d k j v

pub put_some-UniqueKeys :
    (d : Dict String) (k : String) (o : Option String) → UniqueKeys d → UniqueKeys (put_some d k o)
unfolding put_some
put_some-UniqueKeys d k none u = u
put_some-UniqueKeys d k (some v) u = put-UniqueKeys d k v u
