-- ===== src/Transport/Http/Names.antt =====
-- How the names of the headers are read: what a header of the application must not be called, and
-- what `from_headers` finds under a name.
use pactix.Prelude.{
  ◌≡◌, refl, sym, ◌∙◌, Bool, true, false, Option, none, some, String, [], ◌∷◌, ◌||◌, str_eq,
  if◌then◌else◌, arith, eq_iff, map, str_eq→eq, str_eq_refl, Bool-cases, inl, inr,
}
use mathlib.Core.Bool.{false≢true}
use pactix.Prelude.Text.{is_lower_ascii}
use pactix.Prelude.Dict.{Dict, get, put, update, UniqueKeys}
use pactix.Prelude.Dict.Laws.{last, get-update, or_before, or_before-none}
use pactix.Transport.{put_some}
use pactix.Transport.Http.Headers.{
  event_type_header, message_id_header, message_key_header, ordering_key_header,
  correlation_id_header,
}
use pactix.Transport.Http.Inbox.{normalized}

-- `str.lower` leaves a text of ASCII characters without capitals as it is.
abbrev pub IsLower : (String → String) → Type 0
IsLower lower = (s : String) → is_lower_ascii s ≡ true → lower s ≡ s

-- One of the five names.
unfoldable pub is_reserved : String → Bool
is_reserved name =
    str_eq name message_id_header
    || str_eq name event_type_header
    || str_eq name message_key_header
    || str_eq name ordering_key_header
    || str_eq name correlation_id_header

-- No header of the dict is called like one of the five, in any case.
unfoldable pub is_free : (String → String) → Dict String → Bool
unfolding is_reserved
is_free lower [] = true
is_free lower ((k, v) ∷ d) = if is_reserved (lower k) then false else is_free lower d

-- Two dicts say the same under the five names.
abbrev pub Delivers : (String → String) → Dict String → Dict String → Type 0
Delivers lower sent arrived =
    (name : String)
    → is_reserved name ≡ true
    → get (normalized lower arrived) name ≡ get (normalized lower sent) name

module _ (lower : String → String) (name : String) where
  -- No other spelling of the name is a key.
  abbrev pub Spelled : Dict String → Type 0
  Spelled [] = Unit
  Spelled ((k, v) ∷ d) = (lower k ≡ name → k ≡ name) × Spelled d

  pub put-Spelled :
      (d : Dict String) (k v : String)
      → (lower k ≡ name → k ≡ name)
      → Spelled d
      → Spelled (put d k v)
  unfolding put
  put-Spelled [] k v h s = (h, tt)
  put-Spelled ((j, w) ∷ d) k v h s = elim (Bool-cases (str_eq j k)) [
    | inl t ↦ rw t s
    | inr f ↦ rw f (s.0, put-Spelled d k v h s.1)
  ]

  pub put_some-Spelled :
      (d : Dict String) (k : String) (o : Option String)
      → (lower k ≡ name → k ≡ name)
      → Spelled d
      → Spelled (put_some d k o)
  unfolding put_some
  put_some-Spelled d k none h s = s
  put_some-Spelled d k (some v) h s = put-Spelled d k v h s

  pub update-Spelled : (d e : Dict String) → Spelled d → Spelled e → Spelled (update d e)
  unfolding update
  update-Spelled d [] s t = s
  update-Spelled d ((k, v) ∷ e) s t = update-Spelled (put d k v) e (put-Spelled d k v t.0 s) t.1

  -- A dict that is free holds nothing under a reserved name.
  pub free-Spelled :
      (d : Dict String) → is_reserved name ≡ true → is_free lower d ≡ true → Spelled d
  unfolding is_free
  free-Spelled [] r h = tt
  free-Spelled ((k, v) ∷ d) r h = elim (Bool-cases (is_reserved (lower k))) [
    | inl t ↦ cc (rw t at h)
    | inr f ↦ (λ e. absurd (false≢true (sym f ∙ rw e r)), free-Spelled d r (rw f at h))
  ]

  apart :
      (k : String)
      → is_reserved name ≡ true
      → lower name ≡ name
      → is_reserved (lower k) ≡ false
      → str_eq k name ≡ false
  apart k r l f = elim (Bool-cases (str_eq k name)) [
    | inl t ↦
        let same : is_reserved (lower k) ≡ true = rw (str_eq→eq k name t, l) r in
        absurd (false≢true (sym f ∙ same))
    | inr g ↦ g
  ]

  pub get-free :
      (d : Dict String)
      → is_reserved name ≡ true
      → lower name ≡ name
      → is_free lower d ≡ true
      → get d name ≡ none
  unfolding get is_free
  get-free [] r l h = refl
  get-free ((k, v) ∷ d) r l h = elim (Bool-cases (is_reserved (lower k))) [
    | inl t ↦ cc (rw t at h)
    | inr f ↦ rw (apart k r l f) (get-free d r l (rw f at h))
  ]

  pub last-free :
      (d : Dict String) (before : Option String)
      → is_reserved name ≡ true
      → lower name ≡ name
      → is_free lower d ≡ true
      → last d name before ≡ before
  unfolding last is_free
  last-free [] before r l h = refl
  last-free ((k, v) ∷ d) before r l h = elim (Bool-cases (is_reserved (lower k))) [
    | inl t ↦ cc (rw t at h)
    | inr f ↦ rw (apart k r l f) (last-free d before r l (rw f at h))
  ]

  lowered-last :
      (d : Dict String) (before : Option String)
      → UniqueKeys d
      → Spelled d
      → lower name ≡ name
      → last (map (λ (k, v). (lower k, v)) d) name before ≡ or_before (get d name) before
  unfolding last get
  lowered-last [] before u s l = refl
  lowered-last ((j, v) ∷ d) before u s l = elim (Bool-cases (str_eq j name)) [
    | inl t ↦
        let absent : get d name ≡ none = rw (← str_eq→eq j name t) u.0 in
        let found : str_eq (lower j) name ≡ true = rw (str_eq→eq j name t, l) (str_eq_refl name) in
        rw (last, t, found, lowered-last d (some v) u.1 s.1 l, absent) refl
    | inr f ↦
        let missed : str_eq (lower j) name ≡ false =
          ground (arith, eq_iff j name, eq_iff (lower j) name, s.0) in
        rw (last, f, missed) (lowered-last d before u.1 s.1 l)
  ]

  -- Where no other spelling of the name is a key, normalizing keeps what stands under it.
  pub get-normalized :
      (d : Dict String)
      → UniqueKeys d
      → Spelled d
      → lower name ≡ name
      → get (normalized lower d) name ≡ get d name
  unfolding normalized get
  get-normalized d u s l =
      get-update [] (map (λ (k, v). (lower k, v)) d) name
      ∙ lowered-last d none u s l
      ∙ or_before-none (get d name)
