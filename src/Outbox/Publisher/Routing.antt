-- ===== src/Outbox/Publisher/Routing.antt =====
-- How the registry routes an event type.
use pactix.Prelude.{
  ◌≡◌, refl, Bool, none, some, String, List, [], ◌∷◌, ok, err, arith, str_eq, if◌then◌else◌, ◌∙◌,
  exists,
}
use mathlib.Core.Option
use pactix.Prelude.Dict.{get, get-put}
use pactix.Outbox.Publisher.{
  Publisher, PublisherRegistry, register, register_many, register_all, resolve, no_publisher,
}

-- `event_type in event_types`
abbrev pub listed : String → List String → Bool
listed k event_types = exists (λ j. str_eq j k) event_types

get-register :
    (registry : PublisherRegistry) (j k : String) (p : Publisher)
    → get (register registry j p).publishers k
      ≡ (if str_eq j k then some p else get registry.publishers k)
unfolding register
get-register registry j k p = get-put registry.publishers j k p

get-register_many :
    (registry : PublisherRegistry) (js : List String) (k : String) (p : Publisher)
    → get (register_many registry js p).publishers k
      ≡ (if listed k js then some p else get registry.publishers k)
unfolding register_many
get-register_many registry [] k p = refl
get-register_many registry (j ∷ js) k p =
    get-register_many (register registry j p) js k p ∙ ground (arith, get-register registry j k p)

catch_all-register_many :
    (registry : PublisherRegistry) (js : List String) (p : Publisher)
    → (register_many registry js p).catch_all ≡ registry.catch_all
unfolding register_many register
catch_all-register_many registry [] p = refl
catch_all-register_many registry (j ∷ js) p = catch_all-register_many (register registry j p) js p

-- After `register_many` every listed event type goes to the new publisher, and any other is resolved
-- as before.
resolve-register_many :
    (registry : PublisherRegistry) (js : List String) (k : String) (p : Publisher)
    → resolve (register_many registry js p) k ≡ (if listed k js then ok p else resolve registry k)
unfolding resolve
resolve-register_many registry js k p =
    rw (resolve, get-register_many registry js k p, catch_all-register_many registry js p)
      (ground arith)

-- An exact registration takes precedence over the catch-all, which takes every other event type.
resolve-register_all :
    (registry : PublisherRegistry) (k : String) (p : Publisher)
    → resolve (register_all registry p) k ≡ ok (Option.get_or (get registry.publishers k) p)
unfolding resolve register_all
resolve-register_all registry k p = ground arith

-- `resolve` raises exactly when the event type has no publisher and there is no catch-all.
pub resolve-error :
    (registry : PublisherRegistry) (k : String)
    → resolve registry k ≡ err (no_publisher k)
    → (get registry.publishers k ≡ none) × (registry.catch_all ≡ none)
unfolding resolve
resolve-error registry k h = ground arith
