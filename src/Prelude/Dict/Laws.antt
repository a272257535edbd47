-- ===== src/Prelude/Dict/Laws.antt =====
-- What writes do to a dict: its keys stay unique, and a lookup finds the last write.
use pactix.Prelude.Tests.{str_eq, if◌then◌else◌, str_eq→eq, Bool-cases}
use pactix.Prelude.Dict.{Dict, get, put, update, UniqueKeys, get-put}
use Prim.Native.String.{String}
use mathlib.Core.Path.{◌≡◌, refl, ◌∙◌, ap, sym}
use mathlib.Core.Logic.{inl, inr}
use mathlib.Core.Bool.{false}
use mathlib.Core.Option.{Option, none, some}
use mathlib.Core.List.{[], ◌∷◌, ◌++◌, append_assoc, append-nil}
use native.Mathlib.Omega.{arith}
use text.Mathlib.TextEquality.{eq_iff}

module _ {ℓ} {V : Type ℓ} where
  -- The value of a key in a list of items: the last one counts.
  unfoldable pub last : Dict V → String → Option V → Option V
  last [] k before = before
  last ((j, v) ∷ e) k before = last e k (if str_eq j k then some v else before)

  abbrev pub or_before : Option V → Option V → Option V
  or_before none before = before
  or_before (some v) before = some v

  pub or_before-none : (o : Option V) → or_before o none ≡ o
  or_before-none none = refl
  or_before-none (some v) = refl

  pub get-update : (d e : Dict V) (k : String) → get (update d e) k ≡ last e k (get d k)
  unfolding update last
  get-update d [] k = refl
  get-update d ((j, v) ∷ e) k = get-update (put d j v) e k ∙ rw (get-put d j k v) refl

  -- In a dict, where each key stands once, it is the only one.
  pub last-of_unique :
      (e : Dict V) (k : String) (before : Option V)
      → UniqueKeys e
      → last e k before ≡ or_before (get e k) before
  unfolding last get
  last-of_unique [] k before u = refl
  last-of_unique ((j, v) ∷ e) k before u = elim (Bool-cases (str_eq j k)) [
    | inl t ↦
        let absent : get e k ≡ none = rw (← str_eq→eq j k t) u.0 in
        rw (t, last-of_unique e k (some v) u.1, absent) refl
    | inr f ↦ rw f (last-of_unique e k before u.1)
  ]

  pub put-UniqueKeys : (d : Dict V) (k : String) (v : V) → UniqueKeys d → UniqueKeys (put d k v)
  unfolding put get
  put-UniqueKeys [] k v u = (refl, tt)
  put-UniqueKeys ((j, w) ∷ d) k v u = elim (Bool-cases (str_eq j k)) [
    | inl t ↦ rw t u
    | inr f ↦
        let other : str_eq k j ≡ false = ground (arith, eq_iff j k, eq_iff k j) in
        rw f (rw (get-put d k j v, other) u.0, put-UniqueKeys d k v u.1)
  ]

  pub update-UniqueKeys : (d e : Dict V) → UniqueKeys d → UniqueKeys (update d e)
  unfolding update
  update-UniqueKeys d [] u = u
  update-UniqueKeys d ((k, v) ∷ e) u = update-UniqueKeys (put d k v) e (put-UniqueKeys d k v u)

  -- A key that is not there goes to the end.
  put-new : (d : Dict V) (k : String) (v : V) → get d k ≡ none → put d k v ≡ d ++ (k, v) ∷ []
  unfolding put get
  put-new [] k v h = refl
  put-new ((j, w) ∷ d) k v h = elim (Bool-cases (str_eq j k)) [
    | inl t ↦ cc (rw t at h)
    | inr f ↦ rw f (ap (λ l. (j, w) ∷ l) (put-new d k v (rw f at h)))
  ]

  get-append : (d e : Dict V) (k : String) → get (d ++ e) k ≡ or_before (get d k) (get e k)
  unfolding get
  get-append [] e k = refl
  get-append ((j, v) ∷ d) e k = ground (arith, get-append d e k)

  absent-of_unique :
      (d : Dict V) (k : String) (v : V) (e : Dict V) → UniqueKeys (d ++ (k, v) ∷ e) → get d k ≡ none
  unfolding get
  absent-of_unique [] k v e u = refl
  absent-of_unique ((j, w) ∷ d) k v e u = ground (
    arith,
    eq_iff j k,
    eq_iff k j,
    u.0,
    get-append d ((k, v) ∷ e) j,
    absent-of_unique d k v e u.1,
  )

  update-append : (d e : Dict V) → UniqueKeys (d ++ e) → update d e ≡ d ++ e
  unfolding update
  update-append d [] u = sym (append-nil d)
  update-append d ((k, v) ∷ e) u = rw (put-new d k v (absent-of_unique d k v e u)) (
      update-append (d ++ (k, v) ∷ []) e (rw (append_assoc d ((k, v) ∷ []) e) u)
      ∙ append_assoc d ((k, v) ∷ []) e)

  -- A dict that is built again from its items is the same.
  pub update-items : (e : Dict V) → UniqueKeys e → update [] e ≡ e
  update-items e u = update-append [] e u
