-- ===== src/Prelude/Dict.antt =====
-- Python's `dict` with text keys, as its items in insertion order.
pub mod Laws
use Prim.Native.Nat.{Ordering}
use Prim.Native.String.{String, compare}
use mathlib.Core.Path.{◌≡◌, refl, ◌∙◌}
use mathlib.Core.Bool.{Bool, true, false}
use mathlib.Core.Option.{Option, none, some}
use mathlib.Core.List.{List, [], ◌∷◌}
use native.Mathlib.Omega.{arith}
use text.Mathlib.TextEquality.{eq_iff}
use pactix.Prelude.Tests.{str_eq, if◌then◌else◌}

abbrev pub Dict {ℓ} : Type ℓ → Type ℓ
Dict V = List (String × V)

-- The order in which `sorted` puts two keys.
abbrev pub key_le : String → String → Bool
key_le j k = elim (compare j k) [ Ordering.gt ↦ false | _ ↦ true ]

module _ {ℓ} {V : Type ℓ} where
  -- `d.get(k)`
  unfoldable pub get : Dict V → String → Option V
  get [] k = none
  get ((j, v) ∷ d) k = if str_eq j k then some v else get d k

  -- `d[k] = v`: a key that is there keeps its place, a new one goes to the end.
  unfoldable pub put : Dict V → String → V → Dict V
  put [] k v = (k, v) ∷ []
  put ((j, w) ∷ d) k v = if str_eq j k then (j, v) ∷ d else (j, w) ∷ put d k v

  -- `d.update(e)`, and `dict(items)` from the empty dict.
  unfoldable pub update : Dict V → Dict V → Dict V
  update d [] = d
  update d ((k, v) ∷ e) = update (put d k v) e

  insert_item : String → V → Dict V → Dict V
  insert_item k v [] = (k, v) ∷ []
  insert_item k v ((j, w) ∷ d) =
      if key_le k j then (k, v) ∷ (j, w) ∷ d else (j, w) ∷ insert_item k v d

  -- `dict(sorted(d.items()))`
  unfoldable pub sorted_items : Dict V → Dict V
  unfolding insert_item
  sorted_items [] = []
  sorted_items ((k, v) ∷ d) = insert_item k v (sorted_items d)

  -- A dict holds each key once.
  abbrev pub UniqueKeys : Dict V → Type ℓ
  UniqueKeys [] = Unit
  UniqueKeys ((k, v) ∷ d) = (get d k ≡ none) × UniqueKeys d

  pub get-put :
      (d : Dict V) (k j : String) (v : V)
      → get (put d k v) j ≡ (if str_eq k j then some v else get d j)
  unfolding get put
  get-put [] k j v = refl
  get-put ((i, w) ∷ d) k j v = ground (arith, eq_iff k j, eq_iff i k, eq_iff i j, get-put d k j v)

  get-insert_item :
      (k j : String) (v : V) (d : Dict V)
      → get d k ≡ none
      → get (insert_item k v d) j ≡ (if str_eq k j then some v else get d j)
  unfolding get insert_item
  get-insert_item k j v [] h = refl
  get-insert_item k j v ((i, w) ∷ d) h =
      ground (arith, eq_iff k j, eq_iff i k, eq_iff i j, get-insert_item k j v d)

  -- Sorting the items of a dict changes no lookup.
  pub get-sorted_items : (d : Dict V) (j : String) → UniqueKeys d → get (sorted_items d) j ≡ get d j
  unfolding get sorted_items
  get-sorted_items [] j u = refl
  get-sorted_items ((k, v) ∷ d) j u =
      get-insert_item k j v (sorted_items d) (get-sorted_items d k u.1 ∙ u.0)
      ∙ ground (arith, get-sorted_items d j u.1)
