-- ===== src/Base/Dict.antt =====
-- A `std::map` with text keys, as an association list. The program inserts, looks up and asks for
-- emptiness; it never walks such a map.
use archspec.Base.Lists.{Bytes, eq_bytes, eq_bytes_iff}
use archspec.Base.Tests.{if◌then◌else◌}
use mathlib.Core.Path.{◌≡◌, refl, fun_ext}
use mathlib.Core.Option.{Option, none, some}
use mathlib.Core.List.{List, [], ◌∷◌}
use native.Mathlib.Omega.{arith}

abbrev pub Dict : Type 0 → Type 0
Dict V = List (Bytes × V)

module _ {V : Type 0} where
  -- `find`
  unfoldable pub lookup : Bytes → Dict V → Option V
  unfolding eq_bytes
  lookup k [] = none
  lookup k ((j, v) ∷ m) = if eq_bytes j k then some v else lookup k m

  -- `m[k] = v`
  unfoldable pub insert : Bytes → V → Dict V → Dict V
  unfolding eq_bytes
  insert k v [] = (k, v) ∷ []
  insert k v ((j, w) ∷ m) = if eq_bytes j k then (k, v) ∷ m else (j, w) ∷ insert k v m

  pub lookup-insert :
      (k j : Bytes) (v : V) (m : Dict V)
      → lookup j (insert k v m) ≡ (if eq_bytes k j then some v else lookup j m)
  unfolding lookup insert
  lookup-insert k j v [] = refl
  lookup-insert k j v ((i, w) ∷ m) =
      ground (arith, eq_bytes_iff k j, eq_bytes_iff i k, eq_bytes_iff i j, lookup-insert k j v m)

-- What a map promises: a function from keys, which an insertion changes at one key.
module _ {V : Type 0} where
  abbrev pub update : Bytes → V → (Bytes → Option V) → Bytes → Option V
  update k v f j = if eq_bytes k j then some v else f j

  abbrev pub view : Dict V → Bytes → Option V
  view m j = lookup j m

  pub view-insert : (k : Bytes) (v : V) (m : Dict V) → view (insert k v m) ≡ update k v (view m)
  view-insert k v m = fun_ext λ j. lookup-insert k j v m

  pub view_empty : view [] ≡ (λ _. none)
  unfolding lookup
  view_empty = refl
