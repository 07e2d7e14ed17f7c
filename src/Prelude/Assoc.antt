-- ===== src/Prelude/Assoc.antt =====
-- Maps as association lists, for `std::map` and `std::unordered_map`. Their iteration order is
-- not part of what the laws say.
use mathlib.Core.Path.{◌≡◌, refl}
use mathlib.Core.Bool.{false}
use mathlib.Core.Option.{Option, none, some}
use mathlib.Core.List.{List, [], ◌∷◌}
use native.Mathlib.Omega.{arith}
use edge_frame.Prelude.Tests.{if◌then◌else◌}
use edge_frame.Prelude.Eq.{KeyEq, ◌==◌}

module _ {κ ℓ} {K : Type κ} {V : Type ℓ} ⦃keys : KeyEq K⦄ where
  -- The value of the first entry with the key.
  unfoldable pub lookup : K → List (K × V) → Option V
  lookup key [] = none
  lookup key ((k, value) ∷ rest) = if k == key then some value else lookup key rest

  -- `m[key] = value`
  unfoldable pub insert : K → V → List (K × V) → List (K × V)
  insert key value [] = (key, value) ∷ []
  insert key value ((k, old) ∷ rest) =
      if k == key then (key, value) ∷ rest else (k, old) ∷ insert key value rest

  -- `m.erase(key)`: the first entry with the key goes.
  unfoldable pub erase : K → List (K × V) → List (K × V)
  erase key [] = []
  erase key ((k, value) ∷ rest) = if k == key then rest else (k, value) ∷ erase key rest

  pub lookup-insert :
      (key other : K) (value : V) (entries : List (K × V))
      → lookup other (insert key value entries)
        ≡ (if key == other then some value else lookup other entries)
  unfolding lookup insert
  lookup-insert key other value [] = refl
  lookup-insert key other value ((k, old) ∷ rest) =
      let later = lookup-insert key other value rest in
      ground (arith, later, keys.same_iff k key, keys.same_iff k other, keys.same_iff key other)

  pub lookup-erase_ne :
      (key other : K) (entries : List (K × V))
      → (key == other) ≡ false
      → lookup other (erase key entries) ≡ lookup other entries
  unfolding lookup erase
  lookup-erase_ne key other [] h = refl
  lookup-erase_ne key other ((k, old) ∷ rest) h =
      let later = lookup-erase_ne key other rest h in
      ground (arith, later, keys.same_iff k key, keys.same_iff k other, keys.same_iff key other)
