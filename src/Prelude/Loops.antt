-- ===== src/Prelude/Loops.antt =====
-- Loops that collect the positions of members, and loops that fill a vector and may abort.
use Prim.Native.Nat.{ℕ, zero, suc, ◌+◌, ◌≤◌, ◌<◌}
use mathlib.Core.Path.{◌≡◌, refl, ap, subst, sym}
use mathlib.Core.Logic.{◌≢◌}
use mathlib.Core.Bool.{Bool, true}
use mathlib.Core.List.{List, [], ◌∷◌}
use mathlib.Core.Option.{Option, some}
use native.Mathlib.Omega.{arith}
use native.Mathlib.Decide.{dec_lt}
use edge_frame.Prelude.Tests.{some_eq, >>=-eq-some, of_some, if_cases}
use edge_frame.Prelude.Lists.{
  lt_of_get_elem?, length, get_elem?, indexes_from, map_opt, All, All-implies,
}

-- The positions listed are ascending and from `i` on.
abbrev pub Ascending : ℕ → List ℕ → Type 0
Ascending i [] = Unit
Ascending i (j ∷ js) = (i ≤ j) × Ascending (suc j) js

pub zero_plus : (i k : ℕ) → i ≡ 0 + k → i ≡ k
zero_plus i k h = omega arith

module _ {A : Type 0} (p : A → Bool) where
  -- A position that is listed is that of a member which passes the test.
  abbrev pub Passes : ℕ → List A → ℕ → Type 0
  Passes i xs j = (k : ℕ) × (j ≡ i + k) × (x : A) × (get_elem? xs k ≡ some x) × (p x ≡ true)

  Passes-later : (i : ℕ) (x : A) (xs : List A) (j : ℕ) → Passes (suc i) xs j → Passes i (x ∷ xs) j
  Passes-later i x xs j (k, e, y, h, q) = (suc k, omega arith, y, h, q)

  pub Passes-lt : (xs : List A) (j : ℕ) → Passes 0 xs j → j < length xs
  Passes-lt xs j (k, e, x, h, q) = omega (arith, lt_of_get_elem? xs k h)

  pub indexes_from-Passes : (i : ℕ) (xs : List A) → All (Passes i xs) (indexes_from p i xs)
  indexes_from-Passes i [] = tt
  indexes_from-Passes i (x ∷ xs) =
      let rest =
        All-implies _ (Passes i (x ∷ xs)) (Passes-later i x xs) _
          (indexes_from-Passes (suc i) xs) in
      if_cases (All (Passes i (x ∷ xs))) (p x) (λ q. ((zero, omega arith, x, refl, q), rest))
        λ _. rest

  pub indexes_from-Ascending : (i : ℕ) (xs : List A) → Ascending i (indexes_from p i xs)
  indexes_from-Ascending i xs = from i i xs (omega arith)
    where
      from : (j i : ℕ) (xs : List A) → j ≤ i → Ascending j (indexes_from p i xs)
      from j i [] h = tt
      from j i (x ∷ xs) h =
          if_cases (Ascending j) (p x) (λ _. (h, from (suc i) (suc i) xs (omega arith)))
            λ _. from j (suc i) xs (omega arith)

module _ {A B : Type 0} (f : A → Option B) where
  -- A loop that fills a vector leaves one result for each member.
  pub length-map_opt : (xs : List A) {ys : List B} → map_opt f xs ≡ some ys → length ys ≡ length xs
  length-map_opt [] h = of_some (λ ys. length ys ≡ 0) h refl
  length-map_opt (x ∷ xs) h =
      let (y, ey, h1) = >>=-eq-some (f x) _ h in
      let (ys, eys, h2) = >>=-eq-some (map_opt f xs) _ h1 in
      of_some (λ zs. length zs ≡ suc (length xs)) h2 (ap suc (length-map_opt xs eys))

  pub map_opt-All :
      (Q : B → Type 0)
      → ((x : A) (y : B) → f x ≡ some y → Q y)
      → (xs : List A) {ys : List B} → map_opt f xs ≡ some ys
      → All Q ys
  map_opt-All Q g [] h = of_some (All Q) h tt
  map_opt-All Q g (x ∷ xs) h =
      let (y, ey, h1) = >>=-eq-some (f x) _ h in
      let (ys, eys, h2) = >>=-eq-some (map_opt f xs) _ h1 in
      of_some (All Q) h2 (g x y ey, map_opt-All Q g xs eys)

  pub map_opt_total :
      (xs : List A)
      → All (λ x. (y : B) × (f x ≡ some y)) xs
      → (ys : List B) × (map_opt f xs ≡ some ys)
  map_opt_total [] h = ([], refl)
  map_opt_total (x ∷ xs) h =
      let (y, e) = h.0 in let (ys, es) = map_opt_total xs h.1 in (y ∷ ys, rw (e, es))

  pub get_elem?-map_opt :
      (xs : List A) {ys : List B} (i : ℕ) {x : A} {y : B}
      → map_opt f xs ≡ some ys
      → get_elem? xs i ≡ some x
      → get_elem? ys i ≡ some y
      → f x ≡ some y
  get_elem?-map_opt [] i h hx hy = absurd (cc)
  get_elem?-map_opt (x ∷ xs) zero {y = b} h hx hy =
      let (y, ey, h1) = >>=-eq-some (f x) _ h in
      let (ys, eys, h2) = >>=-eq-some (map_opt f xs) _ h1 in
      let here : some y ≡ some b = subst (λ w. get_elem? w 0 ≡ some b) (sym (some_eq h2)) hy in
      rw (← some_eq hx, ← some_eq here) ey
  get_elem?-map_opt (x ∷ xs) (suc i) {y = b} h hx hy =
      let (y, ey, h1) = >>=-eq-some (f x) _ h in
      let (ys, eys, h2) = >>=-eq-some (map_opt f xs) _ h1 in
      get_elem?-map_opt xs i eys hx
        (subst (λ w. get_elem? w (suc i) ≡ some b) (sym (some_eq h2)) hy)

Ascending-le :
    (i : ℕ) (js : List ℕ) (s : ℕ) {y : ℕ} → Ascending i js → get_elem? js s ≡ some y → i ≤ y
Ascending-le i [] s h hy = absurd (cc)
Ascending-le i (j ∷ js) zero h hy = rw (← some_eq hy) h.0
Ascending-le i (j ∷ js) (suc s) h hy = omega (arith, Ascending-le (suc j) js s h.1 hy, h.0)

pub Ascending-lt :
    (i : ℕ) (js : List ℕ) (r s : ℕ) {x y : ℕ}
    → Ascending i js
    → r < s
    → get_elem? js r ≡ some x
    → get_elem? js s ≡ some y
    → (i ≤ x) × (x < y)
Ascending-lt i [] r s h k hx hy = absurd (cc)
Ascending-lt i (j ∷ js) zero zero h k hx hy = absurd (omega arith)
Ascending-lt i (j ∷ js) zero (suc s) h k hx hy =
    let above = Ascending-le (suc j) js s h.1 hy in rw (← some_eq hx) (h.0, above)
Ascending-lt i (j ∷ js) (suc r) zero h k hx hy = absurd (omega arith)
Ascending-lt i (j ∷ js) (suc r) (suc s) h k hx hy =
    let rest = Ascending-lt (suc j) js r s h.1 (omega arith) hx hy in
    (omega (arith, rest.0, h.0), rest.1)

-- Different places of an ascending list hold different numbers.
pub Ascending-ne :
    (i : ℕ) (js : List ℕ) (r s : ℕ) {x y : ℕ}
    → Ascending i js
    → r ≢ s
    → get_elem? js r ≡ some x
    → get_elem? js s ≡ some y
    → x ≢ y
Ascending-ne i js r s h ne hx hy e = elim (dec_lt r s) [
  | yes k ↦ omega (arith, Ascending-lt i js r s h k hx hy)
  | no k ↦ omega (arith, Ascending-lt i js s r h (omega arith) hy hx)
]
