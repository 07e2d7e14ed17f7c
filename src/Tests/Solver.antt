-- ===== src/Tests/Solver.antt =====
-- The solver of `Demo` keeps the contract of the assignment solver.
use edge_frame.Prelude.{ℕ, suc, ◌<◌, ◌≡◌, ◌≢◌, refl, List, [], ◌∷◌, Option, none, some}
use edge_frame.Prelude.{Bool, true, false, if◌then◌else◌, length, All, arith, ltb, if_cases}
use edge_frame.Demo.{demo, diagonal}
use edge_frame.Track.Matching.{Distinct, IsColumn, SolverLaw}

length-diagonal : (i : ℕ) (table : List (List ℕ)) → length (diagonal i table) ≡ length table
length-diagonal i [] = refl
length-diagonal i (row ∷ rows) = omega (arith, length-diagonal (suc i) rows)

diagonal-IsColumn :
    (n i : ℕ) (table : List (List ℕ))
    → All (λ row. length row ≡ n) table
    → All (IsColumn n) (diagonal i table)
diagonal-IsColumn n i [] h = tt
diagonal-IsColumn n i (row ∷ rows) h = (
  if_cases (IsColumn n) (ltb i (length row)) (λ q. ground arith) λ _. tt,
  diagonal-IsColumn n (suc i) rows h.1,
)

later : (c i : ℕ) (table : List (List ℕ)) → c < i → All (λ d. d ≢ some c) (diagonal i table)
later c i [] h = tt
later c i (row ∷ rows) h = (
  if_cases (λ d. d ≢ some c) (ltb i (length row)) (λ q e. ground arith) (λ _ e. cc),
  later c (suc i) rows (omega arith),
)

diagonal-Distinct : (i : ℕ) (table : List (List ℕ)) → Distinct (diagonal i table)
diagonal-Distinct i [] = tt
diagonal-Distinct i (row ∷ rows) =
    cons (diagonal (suc i) rows) (ltb i (length row)) (later i (suc i) rows (omega arith))
      (diagonal-Distinct (suc i) rows)
  where
    cons :
        (cs : List (Option ℕ)) (b : Bool)
        → All (λ d. d ≢ some i) cs
        → Distinct cs
        → Distinct ((if b then some i else none) ∷ cs)
    cons cs true h k = (h, k)
    cons cs false h k = k

pub demo-SolverLaw : SolverLaw demo
demo-SolverLaw = record {
  one_per_row = λ n table h. length-diagonal 0 table;
  in_range = λ n table h. diagonal-IsColumn n 0 table h.even;
  distinct = λ n table h. diagonal-Distinct 0 table;
}
