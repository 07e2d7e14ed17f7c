-- ===== src/Track/Matching.antt =====
-- The contract of the assignment solver, and the loop that turns an assignment into pairs.
pub mod Iou
pub mod Cells
pub mod Feature
use edge_frame.Prelude.{
  ℕ, zero, suc, ◌+◌, ◌≤◌, ◌<◌, ◌≡◌, ◌≢◌, refl, sym, ◌∙◌, Bool, true, false, ◌||◌,
}
use edge_frame.Prelude.{List, [], ◌∷◌, Option, none, some, length, get_elem?, indexes_from, map_opt}
use edge_frame.Prelude.{All, arith, >>=-eq-some, of_some, some_eq, Bool-cases, inl, inr, ap, subst}
use edge_frame.Prelude.{get_elem?_total, lt_of_get_elem?, if_cases, All-implies, if◌then◌else◌}
use edge_frame.Prelude.{
  Ascending, Ascending-lt, Ascending-ne, Passes, indexes_from-Passes, indexes_from-Ascending,
  length-map_opt, map_opt-All, map_opt_total, get_elem?-map_opt, All-get_elem?,
}
use edge_frame.Platform.{Platform}
use edge_frame.Track.Person.{BBoxType, MatchPair, PersonObject, Tracker}
use edge_frame.Track.Match.{
  is_empty, wants_iou, offers_iou, iou_cost, iou_cell, iou_table, add_pair, pick_pairs, iou_match,
}

-- No row gets a column twice.
abbrev pub Distinct : List (Option ℕ) → Type 0
Distinct [] = Unit
Distinct (none ∷ cs) = Distinct cs
Distinct (some c ∷ cs) = All (λ d. d ≢ some c) cs × Distinct cs

abbrev pub IsColumn : ℕ → Option ℕ → Type 0
IsColumn n none = Unit
IsColumn n (some c) = c < n

-- A table with at least one row and one column, and rows of one length.
pub record IsTable {A : Type 0} (n : ℕ) (table : List (List A)) : Type 0 where
  pub has_column : 0 < n
  pub has_row : 0 < length table
  pub even : All (λ row. length row ≡ n) table

-- `HungarianAlgorithm::Solve` on a table: a column or -1 for each row, and no column twice.
pub record SolverLaw (P : Platform) : Type 0 where
  pub one_per_row :
      (n : ℕ) (table : List (List P.Double))
      → IsTable n table
      → length (P.solve table) ≡ length table
  pub in_range :
      (n : ℕ) (table : List (List P.Double)) → IsTable n table → All (IsColumn n) (P.solve table)
  pub distinct : (n : ℕ) (table : List (List P.Double)) → IsTable n table → Distinct (P.solve table)

-- Each index stands in at most one pair; the pairs are in the order of their `i_index`.
abbrev pub OneToOne : List MatchPair → Type 0
OneToOne [] = Unit
OneToOne (m ∷ ms) = All (λ n. (m.i_index < n.i_index) × (m.j_index ≢ n.j_index)) ms × OneToOne ms

plus_zero : (i : ℕ) → i + 0 ≡ i
plus_zero i = omega arith

module _ (P : Platform) (limit : P.Double) (table : List (List P.Double)) (tis djs : List ℕ) where
  -- The pair comes from a row, from `i` on, and the column assigned to it, at a cost under the limit.
  pub record Picked (i : ℕ) (cs : List (Option ℕ)) (m : MatchPair) : Type 0 where
    pub step : ℕ
    pub column : ℕ
    pub row : List P.Double
    pub cost : P.Double
    pub assigned : get_elem? cs step ≡ some (some column)
    pub from_row : get_elem? tis (i + step) ≡ some m.i_index
    pub from_column : get_elem? djs column ≡ some m.j_index
    pub the_row : get_elem? table (i + step) ≡ some row
    pub the_cost : get_elem? row column ≡ some cost
    pub is_under : P.d_lt cost limit ≡ true

  Picked-later :
      (i : ℕ) (c : Option ℕ) (cs : List (Option ℕ)) (m : MatchPair)
      → Picked (suc i) cs m
      → Picked i (c ∷ cs) m
  Picked-later i c cs m k = record {
    step = suc k.step;
    column = k.column;
    row = k.row;
    cost = k.cost;
    assigned = k.assigned;
    from_row = subst (λ n. get_elem? tis n ≡ some m.i_index) shift k.from_row;
    from_column = k.from_column;
    the_row = subst (λ n. get_elem? table n ≡ some k.row) shift k.the_row;
    the_cost = k.the_cost;
    is_under = k.is_under;
  }
    where
      shift : suc i + k.step ≡ i + suc k.step
      shift = omega arith

  -- What is known of the table and of the positions behind its rows and columns.
  pub record Setting : Type 0 where
    pub as_rows : length tis ≡ length table
    pub width : All (λ row. length row ≡ length djs) table
    pub rows_ascend : Ascending 0 tis
    pub columns_ascend : Ascending 0 djs

  abbrev pub PickedAll : ℕ → List (Option ℕ) → List MatchPair → Type 0
  PickedAll i cs ms = All (Picked i cs) ms × OneToOne ms

  -- A pair from row `i` and column `c` differs from those that follow.
  differs :
      Setting
      → (i c : ℕ) (cs : List (Option ℕ)) {ti dj : ℕ} → All (λ d. d ≢ some c) cs
      → get_elem? tis i ≡ some ti
      → get_elem? djs c ≡ some dj
      → (m : MatchPair) → Picked (suc i) cs m
      → (ti < m.i_index) × (dj ≢ m.j_index)
  differs h i c cs fresh eti edj m k = (
    (Ascending-lt 0 tis i (suc i + k.step) h.rows_ascend (omega arith) eti k.from_row).1,
    Ascending-ne 0 djs c k.column h.columns_ascend
        (λ e. All-get_elem? (λ d. d ≢ some c) cs k.step fresh k.assigned (ap some (sym e))) edj
        k.from_column,
  )

  -- The loop over the assignment succeeds.
  pub pick_pairs_total :
      Setting
      → (i : ℕ) (cs : List (Option ℕ)) → i + length cs ≡ length table
      → All (IsColumn (length djs)) cs
      → Distinct cs
      → (ms : List MatchPair) × (pick_pairs P limit table tis djs i cs ≡ some ms)
        × PickedAll i cs ms
  unfolding pick_pairs add_pair
  pick_pairs_total h i [] e cols ds = ([], refl, (tt, tt))
  pick_pairs_total h i (none ∷ cs) e cols ds =
      let (ms, run, (all, one)) = pick_pairs_total h (suc i) cs (omega arith) cols.1 ds in
      (ms, run, (All-implies _ _ (Picked-later i none cs) ms all, one))
  pick_pairs_total h i (some c ∷ cs) e cols ds =
      let (ms, run, (all, one)) = pick_pairs_total h (suc i) cs (omega arith) cols.1 ds.1 in
      let (row, erow) = get_elem?_total table i (omega arith) in
      let (cost, ecost) =
        get_elem?_total row c (
          omega (arith, All-get_elem? (λ r. length r ≡ length djs) table i h.width erow, cols.0)) in
      let (ti, eti) = get_elem?_total tis i (omega (arith, h.as_rows)) in
      let (dj, edj) = get_elem?_total djs c cols.0 in
      elim (Bool-cases (P.d_lt cost limit)) [
        | inl q ↦ (
          record { i_index = ti; j_index = dj } ∷ ms,
          rw (erow, ecost, run, q, eti, edj),
          (
            (
              record {
                step = zero;
                column = c;
                row = row;
                cost = cost;
                assigned = refl;
                from_row = rw (plus_zero i) eti;
                from_column = edj;
                the_row = rw (plus_zero i) erow;
                the_cost = ecost;
                is_under = q;
              },
              All-implies _ _ (Picked-later i (some c) cs) ms all,
            ),
            (All-implies _ _ (differs h i c cs ds.0 eti edj) ms all, one),
          ),
        )
        | inr q ↦ (
          ms,
          rw (erow, ecost, run, q),
          (All-implies _ _ (Picked-later i (some c) cs) ms all, one),
        )
      ]
