-- ===== src/Track/Greedy/Found.antt =====
-- What the greedy search of modules/track/src/tracker.cpp finds, and where.
use edge_frame.Prelude.{
  true, false, ℕ, zero, suc, ◌+◌, ◌≡◌, refl, sym, ◌∙◌, ◌⊎◌, inl, inr, List, [], ◌∷◌, Option, some,
}
use edge_frame.Prelude.{if_cases, arith, length, get_elem?, All, All-implies, subst}
use edge_frame.Platform.{Platform}
use edge_frame.Track.Greedy.{Best, best_in_row, best_in_rows, first_width, find_best_match}

-- What IEEE 754 says of the comparisons that the search makes: its cells are of type `double` and the
-- value that it keeps is a `float`. A rounded number is not above a `float` that it was below, nor
-- below one that it was not below.
pub record Rounding (P : Platform) : Type 0 where
  pub rounds_below :
      (c : P.Double) (f x : P.Float)
      → P.d_lt c (P.to_double f) ≡ true
      → P.f_lt x f ≡ false
      → P.f_lt x (P.of_double c) ≡ false
  pub rounds_above :
      (c : P.Double) (f : P.Float)
      → P.d_lt c (P.to_double f) ≡ false
      → P.f_lt (P.of_double c) f ≡ false
  pub below_rounded :
      (c later : P.Double) (f : P.Float)
      → P.d_lt c (P.to_double f) ≡ true
      → P.d_lt later (P.to_double (P.of_double c)) ≡ true
      → P.d_lt later (P.to_double f) ≡ true
  pub irreflexive : (x : P.Float) → P.f_lt x x ≡ false

module _ (P : Platform) (law : Rounding P) where
  -- The place of `r` in a row that starts at column `j` of row `i`.
  record InRow (b : Best P) (i j : ℕ) (row : List P.Double) (r : Best P) : Type 0 where
    place : ℕ
    cell : P.Double
    there : get_elem? row place ≡ some cell
    below : P.d_lt cell (P.to_double b.value) ≡ true
    same_i : r.i_index ≡ i
    same_j : r.j_index ≡ j + place
    same_value : r.value ≡ P.of_double cell

  -- No cell is below the value that the search started with.
  abbrev pub NoneBelow : Best P → List P.Double → Type 0
  NoneBelow b = All (λ c. P.d_lt c (P.to_double b.value) ≡ false)

  -- No cell is less than the value, as a `float`.
  abbrev pub Least : P.Float → List P.Double → Type 0
  Least value = All (λ c. P.f_lt (P.of_double c) value ≡ false)

  -- What is not below the value that the search started with is not below the one that it leaves.
  abbrev NotAbove : Best P → Best P → Type 0
  NotAbove r b = (x : P.Float) → P.f_lt x b.value ≡ false → P.f_lt x r.value ≡ false

  abbrev RowFound : ℕ → ℕ → List P.Double → Best P → Option (Best P) → Type 0
  RowFound i j row b o =
      (r : Best P) × (o ≡ some r)
      × (((r ≡ b) × NoneBelow b row) ⊎ InRow b i j row r)
      × NotAbove r b
      × Least r.value row

  InRow-later :
      (b now : Best P) (i j : ℕ) (c : P.Double) (row : List P.Double) (r : Best P)
      → ((x : P.Double)
          → P.d_lt x (P.to_double now.value) ≡ true
          → P.d_lt x (P.to_double b.value) ≡ true)
      → InRow now i (suc j) row r
      → InRow b i j (c ∷ row) r
  InRow-later b now i j c row r f h = record {
    place = suc h.place;
    cell = h.cell;
    there = h.there;
    below = f h.cell h.below;
    same_i = h.same_i;
    same_j = omega (arith, h.same_j);
    same_value = h.same_value;
  }

  InRow-first :
      (b : Best P) (i j : ℕ) (c : P.Double) (row : List P.Double)
      → P.d_lt c (P.to_double b.value) ≡ true
      → InRow b i j (c ∷ row) (record { i_index = i; j_index = j; value = P.of_double c })
  InRow-first b i j c row h = record {
    place = zero;
    cell = c;
    there = refl;
    below = h;
    same_i = refl;
    same_j = omega arith;
    same_value = refl;
  }

  best_in_row-RowFound :
      (i j n : ℕ) (row : List P.Double) (b : Best P)
      → n ≡ length row
      → RowFound i j row b (best_in_row P i j n row b)
  unfolding best_in_row
  best_in_row-RowFound i j zero [] b h = (b, refl, inl (refl, tt), (λ x k. k), tt)
  best_in_row-RowFound i j zero (c ∷ row) b h = absurd (omega arith)
  best_in_row-RowFound i j (suc n) [] b h = absurd (omega arith)
  best_in_row-RowFound i j (suc n) (c ∷ row) b h =
      if_cases (λ b1. RowFound i j (c ∷ row) b (best_in_row P i (suc j) n row b1))
        (P.d_lt c (P.to_double b.value))
        (λ lt.
          let here : Best P = record { i_index = i; j_index = j; value = P.of_double c } in
          let (r, run, found, under, least) =
            best_in_row-RowFound i (suc j) n row here (omega arith) in
          (
            r,
            run,
            elim found [
              | inl e ↦ inr (subst (InRow b i j (c ∷ row)) (sym e.0) (InRow-first b i j c row lt))
              | inr k ↦
                  inr (InRow-later b here i j c row r (λ x q. law.below_rounded c x b.value lt q) k)
            ],
            (λ x k. under x (law.rounds_below c b.value x lt k)),
            (under (P.of_double c) (law.irreflexive (P.of_double c)), least),
          ))
        λ q.
          let (r, run, found, under, least) =
            best_in_row-RowFound i (suc j) n row b (omega arith) in
          (
            r,
            run,
            elim found [
              | inl e ↦ inl (e.0, (q, e.1))
              | inr k ↦ inr (InRow-later b b i j c row r (λ x h. h) k)
            ],
            under,
            (under (P.of_double c) (law.rounds_above c b.value q), least),
          )

  -- The place and the value of a result are those of a cell of the table that is below the value that
  -- the search started with, rows counted from `i`.
  pub record IsEntry (b : Best P) (i : ℕ) (table : List (List P.Double)) (r : Best P) : Type 0 where
    pub step : ℕ
    pub row : List P.Double
    pub cell : P.Double
    pub the_row : get_elem? table step ≡ some row
    pub the_cell : get_elem? row r.j_index ≡ some cell
    pub is_below : P.d_lt cell (P.to_double b.value) ≡ true
    pub same_i : r.i_index ≡ i + step
    pub same_value : r.value ≡ P.of_double cell

  InRow-IsEntry :
      (b : Best P) (i : ℕ) (row : List P.Double) (rows : List (List P.Double)) (r : Best P)
      → InRow b i 0 row r
      → IsEntry b i (row ∷ rows) r
  InRow-IsEntry b i row rows r h = record {
    step = zero;
    row = row;
    cell = h.cell;
    the_row = refl;
    the_cell = rw (column h.place r.j_index h.same_j) h.there;
    is_below = h.below;
    same_i = omega (arith, h.same_i);
    same_value = h.same_value;
  }
    where
      column : (k j : ℕ) → j ≡ 0 + k → j ≡ k
      column k j e = omega arith

  IsEntry-later :
      (b now : Best P) (i : ℕ) (row : List P.Double) (rows : List (List P.Double)) (r : Best P)
      → ((x : P.Double)
          → P.d_lt x (P.to_double now.value) ≡ true
          → P.d_lt x (P.to_double b.value) ≡ true)
      → IsEntry now (suc i) rows r
      → IsEntry b i (row ∷ rows) r
  IsEntry-later b now i row rows r f h = record {
    step = suc h.step;
    row = h.row;
    cell = h.cell;
    the_row = h.the_row;
    the_cell = h.the_cell;
    is_below = f h.cell h.is_below;
    same_i = omega (arith, h.same_i);
    same_value = h.same_value;
  }

  abbrev pub Found : ℕ → List (List P.Double) → Best P → Option (Best P) → Type 0
  Found i table b o =
      (r : Best P) × (o ≡ some r)
      × (((r ≡ b) × All (NoneBelow b) table) ⊎ IsEntry b i table r)
      × ((x : P.Float) → P.f_lt x b.value ≡ false → P.f_lt x r.value ≡ false)
      × All (Least r.value) table

  -- What is below the value that a row left is below the value that the row started with.
  still_below :
      (b now : Best P) (i : ℕ) (row : List P.Double)
      → ((now ≡ b) × NoneBelow b row) ⊎ InRow b i 0 row now
      → (x : P.Double) → P.d_lt x (P.to_double now.value) ≡ true
      → P.d_lt x (P.to_double b.value) ≡ true
  still_below b now i row (inl (e, none_below)) x h =
      subst (λ v. P.d_lt x (P.to_double v.value) ≡ true) e h
  still_below b now i row (inr k) x h =
      law.below_rounded k.cell x b.value k.below
        (subst (λ v. P.d_lt x (P.to_double v) ≡ true) k.same_value h)

  best_in_rows-Found :
      (n i : ℕ) (table : List (List P.Double)) (b : Best P)
      → All (λ row. length row ≡ n) table
      → Found i table b (best_in_rows P n i table b)
  unfolding best_in_rows
  best_in_rows-Found n i [] b h = (b, refl, inl (refl, tt), (λ x k. k), tt)
  best_in_rows-Found n i (row ∷ rows) b h =
      let (b1, ran, first, under1, least1) = best_in_row-RowFound i 0 n row b (sym h.0) in
      let (r, run, found, under, least) = best_in_rows-Found n (suc i) rows b1 h.1 in
      let lowered = still_below b b1 i row first in
      (
        r,
        rw ran run,
        elim found [
          | inr k ↦ inr (IsEntry-later b b1 i row rows r lowered k)
          | inl e ↦ elim first [
            | inl f ↦ inl (e.0 ∙ f.0, (f.1, subst (λ x. All (NoneBelow x) rows) f.0 e.1))
            | inr k ↦
                inr (subst (IsEntry b i (row ∷ rows)) (sym e.0) (InRow-IsEntry b i row rows b1 k))
          ]
        ],
        (λ x k. under x (under1 x k)),
        (
          All-implies (λ c. P.f_lt (P.of_double c) b1.value ≡ false) _ (λ c. under (P.of_double c))
              row least1,
          least,
        ),
      )

  -- On a table with rows of one length, and where rounding keeps the order as IEEE 754 says,
  -- `FindBestMatch` stays within the table. It leaves the row, the column and the value as a `float`
  -- of a cell that is below the value that it was called with, or what it was called with if no cell
  -- is below that value. No cell of the table, as a `float`, is less than the value that it leaves.
  pub find_best_match-Found :
      (table : List (List P.Double)) (b : Best P)
      → All (λ row. length row ≡ first_width P table) table
      → Found 0 table b (find_best_match P table b)
  unfolding find_best_match
  find_best_match-Found table b h = best_in_rows-Found (first_width P table) 0 table b h
