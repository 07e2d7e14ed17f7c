-- ===== src/Track/Matching/Iou.antt =====
-- `IOUMatch` as a whole, under the contract of the solver.
use edge_frame.Prelude.{ℕ, ◌+◌, ◌<◌, ◌≡◌, sym, ◌∙◌, true, false, ◌||◌}
use edge_frame.Prelude.{List, [], ◌∷◌, Option, some, length, get_elem?, indexes_from}
use edge_frame.Prelude.{All, arith, some_eq, Bool-cases, inl, inr}
use edge_frame.Prelude.{All-implies}
use edge_frame.Prelude.{
  Passes, indexes_from-Passes, indexes_from-Ascending, length-map_opt, map_opt-All, map_opt_total,
  get_elem?-map_opt, All-get_elem?,
}
use edge_frame.Prelude.{zero_plus}
use edge_frame.Platform.{Platform}
use edge_frame.Track.Person.{BBoxType, MatchPair, PersonObject, Tracker}
use edge_frame.Track.Match.{
  is_empty, wants_iou, offers_iou, iou_cost, iou_cell, iou_table, iou_match,
}
use edge_frame.Track.Matching.{IsTable, SolverLaw, OneToOne, Picked, pick_pairs_total}

module _ (P : Platform) (t : Tracker P) (b : BBoxType) (objects dets : List (PersonObject P)) where
  abbrev limit : P.Double
  limit = P.d_sub P.d_one t.thresholds.iou_thresh

  -- The pair joins an object that was not matched yet to a detection that was not, and that has a
  -- box of the type, at a cost below the limit.
  pub record IsCandidate (m : MatchPair) : Type 0 where
    pub object : PersonObject P
    pub det : PersonObject P
    pub of_object : get_elem? objects m.i_index ≡ some object
    pub of_det : get_elem? dets m.j_index ≡ some det
    pub object_is_free : wants_iou P object ≡ true
    pub det_is_free : offers_iou P b det ≡ true
    pub is_near : P.d_lt (iou_cost P b object det) limit ≡ true

  abbrev tis : List ℕ
  tis = indexes_from (wants_iou P) 0 objects

  abbrev djs : List ℕ
  djs = indexes_from (offers_iou P b) 0 dets

  iou_cell-eq :
      (ti dj : ℕ) {p d : PersonObject P}
      → get_elem? objects ti ≡ some p
      → get_elem? dets dj ≡ some d
      → iou_cell P b objects dets ti dj ≡ some (iou_cost P b p d)
  unfolding iou_cell
  iou_cell-eq ti dj ep ed = rw (ep, ed)

  iou_cell_total :
      (ti dj : ℕ)
      → Passes (wants_iou P) 0 objects ti
      → Passes (offers_iou P b) 0 dets dj
      → (cost : P.Double) × (iou_cell P b objects dets ti dj ≡ some cost)
  iou_cell_total ti dj (k, e, p, ep, _) (l, e', d, ed, _) =
      (iou_cost P b p d, iou_cell-eq ti dj (rw (zero_plus ti k e) ep) (rw (zero_plus dj l e') ed))

  iou_table_total :
      (table : List (List P.Double)) × (iou_table P b objects dets tis djs ≡ some table)
  unfolding iou_table
  iou_table_total = map_opt_total _ tis (
      All-implies _ _
        (λ ti hi. map_opt_total (iou_cell P b objects dets ti) djs (
          All-implies _ _ (λ dj hj. iou_cell_total ti dj hi hj) djs
            (indexes_from-Passes (offers_iou P b) 0 dets)))
        tis (indexes_from-Passes (wants_iou P) 0 objects))

  -- A pair that was picked from the table of costs is a candidate.
  pair-IsCandidate :
      (table : List (List P.Double)) (cs : List (Option ℕ)) (m : MatchPair)
      → iou_table P b objects dets tis djs ≡ some table
      → Picked P limit table tis djs 0 cs m
      → IsCandidate m
  unfolding iou_table
  pair-IsCandidate table cs m made k =
      let (i, ei, p, ep, free) =
        All-get_elem? (Passes (wants_iou P) 0 objects) tis _ (indexes_from-Passes _ 0 objects)
          k.from_row in
      let (j, ej, d, ed, offered) =
        All-get_elem? (Passes (offers_iou P b) 0 dets) djs _ (indexes_from-Passes _ 0 dets)
          k.from_column in
      let row_made = get_elem?-map_opt _ tis (0 + k.step) made k.from_row k.the_row in
      let cell_made = get_elem?-map_opt _ djs k.column row_made k.from_column k.the_cost in
      let here : get_elem? objects m.i_index ≡ some p = rw (zero_plus m.i_index i ei) ep in
      let there : get_elem? dets m.j_index ≡ some d = rw (zero_plus m.j_index j ej) ed in
      record {
        object = p;
        det = d;
        of_object = here;
        of_det = there;
        object_is_free = free;
        det_is_free = offered;
        is_near =
            rw (some_eq (sym (iou_cell-eq m.i_index m.j_index here there) ∙ cell_made)) k.is_under;
      }

  costs-IsTable :
      (table : List (List P.Double))
      → iou_table P b objects dets tis djs ≡ some table
      → (is_empty tis || is_empty djs) ≡ false
      → IsTable (length djs) table
  unfolding iou_table
  costs-IsTable table made q = record {
    has_column = not_empty djs (ground arith);
    has_row = omega (arith, length-map_opt _ tis made, not_empty tis (ground arith));
    even = map_opt-All _ _ (λ ti row e. length-map_opt _ djs e) tis made;
  }
    where
      not_empty : (js : List ℕ) → is_empty js ≡ false → 0 < length js
      not_empty [] e = cc
      not_empty (j ∷ js) e = omega arith

  -- `IOUMatch` never fails if the solver keeps its contract: it returns pairs, each of which joins
  -- an object and a detection that were both still unmatched at a cost below the limit, and no
  -- object and no detection stands in two of them.
  pub iou_match_total :
      SolverLaw P
      → (ms : List MatchPair) × (iou_match P t b objects dets ≡ some ms)
        × All IsCandidate ms
        × OneToOne ms
  unfolding iou_match
  iou_match_total law = elim (Bool-cases (is_empty tis || is_empty djs)) [
    | inl q ↦ ([], rw q, tt, tt)
    | inr q ↦
        let (table, made) = iou_table_total in
        let shape = costs-IsTable table made q in
        let (ms, run, (all, one)) =
          pick_pairs_total P limit table tis djs
            (record {
              as_rows = sym (length-map_opt _ tis made);
              width = shape.even;
              rows_ascend = indexes_from-Ascending _ 0 objects;
              columns_ascend = indexes_from-Ascending _ 0 dets;
            })
            0 (P.solve table) (omega (arith, law.one_per_row _ table shape))
            (law.in_range _ table shape) (law.distinct _ table shape) in
        (
          ms,
          rw (q, made) run,
          All-implies _ IsCandidate (λ m. pair-IsCandidate table _ m made) ms all,
          one,
        )
  ]
