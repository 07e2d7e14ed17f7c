-- ===== src/Track/Greedy.antt =====
-- modules/track/src/tracker.cpp: the greedy matching that `IOUMatch` replaced, and the retirement
-- that goes with it. `none` stands for an access out of range or a failed assertion.
pub mod Found
use edge_frame.Prelude.{
  ℕ, zero, suc, Bool, true, false, ◌&&◌, ◌||◌, List, [], ◌∷◌, ◌++◌, Option, none, some,
}
use edge_frame.Prelude.{if◌then◌else◌, length, get_elem?, set, map, ltb, ◌>>=◌, sub_u64, sub_int}
use edge_frame.Platform.{Platform}
use edge_frame.Track.Person.{BBoxType, face, body, PersonObject, Tracker}
use edge_frame.Track.Match.{iou_cost}
use edge_frame.Track.Refresh.{trim}
use edge_frame.Track.Retire.{unseen_for}
use edge_frame.Track.Sweep.{Verdict, keep, drop, move, sweep}

-- `min_i_index`, `min_j_index` and `min_value`
pub record Best (P : Platform) : Type 0 where
  pub i_index : ℕ
  pub j_index : ℕ
  pub value : P.Float

module _ (P : Platform) where
  open P use {Float, Double, d_one, d_lt, to_double, of_double}

  -- `MAX_DIST` is 1.0.
  unfoldable pub table_cell : BBoxType → PersonObject P → PersonObject P → Double
  table_cell bbox_type p d =
      if p.is_current_frame_matched_or_new || d.is_current_frame_matched_or_new
      then d_one
      else iou_cost P bbox_type p d

  unfoldable pub gen_value_table :
      List (PersonObject P) → List (PersonObject P) → BBoxType → List (List Double)
  gen_value_table tracked dets bbox_type = map (λ p. map (table_cell bbox_type p) dets) tracked

  -- The loop over the first `n` cells of row `i` from column `j` on.
  unfoldable pub best_in_row : ℕ → ℕ → ℕ → List Double → Best P → Option (Best P)
  best_in_row i j zero row b = some b
  best_in_row i j (suc n) [] b = none
  best_in_row i j (suc n) (c ∷ row) b = best_in_row i (suc j) n row (
      if d_lt c (to_double b.value)
      then record { i_index = i; j_index = j; value = of_double c }
      else b)

  unfoldable pub best_in_rows : ℕ → ℕ → List (List Double) → Best P → Option (Best P)
  best_in_rows width i [] b = some b
  best_in_rows width i (row ∷ rows) b = do
    b' ← best_in_row i 0 width row b
    best_in_rows width (suc i) rows b'

  -- `table[0].size()`
  abbrev pub first_width : List (List Double) → ℕ
  first_width [] = 0
  first_width (row ∷ rows) = length row

  unfoldable pub find_best_match : List (List Double) → Best P → Option (Best P)
  find_best_match table b = best_in_rows (first_width table) 0 table b

  unfoldable block_row : List (List Double) → ℕ → List (List Double)
  block_row [] i = []
  block_row (row ∷ rows) zero = map (λ c. d_one) row ∷ rows
  block_row (row ∷ rows) (suc i) = row ∷ block_row rows i

  -- On a table of the vectors' sizes: `table[i_index][j] = MAX_DIST` and `table[i][j_index] = MAX_DIST`
  unfoldable pub block_cells : ℕ → ℕ → List (List Double) → List (List Double)
  unfolding block_row
  block_cells i_index j_index table = map (λ row. set row j_index d_one) (block_row table i_index)

  unfoldable pub take_body : Tracker P → PersonObject P → PersonObject P → PersonObject P
  take_body t p d =
      if d.is_current_body_detected
      then record p {
        is_current_body_detected = true;
        last_updated_body_bbox = d.last_updated_body_bbox;
        body_trajectory =
            trim t.thresholds.trajectory_size
              (p.body_trajectory ++ (d.last_updated_body_bbox ∷ []));
      }
      else record p { is_current_body_detected = false }

  unfoldable pub take_face : Tracker P → PersonObject P → PersonObject P → PersonObject P
  take_face t p d =
      if d.is_current_face_detected
      then record p {
        is_current_face_detected = true;
        last_updated_face_bbox = d.last_updated_face_bbox;
        face_trajectory =
            trim t.thresholds.trajectory_size
              (p.face_trajectory ++ (d.last_updated_face_bbox ∷ []));
      }
      else record p { is_current_face_detected = false }

  -- The table, the tracked objects and the detections after it.
  unfoldable pub update_matched_person_object :
      Tracker P
      → List (List Double)
      → List (PersonObject P)
      → List (PersonObject P)
      → ℕ
      → ℕ
      → Option (List (List Double) × List (PersonObject P) × List (PersonObject P))
  update_matched_person_object t table tracked dets i_index j_index = do
    p ← get_elem? tracked i_index
    d ← get_elem? dets j_index
    let p1 = record p { is_current_frame_matched_or_new = true }
    let d1 = record d { is_current_frame_matched_or_new = true }
    some (
      block_cells i_index j_index table,
      set tracked i_index (take_face t (take_body t p1 d1) d1),
      set dets j_index d1,
    )

  unfoldable pub lost_verdict : Tracker P → ℕ → PersonObject P → Verdict
  lost_verdict t frame_id p =
      if p.is_current_frame_matched_or_new
      then keep
      else (if unseen_for P frame_id t.thresholds.lost_track_thresh p then move else keep)

  -- The code tests the face box twice.
  unfoldable pub old_verdict : Tracker P → ℕ → PersonObject P → Verdict
  old_verdict t frame_id p =
      let gone =
        ltb t.thresholds.expired_to_delete_thresh
          (sub_u64 frame_id p.last_updated_face_bbox.update_frame_id) in
      if gone && gone then drop else keep

  unfoldable pub update_unmatched_tracked_and_expired :
      Tracker P
      → List (PersonObject P)
      → List (PersonObject P)
      → ℕ
      → List (PersonObject P) × List (PersonObject P)
  update_unmatched_tracked_and_expired t tracked expired frame_id =
      let lost = sweep (lost_verdict t frame_id) tracked expired in
      (lost.left, (sweep (old_verdict t frame_id) lost.out []).left)

  -- `thresh` is an `int`; `none` where the assertion fails.
  unfoldable pub is_box_near_border : P.Rect → ℕ → ℕ → ℕ → Option Bool
  is_box_near_border bbox width height thresh =
      if ltb 0 thresh && ltb thresh 50
      then some (
          P.f_lt (P.rect_x bbox) (P.f_of_int thresh)
          || P.f_lt (P.f_of_int (sub_int width thresh))
              (P.f_add (P.rect_x bbox) (P.rect_width bbox))
          || P.f_lt (P.f_of_int (sub_int height thresh))
              (P.f_add (P.rect_y bbox) (P.rect_height bbox)))
      else none
