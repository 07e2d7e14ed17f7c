-- ===== src/Track/Match.antt =====
-- modules/track/src/tracker.cpp: `IOUMatch` and `FeatureMatch`, which pair tracked or expired
-- objects with the detections of a frame. `none` stands for an access out of range or a failed
-- assertion.
use edge_frame.Prelude.{ℕ, suc, Bool, true, false, not, ◌&&◌, ◌||◌, List, [], ◌∷◌}
use edge_frame.Prelude.{Option, none, some, if◌then◌else◌, get_elem?, set, ltb, leb, ◌+◌, ◌^◌}
use edge_frame.Prelude.{indexes_from, map_opt, ◌>>=◌, sub_u64, to_int}
use edge_frame.Metrics.{add_metric, algo_model_monitor}
use edge_frame.Platform.{Platform, Env}
use edge_frame.Track.Person.{
  BBoxType, face, body, unconfirmed, confirmed, ObjectStatus, MatchPair, FeatureMessage,
  PersonObject, Tracker,
}
use edge_frame.Track.Geometry.{get_iou, calc_cos_similarity, area_exceeds}

abbrev pub is_empty {ℓ} : {A : Type ℓ} → List A → Bool
is_empty [] = true
is_empty (x ∷ xs) = false

abbrev pub is_confirmed : ObjectStatus → Bool
is_confirmed unconfirmed = false
is_confirmed confirmed = true

-- `match_pairs.push_back(MatchPair{tracked_indexes[i], detected_indexes[assignment[i]]})`, under
-- the test of the cost.
unfoldable pub add_pair : Bool → List ℕ → List ℕ → ℕ → ℕ → List MatchPair → Option (List MatchPair)
add_pair true tis djs i c pairs = do
  ti ← get_elem? tis i
  dj ← get_elem? djs c
  some (record { i_index = ti; j_index = dj } ∷ pairs)
add_pair false tis djs i c pairs = some pairs

-- `0 <= x && 0 <= width && x + width <= cols`
unfoldable pub fits_side : ℕ → ℕ → ℕ → Bool
fits_side x width cols = ltb x (2 ^ 31) && ltb width (2 ^ 31) && leb (x + width) cols

module _ (P : Platform) where
  open P use {
    Float, Double, Mat, Rect, rows, cols, to_int_rect, d_zero, d_one, d_sub, d_lt, reid, clock,
    solve,
  }

  -- Which tracked objects `IOUMatch` still has to match.
  unfoldable pub wants_iou : PersonObject P → Bool
  wants_iou p = not p.is_current_frame_matched_or_new

  -- Which detections `IOUMatch` still has to match.
  unfoldable pub offers_iou : BBoxType → PersonObject P → Bool
  offers_iou face d = not d.is_current_frame_matched_or_new && d.is_current_face_detected
  offers_iou body d = not d.is_current_frame_matched_or_new && d.is_current_body_detected

  unfoldable pub iou_cost : BBoxType → PersonObject P → PersonObject P → Double
  iou_cost face p d =
      d_sub d_one (get_iou P p.last_updated_face_bbox.bbox_rect d.last_updated_face_bbox.bbox_rect)
  iou_cost body p d =
      d_sub d_one (get_iou P p.last_updated_body_bbox.bbox_rect d.last_updated_body_bbox.bbox_rect)

  unfoldable pub iou_cell :
      BBoxType → List (PersonObject P) → List (PersonObject P) → ℕ → ℕ → Option Double
  iou_cell bbox_type objects dets ti dj = do
    p ← get_elem? objects ti
    d ← get_elem? dets dj
    some (iou_cost bbox_type p d)

  unfoldable pub iou_table :
      BBoxType
      → List (PersonObject P)
      → List (PersonObject P)
      → List ℕ
      → List ℕ
      → Option (List (List Double))
  iou_table bbox_type objects dets tis djs =
      map_opt (λ ti. map_opt (iou_cell bbox_type objects dets ti) djs) tis

  -- The loop over `assignment` from row `i` on: the assigned pairs whose cost is under the limit.
  unfoldable pub pick_pairs :
      Double → List (List Double) → List ℕ → List ℕ → ℕ → List (Option ℕ) → Option (List MatchPair)
  pick_pairs limit table tis djs i [] = some []
  pick_pairs limit table tis djs i (none ∷ rest) = pick_pairs limit table tis djs (suc i) rest
  pick_pairs limit table tis djs i (some c ∷ rest) = do
    row ← get_elem? table i
    cost ← get_elem? row c
    pairs ← pick_pairs limit table tis djs (suc i) rest
    add_pair (d_lt cost limit) tis djs i c pairs

  unfoldable pub iou_match :
      Tracker P → BBoxType → List (PersonObject P) → List (PersonObject P) → Option (List MatchPair)
  unfolding iou_table iou_cell
  iou_match t bbox_type objects dets =
      let tis = indexes_from wants_iou 0 objects in
      let djs = indexes_from (offers_iou bbox_type) 0 dets in
      if is_empty tis || is_empty djs then some [] else (do
        table ← iou_table bbox_type objects dets tis djs
        pick_pairs (d_sub d_one t.thresholds.iou_thresh) table tis djs 0 (solve table))

  -- The assertion of `image(rect)`: as a `cv::Rect`, the rectangle lies in the image.
  unfoldable pub in_image : Mat → Rect → Bool
  in_image m r =
      let (x, y, width, height) = to_int_rect r in
      fits_side x width (cols m) && fits_side y height (rows m)

  -- `image(rect)` for `sdk::reid`, where a detection has no feature yet; `none` where the assertion
  -- fails.
  unfoldable pub crop : Tracker P → PersonObject P → Option Rect
  unfolding in_image
  crop t d =
      let rect = d.last_updated_body_bbox.bbox_rect in
      if in_image t.cur_process_frame_mat rect
      then some rect
      else (if is_empty d.last_updated_body_feature_message.tengine_feature
          then none
          else some rect)

  -- `sdk::reid` on a detection whose `crop` was made, with the metrics that go with it.
  unfoldable pub extract_feature : Tracker P → PersonObject P → Env → PersonObject P × Env
  extract_feature t d env =
      let cur_time = clock env.reads in
      let duration = sub_u64 (clock (suc env.reads)) cur_time in
      let counted = add_metric env.metrics algo_model_monitor "cv_reid_count" 1 in
      let timed = add_metric counted algo_model_monitor "cv_reid_cost" (to_int duration) in
      (
        record d {
          last_updated_body_feature_message = record {
            update_timestamp = t.cur_process_frame_timestamp;
            update_frame_id = t.cur_process_frame_id;
            tengine_feature = reid t.cur_process_frame_mat d.last_updated_body_bbox.bbox_rect;
          };
        },
        record { metrics = timed; reads = suc (suc env.reads) },
      )

  -- A detection that has no feature yet gets one.
  unfoldable pub ensure_feature : Tracker P → PersonObject P → Env → PersonObject P × Env
  ensure_feature t d env =
      if is_empty d.last_updated_body_feature_message.tengine_feature
      then extract_feature t d env
      else (d, env)

  -- The least cost against the features kept of an object, below the running minimum.
  unfoldable pub min_cost : List (FeatureMessage P) → List Float → Double → Option Double
  min_cost [] feature least = some least
  min_cost (m ∷ ms) feature least = do
    similarity ← calc_cos_similarity P m.tengine_feature feature
    let cost = d_sub d_one similarity
    min_cost ms feature (if d_lt cost least then cost else least)

  unfoldable pub wants_feature : BBoxType → PersonObject P → Bool
  wants_feature face p = false
  wants_feature body p =
      not p.is_current_frame_matched_or_new
      && is_confirmed p.object_status
      && not (is_empty p.feature_messages)

  unfoldable pub offers_feature : Tracker P → BBoxType → PersonObject P → Bool
  offers_feature t face d = not d.is_current_frame_matched_or_new && d.is_current_face_detected
  offers_feature t body d =
      not d.is_current_frame_matched_or_new
      && d.is_current_body_detected
      && area_exceeds P d.last_updated_body_bbox.bbox_rect t.cur_process_frame_mat
          t.thresholds.bbox_area_extract_feature_thresh

-- What the nested loops of `FeatureMatch` carry along.
pub record Scan (P : Platform) (A : Type 0) : Type 0 where
  pub out : A
  pub dets : List (PersonObject P)
  pub env : Env

module _ (P : Platform) (t : Tracker P) (objects : List (PersonObject P)) where
  open P use {Double, d_one, d_sub, solve}

  -- `table[i][j]`; a face cell keeps the 1.0 of the table's initialisation.
  unfoldable pub feature_cell :
      BBoxType → ℕ → ℕ → List (PersonObject P) → Env → Option (Scan P Double)
  feature_cell face ti dj dets env = some (record { out = d_one; dets = dets; env = env })
  feature_cell body ti dj dets env = do
    d ← get_elem? dets dj
    cropped ← crop P t d
    let made = ensure_feature P t d env
    p ← get_elem? objects ti
    cost ←
        min_cost P p.feature_messages (made.0).last_updated_body_feature_message.tengine_feature
          d_one
    some (record { out = cost; dets = set dets dj made.0; env = made.1 })

  unfoldable pub feature_row :
      BBoxType → ℕ → List ℕ → List (PersonObject P) → Env → Option (Scan P (List Double))
  feature_row bbox_type ti [] dets env = some (record { out = []; dets = dets; env = env })
  feature_row bbox_type ti (dj ∷ djs) dets env = do
    cell ← feature_cell bbox_type ti dj dets env
    rest ← feature_row bbox_type ti djs cell.dets cell.env
    some (record { out = cell.out ∷ rest.out; dets = rest.dets; env = rest.env })

  unfoldable pub feature_table :
      BBoxType
      → List ℕ
      → List ℕ
      → List (PersonObject P)
      → Env
      → Option (Scan P (List (List Double)))
  feature_table bbox_type [] djs dets env = some (record { out = []; dets = dets; env = env })
  feature_table bbox_type (ti ∷ tis) djs dets env = do
    row ← feature_row bbox_type ti djs dets env
    rest ← feature_table bbox_type tis djs row.dets row.env
    some (record { out = row.out ∷ rest.out; dets = rest.dets; env = rest.env })

  unfoldable pub feature_match :
      BBoxType → List (PersonObject P) → Env → Option (Scan P (List MatchPair))
  feature_match bbox_type dets env =
      let tis = indexes_from (wants_feature P bbox_type) 0 objects in
      let djs = indexes_from (offers_feature P t bbox_type) 0 dets in
      if is_empty tis || is_empty djs
      then some (record { out = []; dets = dets; env = env })
      else (do
        table ← feature_table bbox_type tis djs dets env
        pairs ←
            pick_pairs P (d_sub d_one t.thresholds.cos_similarity_thresh) table.out tis djs 0
              (solve table.out)
        some (record { out = pairs; dets = table.dets; env = table.env }))
