-- ===== src/Track/Refresh.antt =====
-- modules/track/src/tracker.cpp: what a matched detection does to its object.
use edge_frame.Prelude.{ℕ, Bool, true, false, not, ◌&&◌, ◌||◌, List, [], ◌∷◌}
use edge_frame.Prelude.{◌++◌, Option, some, if◌then◌else◌, length, get_elem?, set, ltb}
use edge_frame.Prelude.{◌>>=◌, sub_u64, add_int, int_lt}
use edge_frame.Platform.{Platform, Env}
use edge_frame.Track.Person.{confirmed, MatchPair, PersonObject, Tracker}
use edge_frame.Track.Geometry.{area_exceeds}
use edge_frame.Track.Match.{is_empty, is_confirmed, ensure_feature, crop}

-- `while (v.size() > n) v.erase(v.begin())`
unfoldable pub trim {ℓ} : {A : Type ℓ} → ℕ → List A → List A
trim n [] = []
trim n (x ∷ xs) = let rest = trim n xs in if ltb n (length (x ∷ xs)) then rest else x ∷ xs

-- An object and the detection that it was matched with.
pub record Matched (P : Platform) : Type 0 where
  pub object : PersonObject P
  pub det : PersonObject P
  pub env : Env

module _ (P : Platform) (t : Tracker P) where
  open P use {Mat}

  unfoldable pub is_object_need_extract_feature : PersonObject P → Bool
  is_object_need_extract_feature p =
      not (is_confirmed p.object_status)
      || is_empty p.last_updated_body_feature_message.tengine_feature
      || ltb t.thresholds.feature_extract_thresh
          (sub_u64 t.cur_process_frame_id p.last_updated_body_feature_message.update_frame_id)

  -- The object takes over the detection's feature, extracted now if it is missing.
  unfoldable pub refresh_feature : PersonObject P → PersonObject P → Env → Matched P
  refresh_feature p d env =
      let made = ensure_feature P t d env in
      let message = (made.0).last_updated_body_feature_message in
      if is_object_need_extract_feature p
        && area_exceeds P d.last_updated_body_bbox.bbox_rect t.cur_process_frame_mat
            t.thresholds.bbox_area_extract_feature_thresh
      then record {
        object = record p {
          last_updated_body_feature_message = message;
          feature_messages =
              trim t.thresholds.feature_vec_size (p.feature_messages ++ (message ∷ []));
        };
        det = made.0;
        env = made.1;
      }
      else record { object = p; det = d; env = env }

  -- `body_hit_num += 1`, the confirmation, and the body box.
  unfoldable pub refresh_body : PersonObject P → PersonObject P → PersonObject P
  refresh_body p d =
      let hits = add_int p.body_hit_num 1 in
      record p {
        body_hit_num = hits;
        object_status =
            if int_lt t.thresholds.hit_num_thresh hits then confirmed else p.object_status;
        is_current_body_detected = true;
        last_updated_body_bbox = d.last_updated_body_bbox;
        body_trajectory =
            trim t.thresholds.trajectory_size
              (p.body_trajectory ++ (d.last_updated_body_bbox ∷ []));
      }

  unfoldable pub refresh_face : PersonObject P → PersonObject P → PersonObject P
  refresh_face p d =
      if d.is_current_face_detected
      then record p {
        is_current_face_detected = true;
        last_updated_face_bbox = d.last_updated_face_bbox;
        face_trajectory =
            trim t.thresholds.trajectory_size
              (p.face_trajectory ++ (d.last_updated_face_bbox ∷ []));
      }
      else record p { is_current_face_detected = false }

  abbrev pub mark_matched : PersonObject P → PersonObject P
  mark_matched p = record p { is_current_frame_matched_or_new = true }

  unfoldable pub update_matched_object_status : PersonObject P → PersonObject P → Env → Matched P
  update_matched_object_status p d env =
      let seen = refresh_feature (mark_matched p) (mark_matched d) env in
      if d.is_current_body_detected
      then record seen { object = refresh_face (refresh_body seen.object seen.det) seen.det }
      else record {
        object = refresh_face (record (mark_matched p) { is_current_body_detected = false }) d;
        det = mark_matched d;
        env = env;
      }

-- The objects and the detections while the pairs are gone through.
pub record Work (P : Platform) : Type 0 where
  pub objects : List (PersonObject P)
  pub dets : List (PersonObject P)
  pub env : Env

module _ (P : Platform) (t : Tracker P) where
  -- The `image(rect)` of `UpdateMatchedObjectStatus`, where it is reached.
  unfoldable pub crop_matched : PersonObject P → PersonObject P → Option P.Rect
  unfolding crop is_object_need_extract_feature
  crop_matched p d =
      if d.is_current_body_detected
        && is_object_need_extract_feature P t (mark_matched P t p)
        && area_exceeds P d.last_updated_body_bbox.bbox_rect t.cur_process_frame_mat
            t.thresholds.bbox_area_extract_feature_thresh
      then crop P t d
      else some d.last_updated_body_bbox.bbox_rect

  unfoldable pub update_pair : MatchPair → Work P → Option (Work P)
  update_pair m w = do
    p ← get_elem? w.objects m.i_index
    d ← get_elem? w.dets m.j_index
    cropped ← crop_matched p d
    let r = update_matched_object_status P t p d w.env
    some (record {
      objects = set w.objects m.i_index r.object;
      dets = set w.dets m.j_index r.det;
      env = r.env;
    })

  -- `UpdateMatchedTrackedObjects`, and the first loop of `UpdateMatchedExpiredObjects`.
  unfoldable pub update_matched_objects : List MatchPair → Work P → Option (Work P)
  update_matched_objects [] w = some w
  update_matched_objects (m ∷ ms) w = do w' ← update_pair m w; update_matched_objects ms w'
