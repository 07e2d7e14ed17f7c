-- ===== src/Track/Retire.antt =====
-- modules/track/src/tracker.cpp: objects that lose their track, expire, come back or leave.
use edge_frame.Prelude.{ℕ, Bool, true, not, ◌&&◌, ◌||◌, List, [], ◌∷◌}
use edge_frame.Prelude.{◌++◌, Option, some, if◌then◌else◌, length, ltb, ◌>>=◌, sub_u64}
use edge_frame.Prelude.{add_u64, to_int, map}
use edge_frame.Platform.{Platform, Env}
use edge_frame.Track.Person.{unconfirmed, confirmed, ObjectStatus, MatchPair, PersonObject, Tracker}
use edge_frame.Track.Geometry.{area_exceeds}
use edge_frame.Track.Match.{is_empty}
use edge_frame.Track.Refresh.{update_matched_objects}
use edge_frame.Track.Sweep.{Verdict, keep, drop, move, sweep}

module _ (P : Platform) where
  -- Both boxes were last seen more than `thresh` frames before `frame_id`, in `unsigned long long`.
  unfoldable pub unseen_for : ℕ → ℕ → PersonObject P → Bool
  unseen_for frame_id thresh p =
      ltb thresh (sub_u64 frame_id p.last_updated_face_bbox.update_frame_id)
      && ltb thresh (sub_u64 frame_id p.last_updated_body_bbox.update_frame_id)

  abbrev retire : ObjectStatus → Bool → Verdict
  retire unconfirmed lost = drop
  retire confirmed lost = if lost then move else keep

  -- The body of the loop of `UpdateUnMatchedTrackedObjectsStatus`.
  unfoldable pub tracked_verdict : Tracker P → ℕ → PersonObject P → Verdict
  tracked_verdict t frame_id p =
      if p.is_current_frame_matched_or_new
      then keep
      else retire p.object_status (unseen_for frame_id t.thresholds.lost_track_thresh p)

  unfoldable pub update_unmatched_tracked : Tracker P → ℕ → Tracker P
  update_unmatched_tracked t frame_id =
      let swept = sweep (tracked_verdict t frame_id) t.tracked t.expired in
      record t { tracked = swept.left; expired = swept.out }

  unfoldable pub check_valid_leave : Tracker P → PersonObject P → Bool
  check_valid_leave t p =
      if t.thresholds.valid_leave_with_reid
      then not (ltb (length p.body_trajectory) 15 || is_empty p.feature_messages)
      else not (ltb (length p.body_trajectory) 15)

  -- The body of the loop of `UpdateUnMatchedExpiredObjectsStatus`.
  unfoldable pub expired_verdict : Tracker P → ℕ → PersonObject P → Verdict
  expired_verdict t frame_id p =
      if unseen_for frame_id t.thresholds.expired_to_delete_thresh p
      then (if check_valid_leave t p then move else drop)
      else keep

  -- The second component is `valid_leave_objects`.
  unfoldable pub update_unmatched_expired :
      Tracker P → ℕ → List (PersonObject P) → Tracker P × List (PersonObject P)
  update_unmatched_expired t frame_id leaves =
      let swept = sweep (expired_verdict t frame_id) t.expired leaves in
      (record t { expired = swept.left }, swept.out)

  -- The body of the second loop of `UpdateMatchedExpiredObjects`.
  unfoldable pub matched_verdict : PersonObject P → Verdict
  matched_verdict p = if p.is_current_frame_matched_or_new then move else keep

  -- `UpdateMatchedExpiredObjects`: expired objects that were matched go back to the tracked ones.
  unfoldable pub update_matched_expired :
      Tracker P
      → List MatchPair
      → List (PersonObject P)
      → Env
      → Option (Tracker P × List (PersonObject P) × Env)
  update_matched_expired t pairs dets env = do
    w ← update_matched_objects P t pairs (record { objects = t.expired; dets = dets; env = env })
    let swept = sweep matched_verdict w.objects t.tracked
    some (record t { tracked = swept.out; expired = swept.left }, w.dets, w.env)

  -- `AddUnMatchedCurDetectedObjects`: tracked objects, detections, and `global_id` at the end.
  unfoldable pub add_unmatched :
      List (PersonObject P)
      → List (PersonObject P)
      → ℕ
      → List (PersonObject P) × List (PersonObject P) × ℕ
  add_unmatched tracked [] gid = (tracked, [], gid)
  add_unmatched tracked (d ∷ ds) gid =
      let fresh = record d { is_current_frame_matched_or_new = true; id = to_int gid } in
      let skipped = add_unmatched tracked ds gid in
      let added = add_unmatched (tracked ++ (fresh ∷ [])) ds (add_u64 gid 1) in
      if d.is_current_frame_matched_or_new
      then (skipped.0, d ∷ skipped.1, skipped.2)
      else (added.0, fresh ∷ added.1, added.2)

  -- The object is big enough in this frame for its time to count.
  unfoldable pub is_resident : Tracker P → PersonObject P → Bool
  is_resident t p =
      p.is_current_frame_matched_or_new
      && p.is_current_body_detected
      && area_exceeds P p.last_updated_body_bbox.bbox_rect t.cur_process_frame_mat
          t.thresholds.body_residence_area_thresh

  -- It was so, too, less than the given number of frames ago.
  unfoldable pub was_resident : Tracker P → PersonObject P → Bool
  was_resident t p =
      p.is_previous_frame_body_bbox_area_bigger_than_thresh
      && ltb (sub_u64 t.cur_process_frame_id p.previous_body_bbox_area_bigger_than_thresh_frame_id)
          t.thresholds.body_bbox_area_bigger_than_thresh_frame_interval

  -- The body of the loop of `AccumulateDuration`.
  unfoldable pub accumulate : Tracker P → PersonObject P → PersonObject P
  accumulate t p =
      let gone =
        sub_u64 t.cur_process_frame_timestamp
          p.previous_body_bbox_area_bigger_than_thresh_timestamp in
      if is_resident t p
      then record p {
        duration = if was_resident t p then add_u64 p.duration gone else p.duration;
        is_previous_frame_body_bbox_area_bigger_than_thresh = true;
        previous_body_bbox_area_bigger_than_thresh_timestamp = t.cur_process_frame_timestamp;
        previous_body_bbox_area_bigger_than_thresh_frame_id = t.cur_process_frame_id;
      }
      else p

  unfoldable pub accumulate_duration : Tracker P → List (PersonObject P) → List (PersonObject P)
  accumulate_duration t = map (accumulate t)

  -- `CheckLeave`
  unfoldable pub check_leave : Tracker P → PersonObject P → Bool
  check_leave t p =
      not p.is_current_frame_matched_or_new
      && unseen_for t.cur_process_frame_id t.thresholds.lost_track_thresh p
