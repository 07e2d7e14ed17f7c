-- ===== src/Track/Update.antt =====
-- modules/track/src/tracker.cpp: `Tracker::Update`, the step of the tracker on one frame.
use edge_frame.Prelude.{ℕ, Bool, true, false, not, ◌&&◌, List, [], ◌∷◌, ◌++◌, Option, none, some}
use edge_frame.Prelude.{if◌then◌else◌, ◌>>=◌, map, select}
use edge_frame.Platform.{Platform, Env}
use edge_frame.Track.Person.{body, PersonObject, Tracker}
use edge_frame.Track.Match.{wants_iou, iou_match, feature_match}
use edge_frame.Track.Refresh.{update_matched_objects}
use edge_frame.Track.Retire.{
  update_unmatched_tracked, update_matched_expired, update_unmatched_expired, add_unmatched,
  accumulate_duration,
}

-- The tracker and the vectors passed by reference, after the call. `tracked_objects` is one more
-- such vector, which the code leaves alone.
pub record Updated (P : Platform) : Type 0 where
  pub tracker : Tracker P
  pub dets : List (PersonObject P)
  pub iou_not_matched : List (PersonObject P)
  pub expired_objects : List (PersonObject P)
  pub valid_leave : List (PersonObject P)
  pub env : Env

module _ (P : Platform) where
  abbrev pub clear_flags : PersonObject P → PersonObject P
  clear_flags p = record p {
    is_current_frame_matched_or_new = false;
    is_current_body_detected = false;
    is_current_face_detected = false;
  }

  -- The members that `Update` sets first.
  unfoldable pub begin_frame : Tracker P → P.Mat → ℕ → ℕ → Tracker P
  begin_frame t frame timestamp frame_id = record t {
    cur_process_frame_id = frame_id;
    cur_process_frame_timestamp = timestamp;
    cur_process_frame_mat = frame;
    tracked = map clear_flags t.tracked;
  }

  -- `assert(!cur_detected_person_objects[i].is_current_frame_matched_or_new)` for each.
  unfoldable pub all_unmatched : List (PersonObject P) → Bool
  all_unmatched [] = true
  all_unmatched (d ∷ ds) = not d.is_current_frame_matched_or_new && all_unmatched ds

  -- What the two matches of the tracked objects leave: tracker, detections, those that the boxes
  -- did not match, and the outside state.
  pub record AfterMatch : Type 0 where
    pub tracker : Tracker P
    pub dets : List (PersonObject P)
    pub missed : List (PersonObject P)
    pub env : Env

  -- The matches of the tracked objects, by box and then by feature.
  unfoldable pub match_tracked : Tracker P → List (PersonObject P) → Env → Option AfterMatch
  match_tracked t dets env = do
    by_box ← iou_match P t body t.tracked dets
    w ← update_matched_objects P t by_box (record { objects = t.tracked; dets = dets; env = env })
    found ← feature_match P t w.objects body w.dets w.env
    w' ←
        update_matched_objects P t found.out
          (record { objects = w.objects; dets = found.dets; env = found.env })
    some (record {
      tracker = record t { tracked = w'.objects };
      dets = w'.dets;
      missed = select (wants_iou P) w.objects;
      env = w'.env;
    })

  -- What follows once the expired objects have been matched.
  unfoldable pub finish_frame :
      Tracker P
      → List (PersonObject P)
      → ℕ
      → List (PersonObject P)
      → Env
      → List (PersonObject P)
      → List (PersonObject P)
      → Updated P
  finish_frame t dets frame_id missed env expired_objects leaves =
      let (t', leaves') = update_unmatched_expired P t frame_id leaves in
      let (tracked, dets', gid) = add_unmatched P t'.tracked dets t'.global_id in
      record {
        tracker = record t' { tracked = accumulate_duration P t' tracked; global_id = gid };
        dets = dets';
        iou_not_matched = missed;
        expired_objects = expired_objects ++ t'.expired;
        valid_leave = leaves';
        env = env;
      }

  -- `none` where the assertion fails, or an access is out of range.
  unfoldable pub update :
      Tracker P
      → Env
      → P.Mat
      → List (PersonObject P)
      → ℕ
      → ℕ
      → List (PersonObject P)
      → List (PersonObject P)
      → List (PersonObject P)
      → Option (Updated P)
  update t env frame dets timestamp frame_id iou_not_matched expired_objects valid_leave =
      let t0 = begin_frame t frame timestamp frame_id in
      if all_unmatched dets
      then (do
        m ← match_tracked t0 dets env
        let t1 = update_unmatched_tracked P m.tracker frame_id
        found ← feature_match P t1 t1.expired body m.dets m.env
        (t2, dets', env') ← update_matched_expired P t1 found.out found.dets found.env
        some (
            finish_frame t2 dets' frame_id (iou_not_matched ++ m.missed) env' expired_objects
              valid_leave))
      else none

-- modules/interfaces/AlgoData.h, `BaseFrame`
pub record BaseFrame (P : Platform) : Type 0 where
  pub camera_time : ℕ
  pub cv_image : P.Mat
  pub frame_id : ℕ

-- `Update` on a frame with its own time and number.
unfoldable pub update_frame :
    (P : Platform)
    → Tracker P
    → Env
    → BaseFrame P
    → List (PersonObject P)
    → List (PersonObject P)
    → List (PersonObject P)
    → List (PersonObject P)
    → Option (Updated P)
update_frame P t env frame dets iou_not_matched expired_objects valid_leave =
    update P t env frame.cv_image dets frame.camera_time frame.frame_id iou_not_matched
      expired_objects valid_leave
