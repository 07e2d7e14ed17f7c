-- ===== src/Track/Clock.antt =====
-- Frame numbers and timestamps of modules/track/src/tracker.cpp: the unsigned differences of
-- `UpdateUnMatched...` when frame numbers start again or a box is unset, and of `AccumulateDuration`.
use edge_frame.Prelude.{ℕ, ◌+◌, ◌^◌, ◌≤◌, ◌<◌, ◌≡◌, ◌≢◌, refl, Bool, true, false, none, some, arith}
use edge_frame.Prelude.{
  if◌then◌else◌, if_cases, sub_u64, sub_u64-eq-sub, sub_u64_wraps, add_u64, add_u64-eq, ◌&&◌,
}
use edge_frame.Platform.{Platform}
use edge_frame.Track.Person.{BBoxMessage, Raw, PersonObject, Tracker, person_object, confirmed}
use edge_frame.Track.Sweep.{keep, move}
use edge_frame.Track.Retire.{
  unseen_for, tracked_verdict, expired_verdict, is_resident, was_resident, accumulate,
}

module _ (P : Platform) where
  abbrev face_frame : PersonObject P → ℕ
  face_frame p = p.last_updated_face_bbox.update_frame_id

  abbrev body_frame : PersonObject P → ℕ
  body_frame p = p.last_updated_body_bbox.update_frame_id

  -- A clock that starts again: a confirmed object that is not matched, and whose face box and body box
  -- were both last updated at frame numbers above the present one and below 2 ^ 63, is at once lost and
  -- due for deletion, for any thresholds that an `int` can hold.
  pub restart_retires :
      (t : Tracker P) (frame_id : ℕ) (p : PersonObject P)
      → frame_id < face_frame p
      → frame_id < body_frame p
      → face_frame p < 2 ^ 63
      → body_frame p < 2 ^ 63
      → t.thresholds.lost_track_thresh < 2 ^ 31
      → t.thresholds.expired_to_delete_thresh < 2 ^ 31
      → p.is_current_frame_matched_or_new ≡ false
      → p.object_status ≡ confirmed
      → (tracked_verdict P t frame_id p ≡ move) × (expired_verdict P t frame_id p ≢ keep)
  unfolding tracked_verdict expired_verdict unseen_for
  restart_retires t frame_id p hf hb kf kb l d m c = ground (
    arith,
    sub_u64_wraps frame_id (face_frame p) hf (omega arith),
    sub_u64_wraps frame_id (body_frame p) hb (omega arith),
  )

  -- An object of a body alone, confirmed since: the constructor does not set its face box.
  abbrev pub faceless : Raw P → BBoxMessage P → ℕ → PersonObject P
  unfolding person_object
  faceless raw b id = record (person_object P raw none (some b) id) { object_status = confirmed }

  -- Whether such an object is retired once its body is lost depends on what the memory held where
  -- its face box was left unset: it stays if that happens to read as the present frame, and goes
  -- if it reads as zero.
  pub unset_face_decides :
      (t : Tracker P) (frame_id : ℕ) (b : BBoxMessage P) (id : ℕ) (raw raw' : Raw P)
      → frame_id < 2 ^ 64
      → b.update_frame_id + t.thresholds.lost_track_thresh < frame_id
      → raw.last_face.update_frame_id ≡ frame_id
      → raw'.last_face.update_frame_id ≡ 0
      → (tracked_verdict P t frame_id (faceless raw b id) ≡ keep)
        × (tracked_verdict P t frame_id (faceless raw' b id) ≡ move)
  unfolding tracked_verdict unseen_for person_object
  unset_face_decides t frame_id b id raw raw' h hb e e' = ground (
    arith,
    sub_u64-eq-sub frame_id b.update_frame_id (omega arith) h,
    sub_u64-eq-sub frame_id raw.last_face.update_frame_id (omega arith) h,
    sub_u64-eq-sub frame_id raw'.last_face.update_frame_id (omega arith) h,
  )

  -- The dwell time at the moment `now`: none yet, or no longer than the time since `start`, the
  -- moment when the object was first big enough.
  pub record IsTimed (start now : ℕ) (p : PersonObject P) : Type 0 where
    pub before : start ≤ now
    pub not_yet : p.is_previous_frame_body_bbox_area_bigger_than_thresh ≡ false → p.duration ≡ 0
    pub within :
        p.is_previous_frame_body_bbox_area_bigger_than_thresh ≡ true
        → (p.previous_body_bbox_area_bigger_than_thresh_timestamp ≤ now)
          × (p.duration + start ≤ p.previous_body_bbox_area_bigger_than_thresh_timestamp)

  -- `AccumulateDuration` keeps the dwell time of an object within the time since `start`, under
  -- timestamps that do not run back.
  pub accumulate-IsTimed :
      (t : Tracker P) (start now : ℕ) (p : PersonObject P)
      → now ≤ t.cur_process_frame_timestamp
      → t.cur_process_frame_timestamp < 2 ^ 64
      → IsTimed start now p
      → IsTimed start t.cur_process_frame_timestamp (accumulate P t p)
  unfolding accumulate was_resident
  accumulate-IsTimed t start now p h k i =
      if_cases (IsTimed start t.cur_process_frame_timestamp) (is_resident P t p)
        (λ _. record {
          before = omega (arith, i.before);
          not_yet = λ e. cc;
          within = λ _. (
            omega arith,
            grown p.duration p.is_previous_frame_body_bbox_area_bigger_than_thresh _ i.not_yet
                i.within,
          );
        })
        λ _. record {
          before = omega (arith, i.before);
          not_yet = i.not_yet;
          within = λ e. (omega (arith, i.within e), (i.within e).1);
        }
    where
      grown :
          (d : ℕ) (flag near : Bool)
          → (flag ≡ false → d ≡ 0)
          → (flag ≡ true
              → (p.previous_body_bbox_area_bigger_than_thresh_timestamp ≤ now)
                × (d + start ≤ p.previous_body_bbox_area_bigger_than_thresh_timestamp))
          → (if flag && near
                then add_u64 d (
                    sub_u64 t.cur_process_frame_timestamp
                      p.previous_body_bbox_area_bigger_than_thresh_timestamp)
                else d)
              + start
            ≤ t.cur_process_frame_timestamp
      grown d false near f g = omega (arith, f refl, i.before)
      grown d true false f g = omega (arith, g refl)
      grown d true true f g = omega (
        arith,
        g refl,
        sub_u64-eq-sub t.cur_process_frame_timestamp
            p.previous_body_bbox_area_bigger_than_thresh_timestamp (omega (arith, g refl)) k,
        add_u64-eq d
            (sub_u64 t.cur_process_frame_timestamp
              p.previous_body_bbox_area_bigger_than_thresh_timestamp)
            (omega (
              arith,
              g refl,
              sub_u64-eq-sub t.cur_process_frame_timestamp
                  p.previous_body_bbox_area_bigger_than_thresh_timestamp (omega (arith, g refl)) k,
            )),
      )
