-- ===== src/Tests/Clock.antt =====
-- Retirement and dwell time at concrete frames.
use edge_frame.Prelude.{ℕ, ◌≡◌, ◌≢◌, refl, true, arith}
use edge_frame.Demo.{demo, idle, zeros, walker, box}
use edge_frame.Track.Person.{Raw, PersonObject, Tracker, confirmed}
use edge_frame.Track.Sweep.{keep, move}
use edge_frame.Track.Retire.{tracked_verdict, expired_verdict, accumulate}
use edge_frame.Track.Clock.{
  restart_retires, faceless, unset_face_decides, IsTimed, accumulate-IsTimed,
}

-- A confirmed object last seen in frame `n`, with face and body.
abbrev known : ℕ → PersonObject demo
unfolding walker
known n = record (walker n 0) { object_status = confirmed; last_updated_face_bbox = box n 0 }

restart_retires_example :
    (tracked_verdict demo idle 1 (known 5) ≡ move) × (expired_verdict demo idle 1 (known 5) ≢ keep)
unfolding walker
restart_retires_example =
    restart_retires demo idle 1 (known 5) (omega arith) (omega arith) (omega arith) (omega arith)
      (omega arith) (omega arith) refl refl

-- Memory that happens to hold the number of frame 50.
abbrev fifty : Raw demo
fifty = record zeros { last_face = box 50 0 }

unset_face_decides_example :
    (tracked_verdict demo idle 50 (faceless demo fifty (box 5 0) 1) ≡ keep)
    × (tracked_verdict demo idle 50 (faceless demo zeros (box 5 0) 1) ≡ move)
unset_face_decides_example =
    unset_face_decides demo idle 50 (box 5 0) 1 fifty zeros (omega arith) (omega arith) refl refl

abbrev later : Tracker demo
later = record idle { cur_process_frame_id = 2; cur_process_frame_timestamp = 80 }

abbrev dweller : PersonObject demo
unfolding walker
dweller = record (known 2) {
  is_current_frame_matched_or_new = true;
  is_previous_frame_body_bbox_area_bigger_than_thresh = true;
  previous_body_bbox_area_bigger_than_thresh_timestamp = 40;
  previous_body_bbox_area_bigger_than_thresh_frame_id = 1;
  duration = 30;
}

dweller-IsTimed : IsTimed demo 10 40 dweller
unfolding walker
dweller-IsTimed = record {
  before = omega arith;
  not_yet = λ e. cc;
  within = λ e. (omega arith, omega arith);
}

accumulate-IsTimed_example : IsTimed demo 10 80 (accumulate demo later dweller)
accumulate-IsTimed_example =
    accumulate-IsTimed demo later 10 40 dweller (omega arith) (omega arith) dweller-IsTimed
