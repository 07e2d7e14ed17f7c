-- ===== src/Tests/Reports.antt =====
-- The metrics, the detections of a frame and the monitor at concrete values.
use edge_frame.Prelude.{ℕ, ◌+◌, ◌%◌, ◌^◌, ◌≡◌, ◌≢◌, refl, List, [], ◌∷◌, some, All}
use edge_frame.Prelude.{string_eq, arith, add_int}
use edge_frame.Metrics.{
  algo_model_monitor, algo_data_monitor, no_metrics, add_metric, set_metric, get_and_clear, counter,
}
use edge_frame.Metrics.Laws.{reading, metrics-readings}
use edge_frame.Metrics.Drains.{Call, adding, draining, calls, collected, raised, calls-collected}
use edge_frame.Demo.{demo, env, idle, zeros}
use edge_frame.Track.Detect.{
  Box, match_cur_detect_face_and_body, match_cur_detect_face_and_body_scored,
}
use edge_frame.Track.Detect.Bodies.{OneEach, match_cur_detect-OneEach}
use edge_frame.Track.Match.{in_image, fits_side}
use edge_frame.Track.Detect.Visible.{IsInside}
use edge_frame.Monitor.{Monitor, MonitorEvent, WhaleData, init, handle}
use edge_frame.Monitor.Reports.{IsMonitor, IsHandled, handle_total}
use edge_frame.Tests.Solver.{demo-SolverLaw}
use edge_frame.Tests.Matches.{demo-ReidLaw}

metrics-readings_example :
    (reading algo_model_monitor "cv_reid_count"
        (add_metric no_metrics algo_model_monitor "cv_reid_count" 5)
      ≡ add_int (reading algo_model_monitor "cv_reid_count" no_metrics) 5)
    × (reading algo_model_monitor "cv_reid_count"
          (set_metric no_metrics algo_model_monitor "cv_reid_count" 5)
        ≡ 5)
    × (counter "cv_reid_count" (get_and_clear no_metrics algo_model_monitor).0
        ≡ reading algo_model_monitor "cv_reid_count" no_metrics)
    × (reading algo_model_monitor "cv_reid_count" (get_and_clear no_metrics algo_model_monitor).1
        ≡ 0)
metrics-readings_example =
    metrics-readings no_metrics algo_model_monitor algo_model_monitor "cv_reid_count"
      "cv_reid_count" 5 refl (omega arith)

abbrev interleaved : List Call
interleaved =
    adding algo_model_monitor "cv_reid_count" 2
    ∷ draining algo_model_monitor
    ∷ adding algo_data_monitor "cv_reid_count" 9
    ∷ adding algo_model_monitor "cv_reid_count" 3
    ∷ []

calls-collected_example :
    (collected algo_model_monitor "cv_reid_count" interleaved no_metrics
        + reading algo_model_monitor "cv_reid_count" (calls interleaved no_metrics))
      % 2 ^ 32
    ≡ (raised algo_model_monitor "cv_reid_count" interleaved
        + reading algo_model_monitor "cv_reid_count" no_metrics)
      % 2 ^ 32
calls-collected_example =
    calls-collected algo_model_monitor "cv_reid_count" interleaved no_metrics refl
      (omega arith, (omega arith, (omega arith, (omega arith, tt))))

-- A face in the first of two bodies.
abbrev seen : List (Box demo)
seen =
    record { x0 = 10; y0 = 10; x1 = 40; y1 = 40; score = 90; class_idx = 2 }
    ∷ record { x0 = 0; y0 = 0; x1 = 100; y1 = 200; score = 80; class_idx = 1 }
    ∷ record { x0 = 500; y0 = 0; x1 = 600; y1 = 200; score = 70; class_idx = 1 }
    ∷ []

abbrev face_class : ℕ
face_class = 2

face_and_body_differ : face_class ≢ 1
face_and_body_differ e = omega arith

match_cur_detect-OneEach_example :
    OneEach demo
      (λ n. zeros)
      face_class
      1
      40
      1
      seen
      (match_cur_detect_face_and_body_scored demo (λ n. zeros) face_class 1 40 1 50 1 seen [])
    × OneEach demo
        (λ n. zeros)
        face_class
        1
        40
        1
        seen
        (match_cur_detect_face_and_body demo (λ n. zeros) face_class 1 40 1 1 seen [])
match_cur_detect-OneEach_example =
    match_cur_detect-OneEach demo (λ n. zeros) face_class 1 40 1 face_and_body_differ 50 1 seen

abbrev pub started : Monitor demo
unfolding init
started = init demo idle 15 env

abbrev pub message : WhaleData demo
message = record {
  object_boxes = seen;
  camera_sn = "door";
  camera_time = 40;
  frame_id = 1;
  mat = 10;
}

pub message-IsInside : All (IsInside demo message.mat 1) message.object_boxes
unfolding in_image fits_side
message-IsInside = (
  (λ e. absurd (ground (arith, e))),
  ((λ e. (refl, omega arith, omega arith)), ((λ e. (refl, omega arith, omega arith)), tt)),
)

pub started-IsMonitor : IsMonitor demo 1 started
unfolding init
started-IsMonitor = record {
  no_x = refl;
  no_y = refl;
  no_id = refl;
  below = omega arith;
  fits_int = omega arith;
  tracked_dim = tt;
  expired_dim = tt;
}

handle_total_example :
    (r : Monitor demo × List MonitorEvent) × (handle demo (λ n. zeros) message started ≡ some r)
    × IsHandled demo 1 started r
handle_total_example =
    handle_total demo 1 demo-SolverLaw demo-ReidLaw (λ n. zeros) message started message-IsInside
      started-IsMonitor
