-- ===== src/Tests/Pipeline.antt =====
-- The detector, the dispatcher's handlers and the rotation at concrete values.
use edge_frame.Prelude.{
  ℕ, suc, ◌+◌, ◌-◌, ◌%◌, ◌^◌, ◌≡◌, refl, true, List, [], ◌∷◌, ◌++◌, some, arith,
}
use edge_frame.Prelude.{length, map, nat_beq, lookup, ◌<◌}
use edge_frame.Metrics.{no_metrics, counter, slot}
use edge_frame.Demo.{demo, zeros}
use edge_frame.Monitor.{Monitor, MonitorEvent, handle}
use edge_frame.Monitor.Reports.{IsMonitor}
use edge_frame.Events.{monitor_event}
use edge_frame.Events.Handlers.{Services, World, dispatch_run}
use edge_frame.Events.Crowd.{request, handle-posted}
use edge_frame.Detector.{WhaleFrame, Network, Detector, detect_frames}
use edge_frame.Detector.Delivers.{found, extend, frame_count, detect_count, detect_frames-delivers}
use edge_frame.Loader.Rotate.{OpenCv, OpenCvLaw, Looks, rotate_image, rotate_image-undone}
use edge_frame.Tests.Solver.{demo-SolverLaw}
use edge_frame.Tests.Matches.{demo-ReidLaw}
use edge_frame.Tests.Reports.{message, message-IsInside, started, started-IsMonitor}
use edge_frame.Tests.Uploads.{up, backlog}

abbrev services : Services demo
services = record {
  write = λ object. "{}";
  to_string = λ n. "1";
  http_post = λ url payload. true;
  upload = (true, "image");
  shop_id = "shop";
  group_name = "group";
  client_sn = "client";
  monitor_api = "http://crowd";
  flow = up;
}

abbrev quiet : World
quiet = record { posted = []; flow = backlog; metrics = no_metrics }

handle-posted_example :
    (r : Monitor demo × List MonitorEvent) × (handle demo (λ n. zeros) message started ≡ some r)
    × IsMonitor demo 1 r.0
    × (dispatch_run services 0 (map monitor_event r.1) quiet
        ≡ some (record quiet { posted = [] ++ map (request services) r.1 }, []))
handle-posted_example =
    handle-posted services 1 demo-SolverLaw demo-ReidLaw (λ n. zeros) message started 0 quiet
      message-IsInside started-IsMonitor

-- The image 0 is empty.
abbrev network : Network demo
network = record { is_empty = λ image. nat_beq image 0; detect = λ image. message.object_boxes }

abbrev shot : ℕ → ℕ → WhaleFrame demo
shot image frame_id = record {
  image = image;
  camera_time = 700000;
  camera_sn = "door";
  frame_id = frame_id;
}

abbrev shots : List (WhaleFrame demo)
shots = shot 2 1 ∷ shot 0 2 ∷ shot 4 3 ∷ []

abbrev detector : Detector demo
detector = record {
  last_image_monitor_time = 0;
  last_model_metric_monitor_time = 0;
  image_monitor_interval = 60000;
  next_processor_unit = ("monitor", []) ∷ ("count", []) ∷ [];
  output = [];
  metrics = no_metrics;
  reads = 0;
}

no_frames : frame_count no_metrics < 2 ^ 32
unfolding counter lookup slot
no_frames = omega arith

no_detections : detect_count no_metrics < 2 ^ 32
unfolding counter lookup slot
no_detections = omega arith

detect_frames-delivers_example :
    ((detect_frames network shots detector).next_processor_unit
      ≡ extend network (found network shots) detector.next_processor_unit)
    × (frame_count (detect_frames network shots detector).metrics
        ≡ (frame_count detector.metrics + length shots) % 2 ^ 32)
    × (detect_count (detect_frames network shots detector).metrics
        ≡ (detect_count detector.metrics + length (found network shots)) % 2 ^ 32)
detect_frames-delivers_example =
    detect_frames-delivers network shots detector refl no_frames no_detections

-- An image as its size and its pixels.
record Picture : Type 0 where
  height : ℕ
  width : ℕ
  pixel : ℕ → ℕ → ℕ

abbrev pictures : OpenCv
pictures = record {
  Image = Picture;
  Pixel = ℕ;
  rows = λ m. m.height;
  cols = λ m. m.width;
  at = λ m. m.pixel;
  transpose = λ m. record { height = m.width; width = m.height; pixel = λ i j. m.pixel j i };
  flip_rows = λ m. record m { pixel = λ i j. m.pixel (m.height - suc i) j };
  flip_cols = λ m. record m { pixel = λ i j. m.pixel i (m.width - suc j) };
  flip_both = λ m. record m { pixel = λ i j. m.pixel (m.height - suc i) (m.width - suc j) };
}

pictures-OpenCvLaw : OpenCvLaw pictures
pictures-OpenCvLaw = record {
  transpose_size = λ m. (refl, refl);
  transpose_at = λ m i j hi hj. refl;
  flip_rows_size = λ m. (refl, refl);
  flip_rows_at = λ m i j hi hj. refl;
  flip_cols_size = λ m. (refl, refl);
  flip_cols_at = λ m i j hi hj. refl;
  flip_both_size = λ m. (refl, refl);
  flip_both_at = λ m i j hi hj. refl;
}

abbrev picture : Picture
picture = record { height = 540; width = 960; pixel = λ i j. i + 2 + j }

rotate_image-undone_example :
    Looks pictures (rotate_image pictures 270 (rotate_image pictures 90 picture)) picture
    × Looks pictures (rotate_image pictures 90 (rotate_image pictures 270 picture)) picture
    × Looks pictures
        (rotate_image pictures 90 (rotate_image pictures 90 picture))
        (rotate_image pictures 180 picture)
rotate_image-undone_example = rotate_image-undone pictures pictures-OpenCvLaw picture
