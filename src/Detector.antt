-- ===== src/Detector.antt =====
-- src/processor/DetectorProcessor.cpp: the processor that finds the boxes of each frame and hands
-- them to the processors of the chosen features. The network behind `sdk::detect`, the emptiness of an
-- image and the greeting's clock come from outside. Drawing (`labelBox`) is left out but for its
-- decision when to hide the image.
pub mod Delivers
pub mod Label
use edge_frame.Prelude.{
  ℕ, suc, ◌+◌, ◌-◌, ◌^◌, Bool, true, false, not, ◌&&◌, ◌||◌, String, List, [], ◌∷◌, ◌++◌,
  if◌then◌else◌, ltb, leb, length, map, to_int, nat_beq,
}
use edge_frame.Platform.{Platform}
use edge_frame.Track.Detect.{Box}
use edge_frame.Metrics.{
  Metrics, MetricAction, algo_model_monitor, image_status_monitor, add_metric, set_metric,
}
use edge_frame.Monitor.{WhaleData}
use edge_frame.Events.{LoggerEvent}

-- A `WhaleFrame`, the members that are read here.
pub record WhaleFrame (P : Platform) : Type 0 where
  pub image : P.Mat
  pub camera_time : ℕ
  pub camera_sn : String
  pub frame_id : ℕ

-- `cvImage.empty()` and `whale::core::sdk::detect`.
pub record Network (P : Platform) : Type 0 where
  pub is_empty : P.Mat → Bool
  pub detect : P.Mat → List (Box P)

-- The members, what has been pushed to each of `next_processor_unit_` and to the dispatcher, the
-- metric table and how often the clock was read. Times are below 2 ^ 63 - 600000, and the interval is
-- not negative, as `init` makes it.
pub record Detector (P : Platform) : Type 0 where
  pub last_image_monitor_time : ℕ
  pub last_model_metric_monitor_time : ℕ
  pub image_monitor_interval : ℕ
  pub next_processor_unit : List (String × List (WhaleData P))
  pub output : List LoggerEvent
  pub metrics : Metrics
  pub reads : ℕ

abbrev pub model_metric_interval : ℕ
model_metric_interval = 600000

module _ {P : Platform} (N : Network P) where
  -- The `set` calls at the start of `run`.
  unfoldable pub start_run : Detector P → Detector P
  start_run d =
      let m1 = set_metric d.metrics algo_model_monitor "cv_output_frame_count" 0 in
      let m2 = set_metric m1 algo_model_monitor "cv_detect_count" 0 in
      record d { metrics = set_metric m2 algo_model_monitor "cv_detect_cost" 0 }

  -- The part on the image monitor: `diff > interval || diff < 0`.
  unfoldable pub monitor_image : WhaleFrame P → Detector P → Detector P
  monitor_image f d =
      if ltb (d.last_image_monitor_time + d.image_monitor_interval) f.camera_time
        || ltb f.camera_time d.last_image_monitor_time
      then record d {
        last_image_monitor_time = f.camera_time;
        output =
            d.output
            ++ (record {
              camera_sn = f.camera_sn;
              time_stamp = f.camera_time;
              action = image_status_monitor;
            }
                ∷ []);
      }
      else d

  -- The part on the model's metrics.
  unfoldable pub monitor_model : WhaleFrame P → Detector P → Detector P
  monitor_model f d =
      if ltb (d.last_model_metric_monitor_time + model_metric_interval) f.camera_time
      then record d {
        last_model_metric_monitor_time = f.camera_time;
        output =
            d.output
            ++ (record {
              camera_sn = f.camera_sn;
              time_stamp = f.camera_time;
              action = algo_model_monitor;
            }
                ∷ []);
      }
      else d

  -- `WhaleData(object_boxes, frame)`
  unfoldable pub whale_data : WhaleFrame P → WhaleData P
  whale_data f = record {
    object_boxes = N.detect f.image;
    camera_sn = f.camera_sn;
    camera_time = f.camera_time;
    frame_id = f.frame_id;
    mat = f.image;
  }

  -- `for (auto& kv : next_processor_unit_) kv.second->Push(data);`
  unfoldable pub push_all :
      WhaleData P → List (String × List (WhaleData P)) → List (String × List (WhaleData P))
  push_all x [] = []
  push_all x ((name, pushed) ∷ rest) = (name, pushed ++ (x ∷ [])) ∷ push_all x rest

  -- The loop's body for the frame that it popped, without the stream to the web socket.
  unfoldable pub detect_frame : WhaleFrame P → Detector P → Detector P
  unfolding whale_data
  detect_frame f d =
      let popped = record d {
        metrics = add_metric d.metrics algo_model_monitor "cv_output_frame_count" 1;
      } in
      let duration = to_int (P.clock (suc d.reads) + 2 ^ 64 - P.clock d.reads) in
      let counted = add_metric popped.metrics algo_model_monitor "cv_detect_count" 1 in
      let detected = record popped {
        reads = suc (suc d.reads);
        metrics = add_metric counted algo_model_monitor "cv_detect_cost" duration;
      } in
      let reported = monitor_model f (monitor_image f detected) in
      if N.is_empty f.image then popped else record reported {
        next_processor_unit = push_all (whale_data f) reported.next_processor_unit;
      }

  -- `run` over the frames that come next.
  unfoldable pub detect_frames : List (WhaleFrame P) → Detector P → Detector P
  detect_frames [] d = d
  detect_frames (f ∷ fs) d = detect_frames fs (detect_frame f d)

-- `GetTimeGreetings`, on the hour.
unfoldable pub get_time_greetings : ℕ → String
get_time_greetings hour =
    if leb 5 hour && ltb hour 12
    then "Good morning"
    else (if leb 12 hour && ltb hour 18
        then "Good afternoon"
        else (if leb 18 hour && ltb hour 21 then "Good evening" else "Good night"))
