-- ===== src/Events/Handlers.antt =====
-- src/event/Event.cpp and src/processor/DispatchProcessor.cpp: what the handlers of the events send,
-- and which of them run on a thread of their own. The JSON library, the HTTP client and the upload
-- of an image come from outside; the body of `uploadImage` is empty and returns nothing, so that its
-- answer is any.
use Prim.Native.String.{◌++◌ as ◌+++◌}
use edge_frame.Prelude.{
  ℕ, suc, Bool, true, false, ◌&&◌, String, List, [], ◌∷◌, ◌++◌, Option, none, some, ◌>>=◌,
  if◌then◌else◌, ltb, length, get_elem?, ◌==◌, string_eq,
}
use edge_frame.Platform.{Platform}
use edge_frame.Metrics.{
  Metrics, code, algo_model_monitor, algo_data_monitor, image_status_monitor, Counters,
  get_and_clear,
}
use edge_frame.Monitor.{MonitorEvent}
use edge_frame.Flow.{Flow, Outside, send_to_flow_server}
use edge_frame.Events.{
  Scalar, text, number, truth, real, Value, scalar, rows, Json, WorkerEvent, StallCustomerEvent,
  VehicleEvent, LoggerEvent, Event, worker, stall_customer, vehicle, logger, monitor_event,
  approach, passby, door, front, EventType, front_event, vehicle_type, et, type_string,
}

-- `Json::FastWriter().write`, `std::to_string`, the answers of `HttpPost`, and what `uploadImage`
-- answers and leaves as the image's address; `GetGlobalVariable()` and the configured addresses.
pub record Services (P : Platform) : Type 0 where
  pub write : Json P → String
  pub to_string : ℕ → String
  pub http_post : String → String → Bool
  pub upload : Bool × String
  pub shop_id : String
  pub group_name : String
  pub client_sn : String
  pub monitor_api : String
  pub flow : Outside

-- What the handlers change: the requests that were posted, the flow upload, and the metrics.
pub record World : Type 0 where
  pub posted : List (String × String)
  pub flow : Flow
  pub metrics : Metrics

module _ {P : Platform} (S : Services P) where
  abbrev string_of : String → Value P
  string_of s = scalar (text s)

  abbrev number_of : ℕ → Value P
  number_of n = scalar (number n)

  -- `FlowPub`, with the pack that `SendToFlowServer` makes.
  unfoldable pub flow_pub : ℕ → String → World → World
  flow_pub type event_str w =
      let kafka_pack = S.write (
        ("type", number_of type)
        ∷ ("data", string_of event_str)
        ∷ ("key", string_of S.client_sn)
        ∷ []) in
      record w { flow = send_to_flow_server S.flow kafka_pack w.flow }

  unfoldable pub worker_handler : WorkerEvent → World → World
  worker_handler e = flow_pub 8 (
      S.write (
        ("isWorking", scalar (truth e.is_working))
        ∷ ("device_sn", string_of e.camera_sn)
        ∷ ("timestamp", number_of e.time_stamp)
        ∷ ("area_id", number_of e.area_id)
        ∷ []))

  unfoldable pub stall_handler : StallCustomerEvent → World → World
  stall_handler e = flow_pub 9 (
      S.write (
        ("timestamp", string_of (S.to_string e.time_stamp))
        ∷ ("device_sn", string_of e.camera_sn)
        ∷ ("residence_time", string_of (S.to_string e.residence_time))
        ∷ ("action", number_of e.action)
        ∷ []))

  -- `HttpPost`
  unfoldable pub http_post : String → String → World → Bool × World
  http_post url payload w =
      (S.http_post url payload, record w { posted = w.posted ++ ((url, payload) ∷ []) })

  -- `VehicleEvent::send`
  unfoldable pub send_vehicle : VehicleEvent → String → World → Bool × World
  send_vehicle e image_url = http_post e.api_url (
      S.write (
        ("trackID", string_of (S.to_string e.trackid))
        ∷ ("trackType", string_of e.track_type)
        ∷ ("parkNum", number_of e.park_num)
        ∷ ("parkId", number_of e.park_id)
        ∷ ("cameraSn", string_of e.camera_sn)
        ∷ ("vehicleImg", string_of image_url)
        ∷ ("shop_id", string_of S.shop_id)
        ∷ ("group", string_of S.group_name)
        ∷ []))

  unfoldable pub vehicle_handler : VehicleEvent → World → World
  vehicle_handler e w = let sent = send_vehicle e S.upload.1 w in if S.upload.0 then sent.1 else w

  -- `VehicleEvent::reSend`, with what `uploadImageByBuff` answers in place of `uploadImage`.
  unfoldable pub resend_vehicle : VehicleEvent → World → Bool × World
  resend_vehicle e w =
      let sent = send_vehicle e S.upload.1 w in if S.upload.0 then sent else (false, w)

  -- The members that the loop over the metrics writes for the model's action, with the two counts
  -- turned into rates.
  unfoldable pub model_metrics : P.Float → Counters → Json P
  model_metrics rate [] = []
  model_metrics rate ((key, value) ∷ rest) =
      let scaled = scalar (real (P.f_mul (P.f_of_int value) rate)) in
      (if key == "cv_input_frame_count"
        then ("cv_input_frame_rate", scaled)
        else (if key == "cv_output_frame_count"
            then ("cv_output_frame_rate", scaled)
            else (key, number_of value)))
      ∷ model_metrics rate rest

  unfoldable pub all_metrics : Counters → Json P
  all_metrics [] = []
  all_metrics ((key, value) ∷ rest) = (key, number_of value) ∷ all_metrics rest

  -- `LoggerEvent::handler`: the `data` that it fills, `none` where it returns early, and the world.
  -- Nothing sends `data`.
  unfoldable pub logger_handler : P.Float → LoggerEvent → World → Option (Json P) × World
  unfolding model_metrics all_metrics
  logger_handler rate e w =
      let (metrics, left) = get_and_clear w.metrics e.action in
      let start : Json P =
        ("time", number_of e.time_stamp) ∷ ("action", number_of (code e.action)) ∷ [] in
      let end : Json P = ("camera_sn", string_of e.camera_sn) ∷ [] in
      let drained = record w { metrics = left } in
      elim e.action [
        | algo_model_monitor ↦ (some (start ++ (model_metrics rate metrics ++ end)), drained)
        | algo_data_monitor ↦ (some (start ++ (all_metrics metrics ++ end)), drained)
        | image_status_monitor ↦
            let image : Json P = ("cv_image_url", string_of S.upload.1) ∷ end in
            (if S.upload.0 then some (start ++ (all_metrics metrics ++ image)) else none, drained)
        | _ ↦ (some (start ++ end), drained)
      ]

  -- `LoggerEvent::reSend`: the answer with `data` where it is filled, and the world.
  unfoldable pub resend_logger : LoggerEvent → World → Option (Json P) × World
  unfolding all_metrics
  resend_logger e w =
      let (metrics, left) = get_and_clear w.metrics e.action in
      let start : Json P =
        ("time", number_of e.time_stamp) ∷ ("action", number_of (code e.action)) ∷ [] in
      let end : Json P =
        ("cv_image_url", string_of S.upload.1) ∷ ("camera_sn", string_of e.camera_sn) ∷ [] in
      (
        if S.upload.0 then some (start ++ (all_metrics metrics ++ end)) else none,
        record w { metrics = left },
      )

  -- The path in `VehicleEvent::getUploadImage`.
  unfoldable pub vehicle_oss_path : VehicleEvent → String
  unfolding type_string
  vehicle_oss_path e =
      S.client_sn
      +++ "/"
      +++ e.camera_sn
      +++ "/image/"
      +++ type_string vehicle_type
      +++ "/"
      +++ S.to_string e.time_stamp
      +++ "_"
      +++ S.to_string e.trackid
      +++ ".jpg"

  -- The loop of `MonitorEvent::handler` from the place `i` on; `none` is a read out of range.
  unfoldable pub crowd_from : MonitorEvent → ℕ → List ℕ → Option (List (List (String × Scalar P)))
  crowd_from e i [] = some []
  crowd_from e i (x ∷ xs) = do
    y ← get_elem? e.y_axis i
    id ← get_elem? e.id i
    rest ← crowd_from e (suc i) xs
    some ((("x", number x) ∷ ("y", number y) ∷ ("id", number id) ∷ []) ∷ rest)

  abbrev pub crowd_payload : MonitorEvent → List (List (String × Scalar P)) → String
  crowd_payload e crowd = S.write (
      ("shop_id", string_of S.shop_id)
      ∷ ("camera_sn", string_of e.camera_sn)
      ∷ ("timestamp", number_of e.camera_time)
      ∷ ("Crowd", rows crowd)
      ∷ [])

  unfoldable pub monitor_handler : MonitorEvent → World → Option World
  monitor_handler e w =
      let send = crowd_from e 0 e.x_axis >>= λ crowd.
      some (http_post S.monitor_api (crowd_payload e crowd) w).1 in
      if ltb 0 (length e.x_axis) && ltb 0 (length e.y_axis) && ltb 0 (length e.id)
      then send
      else some w

  -- `event->handler()`; `none` is a read out of range.
  unfoldable pub handler : P.Float → Event → World → Option World
  handler rate (worker e) w = some (worker_handler e w)
  handler rate (stall_customer e) w = some (stall_handler e w)
  handler rate (vehicle e) w = some (vehicle_handler e w)
  handler rate (logger e) w = some (logger_handler rate e w).1
  handler rate (monitor_event e) w = monitor_handler e w
  handler rate approach w = some w
  handler rate passby w = some w
  handler rate door w = some w
  handler rate front w = some w

  -- Whether `DispatchProcessor::dispatch` runs the handler on a thread of its own.
  unfoldable pub is_detached : EventType → Bool
  is_detached front_event = true
  is_detached vehicle_type = true
  is_detached _ = false

  -- `run` over the events that come next, as far as the dispatcher's own thread goes: the world, and
  -- the events that were given to other threads.
  unfoldable pub dispatch_run : P.Float → List Event → World → Option (World × List Event)
  dispatch_run rate [] w = some (w, [])
  dispatch_run rate (e ∷ es) w =
      let spawned : Option (World × List Event) =
        dispatch_run rate es w >>= λ r. some (r.0, e ∷ r.1) in
      let inline = handler rate e w >>= dispatch_run rate es in
      if is_detached (et e) then spawned else inline
