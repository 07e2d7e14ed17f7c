-- ===== src/Loader/Usb.antt =====
-- `reopenCamera` and `run` of src/processor/UsbDeviceLoaderProcessor.cpp. What the camera gives, the
-- entries of /dev and the clock come from outside, as a list of what happens next.
pub mod Reopen
pub mod Frames
use edge_frame.Prelude.{
  ℕ, zero, suc, ◌+◌, Bool, true, false, not, String, List, [], ◌∷◌, ◌++◌, Option, none, some, ◌>>=◌,
  if◌then◌else◌, ltb, map,
}
use edge_frame.Metrics.{Metrics, algo_model_monitor, add_metric}
use edge_frame.Loader.Camera.{Device, Resolution, find_camera, select_resolution}

-- `UsbDeviceLoaderProcessor`, with the two entries of the configuration that it sets. `frame_id` is
-- an `int64_t` that does not come near its bound.
pub record Usb : Type 0 where
  pub is_ready : Bool
  pub suppered_resolution_vec : List Resolution
  pub frame_id : ℕ
  pub width : ℕ
  pub height : ℕ
  pub video_width : ℕ
  pub video_height : ℕ

-- One round of `reopenCamera`: the entries of /dev, the devices behind them, whether the capture
-- opens, and the first frame's columns and rows.
pub record Attempt : Type 0 where
  pub names : List (List ℕ)
  pub devices : ℕ → Device
  pub opens : Bool
  pub first_frame : Option (ℕ × ℕ)

pub data Reopened : Type 0 where
  -- The loop is in its next round.
  waiting : Usb → Reopened
  -- A read out of range.
  aborted : Reopened
  ready : Usb → Reopened

-- The part of a round after the capture is opened.
unfoldable pub read_first : Option (ℕ × ℕ) → Usb → Reopened
read_first none u = waiting u
read_first (some (cols, rows)) u =
    ready (record u { video_width = cols; video_height = rows; frame_id = 0 })

-- The part after `selectResolution`.
unfoldable pub open_with : Attempt → Usb → Option Resolution → Reopened
unfolding read_first
open_with a u none = aborted
open_with a u (some (w, h)) =
    let sized = record u { width = w; height = h } in
    if not a.opens then waiting sized else read_first a.first_frame sized

-- The part after `findCamera`.
unfoldable pub with_camera : Attempt → Usb → Option ℕ → Reopened
unfolding open_with
with_camera a u none = waiting u
with_camera a u (some cam_id) = open_with a u (select_resolution u.suppered_resolution_vec)

unfoldable pub reopen_round : Attempt → Usb → Reopened
unfolding with_camera
reopen_round a u =
    let searched = find_camera a.devices a.names u.suppered_resolution_vec in
    with_camera a (record u { is_ready = false; suppered_resolution_vec = searched.1 }) searched.0

-- What comes after a round: the next one, unless this was the last.
abbrev pub and_then : Reopened → (Usb → Reopened) → Reopened
and_then (waiting u) more = more u
and_then aborted more = aborted
and_then (ready u) more = ready u

-- `reopenCamera` over the rounds that come next.
unfoldable pub reopen_camera : List Attempt → Usb → Reopened
reopen_camera [] u = waiting u
reopen_camera (a ∷ later) u = and_then (reopen_round a u) (reopen_camera later)

-- A `WhaleFrame`, the members that are set here.
pub record Frame : Type 0 where
  pub camera_time : ℕ
  pub camera_sn : String
  pub frame_id : ℕ

-- The loader with the locals of `run`, the metric table, and what it has pushed and sent.
pub record Loading : Type 0 where
  pub usb : Usb
  pub last_heartbeat_time : ℕ
  pub metrics : Metrics
  pub pushed : List Frame
  pub heartbeats : List ℕ

abbrev pub heartbeat_interval : ℕ
heartbeat_interval = 30000

-- The loop's body after a frame is read: times are below 2 ^ 63 - 30000.
unfoldable pub take_frame : String → ℕ → Loading → Loading
take_frame camera_sn camera_time l =
    let id = l.usb.frame_id + 1 in
    let frame : Frame = record {
      camera_time = camera_time;
      camera_sn = camera_sn;
      frame_id = id;
    } in
    let due = ltb (l.last_heartbeat_time + heartbeat_interval) camera_time in
    record {
      usb = record (l.usb) { frame_id = id; is_ready = true };
      last_heartbeat_time = if due then camera_time else l.last_heartbeat_time;
      metrics = add_metric l.metrics algo_model_monitor "cv_input_frame_count" 1;
      pushed = l.pushed ++ (frame ∷ []);
      heartbeats = if due then l.heartbeats ++ (camera_time ∷ []) else l.heartbeats;
    }

-- A read: a frame at a time, or no frame and the rounds of `reopenCamera`.
pub data Read : Type 0 where
  frame_at : ℕ → Read
  lost : List Attempt → Read

-- What comes after `reopenCamera`.
abbrev pub resume : Reopened → (Usb → Option Loading) → Option Loading
resume (waiting u) more = none
resume aborted more = none
resume (ready u) more = more u

-- `run` over the reads that come next; `none` where it waits in `reopenCamera` or aborts.
unfoldable pub usb_run : String → List Read → Loading → Option Loading
usb_run camera_sn [] l = some l
usb_run camera_sn (frame_at t ∷ rest) l = usb_run camera_sn rest (take_frame camera_sn t l)
usb_run camera_sn (lost rounds ∷ rest) l =
    resume (reopen_camera rounds l.usb) (λ u. usb_run camera_sn rest (record l { usb = u }))
