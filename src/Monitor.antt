-- ===== src/Monitor.antt =====
-- src/processor/MonitorProcessor.cpp: the processor that tracks the people of a camera and reports
-- where they stand.
pub mod Reports
use edge_frame.Prelude.{
  ℕ, suc, ◌-◌, ◌/◌, ◌%◌, ◌^◌, Bool, true, false, not, ◌&&◌, String, List, [], ◌∷◌, ◌++◌,
}
use edge_frame.Prelude.{
  Option, none, some, if◌then◌else◌, nat_beq, ltb, length, map, select, ◌>>=◌, add_int,
}
use edge_frame.Platform.{Platform, Env}
use edge_frame.Track.Person.{PersonObject, Raw, Thresholds, Tracker}
use edge_frame.Track.Match.{is_confirmed, is_empty}
use edge_frame.Track.Detect.{Box, cvt_det_to_ped}
use edge_frame.Track.Update.{update}

-- include/event/Event.h, `MonitorEvent`
pub record MonitorEvent : Type 0 where
  pub camera_sn : String
  pub x_axis : List ℕ
  pub y_axis : List ℕ
  pub id : List ℕ
  pub camera_time : ℕ

-- `monitor_interval` is an `int` that is not negative.
pub record Monitor (P : Platform) : Type 0 where
  pub x : List ℕ
  pub y : List ℕ
  pub id : List ℕ
  pub tracker : Tracker P
  pub cur_interval_cnt : ℕ
  pub monitor_interval : ℕ
  pub env : Env

-- `WhaleData`, the members that are read here.
pub record WhaleData (P : Platform) : Type 0 where
  pub object_boxes : List (Box P)
  pub camera_sn : String
  pub camera_time : ℕ
  pub frame_id : ℕ
  pub mat : P.Mat

-- `w / 2` on `int`, which rounds towards zero.
unfoldable pub half_int : ℕ → ℕ
half_int w = if ltb w (2 ^ 31) then w / 2 else (2 ^ 32 - (2 ^ 32 - w) / 2) % 2 ^ 32

module _ (P : Platform) where
  unfoldable pub is_reported : PersonObject P → Bool
  is_reported p = is_confirmed p.object_status && p.is_current_body_detected

  -- The point on the ground below the middle of the body.
  unfoldable pub x_ground : PersonObject P → ℕ
  x_ground p =
      let (x, y, width, height) = P.to_int_rect p.last_updated_body_bbox.bbox_rect in
      add_int x (half_int width)

  unfoldable pub y_ground : PersonObject P → ℕ
  y_ground p =
      let (x, y, width, height) = P.to_int_rect p.last_updated_body_bbox.bbox_rect in
      add_int y height

  -- `monitor`: the state after it, and what it pushes.
  unfoldable pub monitor :
      String → ℕ → List (PersonObject P) → Monitor P → Monitor P × List MonitorEvent
  monitor camera_sn camera_time ped_tracked m =
      let seen = select is_reported ped_tracked in
      let x = m.x ++ map x_ground seen in
      let y = m.y ++ map y_ground seen in
      let id = m.id ++ map (λ p. p.id) seen in
      if ltb 0 (length x)
      then (
        record m { x = []; y = []; id = [] },
        record { camera_sn = camera_sn; x_axis = x; y_axis = y; id = id; camera_time = camera_time }
            ∷ [],
      )
      else (record m { x = x; y = y; id = id }, [])

  -- The part of `handle` after the tracker's step; `none` where `cur_interval_cnt_ %
  -- monitor_interval` divides by zero.
  unfoldable pub report_if_due : WhaleData P → Monitor P → Option (Monitor P × List MonitorEvent)
  report_if_due msg m =
      let cnt = add_int m.cur_interval_cnt 1 in
      let counted = record m { cur_interval_cnt = cnt } in
      let (reported, events) = monitor msg.camera_sn msg.camera_time m.tracker.tracked counted in
      if nat_beq m.monitor_interval 0
      then none
      else (if nat_beq (cnt % m.monitor_interval) 0
          then some (record reported { cur_interval_cnt = 0 }, events)
          else some (counted, []))

  -- `handle`, with the memory that its `PersonObject`s find; `none` where `Update` aborts, too.
  unfoldable pub handle :
      (ℕ → Raw P) → WhaleData P → Monitor P → Option (Monitor P × List MonitorEvent)
  handle raw msg m = do
    let ped_det = cvt_det_to_ped P raw 2 1 msg.camera_time msg.frame_id msg.object_boxes []
    u ← update P m.tracker m.env msg.mat ped_det msg.camera_time msg.frame_id [] [] []
    report_if_due msg (record m { tracker = u.tracker; env = u.env })

  -- `init`, on a tracker as its constructor makes it.
  unfoldable pub init : Tracker P → ℕ → Env → Monitor P
  init fresh monitor_interval env = record {
    x = [];
    y = [];
    id = [];
    tracker = record fresh {
      thresholds = record (fresh.thresholds) {
        bbox_area_extract_feature_thresh = P.d_one;
        iou_thresh = P.d_three_tenths;
        valid_leave_with_reid = false;
      };
    };
    cur_interval_cnt = 0;
    monitor_interval = monitor_interval;
    env = env;
  }
