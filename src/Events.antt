-- ===== src/Events.antt =====
-- include/event/Event.h: the events, their types, and the objects that their handlers write.
pub mod Handlers
pub mod Crowd
use edge_frame.Prelude.{ℕ, Bool, String, List}
use edge_frame.Platform.{Platform}
use edge_frame.Metrics.{MetricAction}
use edge_frame.Monitor.{MonitorEvent}

-- A value of a JSON object, and an object as its members in the order of their assignments.
pub data Scalar (P : Platform) : Type 0 where
  text : String → Scalar P
  number : ℕ → Scalar P
  truth : Bool → Scalar P
  real : P.Float → Scalar P

pub data Value (P : Platform) : Type 0 where
  scalar : Scalar P → Value P
  rows : List (List (String × Scalar P)) → Value P

abbrev pub Json : Platform → Type 0
Json P = List (String × Value P)

pub record WorkerEvent : Type 0 where
  pub is_working : Bool
  pub camera_sn : String
  pub time_stamp : ℕ
  pub area_id : ℕ

pub record StallCustomerEvent : Type 0 where
  pub time_stamp : ℕ
  pub camera_sn : String
  pub residence_time : ℕ
  pub action : ℕ

pub record VehicleEvent : Type 0 where
  pub api_url : String
  pub track_type : String
  pub camera_sn : String
  pub time_stamp : ℕ
  pub park_num : ℕ
  pub park_id : ℕ
  pub trackid : ℕ

pub record LoggerEvent : Type 0 where
  pub camera_sn : String
  pub time_stamp : ℕ
  pub action : MetricAction

-- The classes of events; those without members here have a handler with an empty body.
pub data Event : Type 0 where
  worker : WorkerEvent → Event
  stall_customer : StallCustomerEvent → Event
  vehicle : VehicleEvent → Event
  logger : LoggerEvent → Event
  monitor_event : MonitorEvent → Event
  approach passby door front : Event

pub data EventType : Type 0 where
  default_event approach_event passby_event front_event face_register_event worker_area_event :
      EventType
  logger_type door_event disappear vehicle_type stall_customer_type monitor_type : EventType

-- The member `et`, as the constructors set it.
unfoldable pub et : Event → EventType
et (worker e) = worker_area_event
et (stall_customer e) = stall_customer_type
et (vehicle e) = vehicle_type
et (logger e) = logger_type
et (monitor_event e) = monitor_type
et approach = approach_event
et passby = passby_event
et door = door_event
et front = front_event

-- `Event::toString`
unfoldable pub type_string : EventType → String
type_string front_event = "face"
type_string face_register_event = "face"
type_string door_event = "door"
type_string passby_event = "body"
type_string logger_type = "monitor"
type_string approach_event = "approach"
type_string disappear = "disappear"
type_string _ = "default"
