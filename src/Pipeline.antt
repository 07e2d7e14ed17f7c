-- ===== src/Pipeline.antt =====
-- src/SolutionPipeline.cpp and include/processor/DynamicFactory.h, with the feature map of
-- src/util.cpp and the start in src/app/ServiceDaemon.cpp: how the processors are made, registered
-- with their queues, and connected. `none` is a fatal error, an access out of range, or a wait for a
-- mutex that is held. Of the `init`s this has what they do with queues.
pub mod Start
pub mod Features
pub mod Load
pub mod Inputs
pub mod Wiring
use Prim.Native.String.{find, len, ◌++◌ as ◌+++◌}
use edge_frame.Prelude.{
  ℕ, zero, suc, Bool, true, false, String, List, [], ◌∷◌, ◌++◌, Option, none, some, ◌>>=◌,
  if◌then◌else◌, ltb, ◌==◌, string_eq, lookup, insert,
}
use edge_frame.Objects.{Manager, is_some, safe_get, safe_add}

-- The classes that a factory makes.
pub data Kind : Type 0 where
  monitor_processor detector_processor dispatch_processor flow_rpc_processor : Kind
  rtsp_loader usb_loader local_video_loader : Kind

-- `create_func_map_`
abbrev pub Factory : Type 0
Factory = List (String × Kind)

-- `Regist`, with no function for `nullptr`.
unfoldable pub regist : String → Option Kind → Factory → Bool × Factory
regist name none f = (false, f)
regist name (some kind) f =
    if is_some (lookup name f) then (false, f) else (true, insert name kind f)

unfoldable pub create : String → Factory → Option Kind
create name f = lookup name f

-- The classes that register with one factory, in some order.
abbrev pub register_all : List (String × Kind) → Factory
register_all [] = []
register_all ((name, kind) ∷ rest) = (regist name (some kind) (register_all rest)).1

-- `whale_processor_...`
abbrev pub monitor_name : String
monitor_name = "MonitorProcessor"

abbrev pub detect_name : String
detect_name = "DetectorProcessor"

abbrev pub dispatch_name : String
dispatch_name = "DispatchProcessor"

abbrev pub flow_rpc_name : String
flow_rpc_name = "FlowRpcAsynProcessor"

abbrev pub rtsp_name : String
rtsp_name = "RtspLoaderProcessor"

abbrev pub usb_camera_name : String
usb_camera_name = "UsbDeviceLoaderProcessor"

abbrev pub hisi_camera_name : String
hisi_camera_name = "HisiCameraProcessor"

abbrev pub local_video_name : String
local_video_name = "LocalVideoLoaderProcessor"

-- `ProcessorFactory<>` and `ProcessorFactory<std::string&>`
unfoldable pub processors : Factory
unfolding regist
processors = register_all (
    ("whale::vision::MonitorProcessor", monitor_processor)
    ∷ ("whale::vision::DetectorProcessor", detector_processor)
    ∷ ("whale::vision::DispatchProcessor", dispatch_processor)
    ∷ ("whale::vision::FlowRpcAsynProcessor", flow_rpc_processor)
    ∷ [])

unfoldable pub loaders : Factory
unfolding regist
loaders = register_all (
    ("whale::vision::RtspLoaderProcessor", rtsp_loader)
    ∷ ("whale::vision::UsbDeviceLoaderProcessor", usb_loader)
    ∷ ("whale::vision::LocalVideoLoaderProcessor", local_video_loader)
    ∷ [])

abbrev pub feature_map : List (String × List String)
feature_map = ("monitor", monitor_name ∷ []) ∷ []

abbrev or_empty : Option (List String) → List String
or_empty none = []
or_empty (some chain) = chain

-- `feature_map[name]`
unfoldable pub feature_chain : String → List String
feature_chain name = or_empty (lookup name feature_map)

-- `chain[0]`
abbrev first_of : List String → Option String
first_of [] = none
first_of (name ∷ rest) = some name

-- A shared pointer to a queue: its number, `none` for null.
abbrev pub QueuePtr : Type 0
QueuePtr = Option ℕ

pub record Processor : Type 0 where
  pub kind : Kind
  pub processor_name : String
  pub next_processor_name : String
  pub input_queue : QueuePtr
  pub output_queue : QueuePtr
  pub next_processor_unit : List (String × QueuePtr)

-- The registry, how many queues were made, and the executors.
pub record Service : Type 0 where
  pub queues : Manager QueuePtr
  pub made : ℕ
  pub executors : List Processor
  pub global_executors : List (String × Processor)
  pub core_executors : List (String × Processor)
  pub video_input_executors : List (String × Processor)

unfoldable pub build_processor : Factory → String → String → Service → Option (Processor × Service)
unfolding create
build_processor f name next s = do
  kind ← create ("whale::vision::" +++ name) f
  added ← safe_add name (some s.made) s.queues
  some (
    record {
      kind = kind;
      processor_name = name;
      next_processor_name = next;
      input_queue = none;
      output_queue = none;
      next_processor_unit = [];
    },
    record s { queues = added.1; made = suc s.made },
  )

-- `QueueManager::SafeGet(name, queue)` on a null pointer; it leaves the registry as it is.
unfoldable pub queue_of : String → Service → Option QueuePtr
queue_of name s = do got ← safe_get name none s.queues; some got.0.1

-- The loop of `DetectorProcessor::init` over the features.
unfoldable pub units_of :
    List String → Service → List (String × QueuePtr) → Option (List (String × QueuePtr))
units_of [] s units = some units
units_of (feature ∷ rest) s units = do
  base_processor ← first_of (feature_chain feature)
  q ← queue_of base_processor s
  units_of rest s (insert base_processor q units)

-- What `ptr->init()` does with the queues, given the configured features; what more the loader of local
-- videos does is `init_loader` of Pipeline/Start.
unfoldable pub init_processor : List String → Processor → Service → Option Processor
init_processor features p s = elim p.kind [
  | monitor_processor ↦ do
    input ← queue_of p.processor_name s
    output ← queue_of dispatch_name s
    some (record p { input_queue = input; output_queue = output })
  | detector_processor ↦ do
    input ← queue_of p.processor_name s
    output ← queue_of dispatch_name s
    units ← units_of features s p.next_processor_unit
    some (record p { input_queue = input; output_queue = output; next_processor_unit = units })
  | dispatch_processor ↦ do
    input ← queue_of p.processor_name s
    some (record p { input_queue = input })
  | flow_rpc_processor ↦ some p
  | _ ↦ do output ← queue_of detect_name s; some (record p { output_queue = output })
]

-- `next` in `Build`.
abbrev next_of : List String → String
next_of [] = dispatch_name
next_of (name ∷ rest) = name

-- The loop of `Build`.
unfoldable pub build_chain : List String → List String → Service → Option Service
build_chain features [] s = some s
build_chain features (name ∷ rest) s = do
  (p, built) ← build_processor processors name (next_of rest) s
  ready ← init_processor features p built
  build_chain features rest (record built { executors = built.executors ++ (ready ∷ []) })

-- `BuildAndStartGlobal` over the names.
unfoldable pub build_global : List String → List String → Service → Option Service
build_global features [] s = some s
build_global features (name ∷ rest) s = do
  (p, built) ← build_processor processors name "" s
  ready ← init_processor features p built
  build_global features rest
      (record built { global_executors = insert name ready built.global_executors })

-- `BuildAndStartCoreGlobal`, whose only name is the detector's.
unfoldable pub build_core : List String → Service → Option Service
build_core features s = do
  (p, built) ← build_processor processors detect_name "" s
  ready ← init_processor features p built
  some (record built { core_executors = insert detect_name ready built.core_executors })
