-- ===== src/Pipeline/Features.antt =====
-- The global processors, the monitors of the features, and the detector, with the queues that they get.
use edge_frame.Prelude.{
  ℕ, suc, ◌+◌, ◌≡◌, ◌<◌, refl, true, false, String, List, [], ◌∷◌, ◌++◌, none, some, ◌==◌,
  string_eq, lookup, insert, Bool-cases, inl, inr, arith, All, All-append, length, length-append,
}
use edge_frame.Objects.{is_some, safe_get, safe_add, lock, unlock}
use edge_frame.Pipeline.{
  monitor_processor, detector_processor, dispatch_processor, flow_rpc_processor, Processor, Service,
  build_processor, processors, create, regist, queue_of, units_of, init_processor, build_chain,
  build_global, build_core, feature_chain, feature_map, monitor_name, dispatch_name, flow_rpc_name,
  detect_name, QueuePtr,
}
use edge_frame.Pipeline.Start.{build_features, nothing_built}

-- A monitor between the detector and the dispatcher.
abbrev pub IsMonitor : Processor → Type 0
IsMonitor p = (p.input_queue ≡ some 2) × (p.output_queue ≡ some 0)

abbrev pub dispatcher : Processor
dispatcher = record {
  kind = dispatch_processor;
  processor_name = dispatch_name;
  next_processor_name = "";
  input_queue = some 0;
  output_queue = none;
  next_processor_unit = [];
}

abbrev pub uploader : Processor
uploader = record {
  kind = flow_rpc_processor;
  processor_name = flow_rpc_name;
  next_processor_name = "";
  input_queue = none;
  output_queue = none;
  next_processor_unit = [];
}

abbrev pub wired_monitor : Processor
wired_monitor = record {
  kind = monitor_processor;
  processor_name = monitor_name;
  next_processor_name = dispatch_name;
  input_queue = some 2;
  output_queue = some 0;
  next_processor_unit = [];
}

-- The registry with these entries, and the service with the two global processors.
abbrev pub with_entries : List (String × QueuePtr) → ℕ → List Processor → Service
with_entries entries made executors = record {
  queues = record { entries = entries; freed = []; locked = false; seq_ir = [] };
  made = made;
  executors = executors;
  global_executors = (dispatch_name, dispatcher) ∷ (flow_rpc_name, uploader) ∷ [];
  core_executors = [];
  video_input_executors = [];
}

abbrev pub global_entries : List (String × QueuePtr)
global_entries = (dispatch_name, some 0) ∷ (flow_rpc_name, some 1) ∷ []

abbrev pub with_monitor : List (String × QueuePtr)
with_monitor = (dispatch_name, some 0) ∷ (flow_rpc_name, some 1) ∷ (monitor_name, some 2) ∷ []

pub build_global-eq :
    (features : List String)
    → build_global features (dispatch_name ∷ flow_rpc_name ∷ []) nothing_built
      ≡ some (with_entries global_entries 2 [])
unfolding build_global build_processor processors create regist init_processor queue_of safe_get
    safe_add lock unlock lookup insert
build_global-eq features = refl

pub feature_chain-eq :
    (f : String) → is_some (lookup f feature_map) ≡ true → feature_chain f ≡ monitor_name ∷ []
unfolding feature_chain lookup
feature_chain-eq f h = elim (Bool-cases ("monitor" == f)) [
  | inl q ↦ rw (feature_chain, q) refl
  | inr q ↦ absurd (grind (arith, h, q))
]

pub first_monitor :
    (features : List String)
    → build_chain features (monitor_name ∷ []) (with_entries global_entries 2 [])
      ≡ some (with_entries with_monitor 3 (wired_monitor ∷ []))
unfolding build_chain build_processor processors create regist init_processor queue_of safe_get
    safe_add lock unlock lookup insert
first_monitor features = refl

next_monitor :
    (features : List String) (made : ℕ) (ps : List Processor)
    → build_chain features (monitor_name ∷ []) (with_entries with_monitor made ps)
      ≡ some (with_entries with_monitor (suc made) (ps ++ (wired_monitor ∷ [])))
unfolding build_chain build_processor processors create regist init_processor queue_of safe_get
    safe_add lock unlock lookup insert
next_monitor features made ps = refl

pub features_lem :
    (features fs : List String) (made : ℕ) (ps : List Processor)
    → All (λ f. is_some (lookup f feature_map) ≡ true) fs
    → 2 < made
    → All IsMonitor ps
    → (r : ℕ × List Processor) × (build_features features fs (with_entries with_monitor made ps)
        ≡ some (with_entries with_monitor r.0 r.1))
      × (2 < r.0)
      × All IsMonitor r.1
      × (length r.1 ≡ length ps + length fs)
unfolding build_features
features_lem features [] made ps h lt all = ((made, ps), refl, lt, all, omega arith)
features_lem features (f ∷ fs) made ps h lt all =
    let more : All IsMonitor (ps ++ (wired_monitor ∷ [])) =
      All-append IsMonitor ps (wired_monitor ∷ []) all ((refl, refl), tt) in
    let (r, e, lt2, all2, len) =
      features_lem features fs (suc made) (ps ++ (wired_monitor ∷ [])) h.1 (omega arith) more in
    (
      r,
      rw (feature_chain-eq f h.0, next_monitor features made ps) e,
      lt2,
      all2,
      omega (arith, len, length-append ps (wired_monitor ∷ [])),
    )

-- The detector's part of the start.
abbrev pub detect_entries : ℕ → List (String × QueuePtr)
detect_entries made =
    (dispatch_name, some 0)
    ∷ (flow_rpc_name, some 1)
    ∷ (monitor_name, some 2)
    ∷ (detect_name, some made)
    ∷ []

abbrev pub detector : ℕ → Processor
detector made = record {
  kind = detector_processor;
  processor_name = detect_name;
  next_processor_name = "";
  input_queue = some made;
  output_queue = some 0;
  next_processor_unit = (monitor_name, some 2) ∷ [];
}

more_units :
    (fs : List String) (made : ℕ) (ps : List Processor)
    → All (λ f. is_some (lookup f feature_map) ≡ true) fs
    → units_of fs (with_entries (detect_entries made) (suc made) ps) ((monitor_name, some 2) ∷ [])
      ≡ some ((monitor_name, some 2) ∷ [])
unfolding units_of queue_of safe_get lock lookup insert
more_units [] made ps h = refl
more_units (f ∷ fs) made ps h = rw (feature_chain-eq f h.0) (more_units fs made ps h.1)

all_units :
    (f : String) (fs : List String) (made : ℕ) (ps : List Processor)
    → All (λ f. is_some (lookup f feature_map) ≡ true) (f ∷ fs)
    → units_of (f ∷ fs) (with_entries (detect_entries made) (suc made) ps) []
      ≡ some ((monitor_name, some 2) ∷ [])
unfolding units_of queue_of safe_get lock lookup insert
all_units f fs made ps h = rw (feature_chain-eq f h.0) (more_units fs made ps h.1)

pub build_core-eq :
    (f : String) (fs : List String) (made : ℕ) (ps : List Processor)
    → All (λ f. is_some (lookup f feature_map) ≡ true) (f ∷ fs)
    → build_core (f ∷ fs) (with_entries with_monitor made ps)
      ≡ some (record (with_entries (detect_entries made) (suc made) ps) {
        core_executors = (detect_name, detector made) ∷ [];
      })
unfolding build_core build_processor processors create regist init_processor queue_of safe_get
    safe_add lock unlock lookup insert
build_core-eq f fs made ps h = rw (all_units f fs made ps h) refl
