-- ===== src/Pipeline/Wiring.antt =====
-- The queues that the processors are connected by after the start.
use edge_frame.Prelude.{
  ℕ, suc, ◌≡◌, ◌<◌, refl, sym, subst, true, String, List, [], ◌∷◌, some, lookup, arith, All, length,
  string_eq,
}
use edge_frame.Objects.{is_some}
use edge_frame.Loader.Video.{Disk}
use edge_frame.Pipeline.{
  Processor, Service, feature_map, monitor_name, dispatch_name, flow_rpc_name, detect_name,
}
use edge_frame.Pipeline.Start.{start_up, build_features}
use edge_frame.Pipeline.Features.{
  IsMonitor, with_entries, with_monitor, detect_entries, detector, dispatcher, uploader,
  wired_monitor, build_global-eq, first_monitor, features_lem, build_core-eq, feature_chain-eq,
  global_entries,
}
use edge_frame.Pipeline.Load.{IsServed}
use edge_frame.Pipeline.Inputs.{Feeds, HasLoader, build_inputs-IsFed}

-- Every processor has its queues: each monitor reads what the detector writes, and writes what the
-- dispatcher reads; the loaders write what the detector reads.
pub record IsWired (features inputs : List String) (s : Service) : Type 0 where
  pub detect_queue : ℕ
  pub dispatch_registered : lookup dispatch_name s.queues.entries ≡ some (some 0)
  pub monitor_registered : lookup monitor_name s.queues.entries ≡ some (some 2)
  pub detect_registered : lookup detect_name s.queues.entries ≡ some (some detect_queue)
  pub own_queue : 2 < detect_queue
  pub monitors : All IsMonitor s.executors
  pub as_many : length s.executors ≡ length features
  pub core : s.core_executors ≡ (detect_name, detector detect_queue) ∷ []
  pub global : s.global_executors ≡ (dispatch_name, dispatcher) ∷ (flow_rpc_name, uploader) ∷ []
  pub loaders_feed : Feeds (some detect_queue) s.video_input_executors
  pub all_inputs : All (HasLoader s.video_input_executors) inputs

-- The features' monitors, from the state that the global processors leave.
all_features :
    (f : String) (fs : List String)
    → All (λ f. is_some (lookup f feature_map) ≡ true) (f ∷ fs)
    → (r : ℕ × List Processor) × (build_features
          (f ∷ fs)
          (f ∷ fs)
          (with_entries global_entries 2 [])
        ≡ some (with_entries with_monitor r.0 r.1))
      × (2 < r.0)
      × All IsMonitor r.1
      × (length r.1 ≡ length (f ∷ fs))
unfolding build_features
all_features f fs h =
    let (r, e, lt, all, len) =
      features_lem (f ∷ fs) fs 3 (wired_monitor ∷ []) h.1 (omega arith) ((refl, refl), tt) in
    (r, rw (feature_chain-eq f h.0, first_monitor (f ∷ fs)) e, lt, all, omega (arith, len))

-- With a feature, and only features that the map knows, and with a video input, and only inputs
-- that are served, the service starts without a fatal error, up to the `init`s, and then each monitor
-- reads the queue that the detector writes and writes the one that the dispatcher reads, and every
-- input has a loader that writes what the detector reads. An input is served if it is neither an
-- rtmp stream nor a HiSilicon camera and, where it names local videos, the first of them opens.
pub start_up-IsWired :
    (D : Disk) (f : String) (fs : List String) (input : String) (inputs : List String)
    → All (λ f. is_some (lookup f feature_map) ≡ true) (f ∷ fs)
    → All (IsServed D) (input ∷ inputs)
    → (s : Service) × (start_up D (f ∷ fs) (input ∷ inputs) ≡ some s)
      × IsWired (f ∷ fs) (input ∷ inputs) s
unfolding start_up lookup
start_up-IsWired D f fs input inputs known served =
    let (r, built, lt, all, len) = all_features f fs known in
    let core : Service = record (with_entries (detect_entries r.0) (suc r.0) r.1) {
      core_executors = (detect_name, detector r.0) ∷ [];
    } in
    let (s, e, fed) =
      build_inputs-IsFed D (some r.0) (input ∷ inputs) core served
        (record { free = refl; detect = refl }) tt in
    (
      s,
      rw (build_global-eq (f ∷ fs), built, build_core-eq f fs r.0 r.1 known) e,
      record {
        detect_queue = r.0;
        dispatch_registered = fed.same.entries dispatch_name (some 0) refl;
        monitor_registered = fed.same.entries monitor_name (some 2) refl;
        detect_registered = fed.same.entries detect_name (some r.0) refl;
        own_queue = lt;
        monitors = subst (All IsMonitor) (sym fed.same.executors) all;
        as_many = subst (λ ps. length ps ≡ length (f ∷ fs)) (sym fed.same.executors) len;
        core = fed.same.core_executors;
        global = fed.same.global_executors;
        loaders_feed = fed.feeds;
        all_inputs = fed.all;
      },
    )
