-- ===== src/Pipeline/Start.antt =====
-- The video inputs, the features and the start of the whole service.
use Prim.Native.String.{find, len}
use edge_frame.Prelude.{
  suc, Bool, false, String, List, [], ◌∷◌, Option, none, some, ◌>>=◌, if◌then◌else◌, ltb, ◌==◌,
  string_eq, insert,
}
use edge_frame.Pipeline.{
  detect_name, dispatch_name, flow_rpc_name, rtsp_name, usb_camera_name, hisi_camera_name,
  local_video_name, loaders, feature_chain, Service, build_processor, init_processor, build_chain,
  build_global, build_core, Processor, local_video_loader,
}
use edge_frame.Loader.Video.{Disk, list_videos, first_video}

-- `text.find(part) != npos`
abbrev pub has : String → String → Bool
has text part = ltb (find text part) (suc (len text))

-- The choice in `BuildVideoInput`.
unfoldable pub data_loader_name : String → String
data_loader_name input =
    if has input "rtsp"
    then rtsp_name
    else (if has input "/dev"
        then usb_camera_name
        else (if has input "rtmp"
            then ""
            else (if input == "hisi" then hisi_camera_name else local_video_name)))

-- The `init` of a loader, as far as its queue goes, with the fatal errors of the one for local videos.
unfoldable pub init_loader : Disk → String → Processor → Service → Option Processor
init_loader D input p s =
    let begun = init_processor [] p s in
    let video = first_video D (list_videos D input) >>= λ file. begun in
    elim p.kind [ local_video_loader ↦ video | _ ↦ begun ]

-- The loop of `BuildVideoInput`, with the `init` that `StartVideoInput` makes later on another thread,
-- when the registry has all that it has here.
unfoldable pub build_inputs : Disk → List String → Service → Option Service
build_inputs D [] s = some s
build_inputs D (input ∷ rest) s = do
  (p, built) ← build_processor loaders (data_loader_name input) detect_name s
  ready ← init_loader D input p built
  build_inputs D rest
      (record built { video_input_executors = insert input ready built.video_input_executors })

-- The loop over the features in `ServiceDaemon::Loop`.
unfoldable pub build_features : List String → List String → Service → Option Service
build_features features [] s = some s
build_features features (feature ∷ rest) s = do
  built ← build_chain features (feature_chain feature) s
  build_features features rest built

abbrev pub nothing_built : Service
nothing_built = record {
  queues = record { entries = []; freed = []; locked = false; seq_ir = [] };
  made = 0;
  executors = [];
  global_executors = [];
  core_executors = [];
  video_input_executors = [];
}

-- The start of `ServiceDaemon::Loop`: the features and the video inputs of the configuration; no
-- input is a fatal error.
unfoldable pub start_up : Disk → List String → List String → Option Service
start_up D features [] = none
start_up D features (input ∷ inputs) = do
  g ← build_global features (dispatch_name ∷ flow_rpc_name ∷ []) nothing_built
  b ← build_features features features g
  c ← build_core features b
  build_inputs D (input ∷ inputs) c
