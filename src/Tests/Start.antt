-- ===== src/Tests/Start.antt =====
-- The start of the service on a concrete configuration.
use edge_frame.Prelude.{
  ◌≡◌, ◌≢◌, refl, true, false, String, List, [], ◌∷◌, some, string_eq, ◌==◌, lookup, All, arith,
}
use edge_frame.Objects.{is_some}
use edge_frame.Pipeline.{Service, feature_map, hisi_camera_name, local_video_name}
use edge_frame.Pipeline.Start.{start_up, data_loader_name}
use edge_frame.Loader.Video.{Disk, list_videos, first_video}
use edge_frame.Pipeline.Load.{IsServed}
use edge_frame.Pipeline.Wiring.{IsWired, start_up-IsWired}

differ : (a b : String) → (a == b) ≡ false → a ≢ b
differ a b h e = grind (arith, h, e, string_eq.same_iff a b)

abbrev cameras : List String
cameras = "/dev/video0" ∷ "crowd.mp4" ∷ []

abbrev videos : Disk
videos = record { get_files = λ path. []; opens = λ name. true; frames = λ name. [] }

not_local : (a b : String) → (a == b) ≡ false → {A : Type 0} → a ≡ b → A
not_local a b h e = absurd (differ a b h e)

cameras-IsServed : All (IsServed videos) ("rtsp://camera" ∷ cameras)
unfolding data_loader_name list_videos first_video
cameras-IsServed = (
  (
    differ (data_loader_name "rtsp://camera") "" refl,
    differ (data_loader_name "rtsp://camera") hisi_camera_name refl,
    λ e. not_local (data_loader_name "rtsp://camera") local_video_name refl e,
  ),
  (
    (
      differ (data_loader_name "/dev/video0") "" refl,
      differ (data_loader_name "/dev/video0") hisi_camera_name refl,
      λ e. not_local (data_loader_name "/dev/video0") local_video_name refl e,
    ),
    (
      (
        differ (data_loader_name "crowd.mp4") "" refl,
        differ (data_loader_name "crowd.mp4") hisi_camera_name refl,
        λ e. ("crowd.mp4", refl),
      ),
      tt,
    ),
  ),
)

monitor-known : All (λ f. is_some (lookup f feature_map) ≡ true) ("monitor" ∷ "monitor" ∷ [])
unfolding lookup
monitor-known = (refl, (refl, tt))

start_up-IsWired_example :
    (s : Service) × (start_up videos ("monitor" ∷ "monitor" ∷ []) ("rtsp://camera" ∷ cameras)
      ≡ some s)
    × IsWired ("monitor" ∷ "monitor" ∷ []) ("rtsp://camera" ∷ cameras) s
start_up-IsWired_example =
    start_up-IsWired videos "monitor" ("monitor" ∷ []) "rtsp://camera" cameras monitor-known
      cameras-IsServed
