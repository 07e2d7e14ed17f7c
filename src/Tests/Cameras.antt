-- ===== src/Tests/Cameras.antt =====
-- src/processor/UsbDeviceLoaderProcessor.cpp at concrete devices.
use edge_frame.Prelude.{
  ℕ, ◌+◌, ◌%◌, ◌^◌, ◌≡◌, ◌≤◌, refl, true, false, List, [], ◌∷◌, none, some, arith, All, length,
  lookup,
}
use edge_frame.Metrics.{no_metrics, slot, counter, algo_model_monitor}
use edge_frame.Metrics.Laws.{reading}
use edge_frame.Loader.Camera.{
  Device, all_sizes, find_camera, select_resolution, examine, first_loop, nearest, diff_960,
  info_camera, video_number, is_video, sizes_of, num_sizes, num_intervals,
}
use edge_frame.Loader.Camera.Select.{Best}
use edge_frame.Loader.Camera.Find.{Near, IsCamera, find_camera-select}
use edge_frame.Loader.Usb.{
  Usb, Attempt, Loading, Read, frame_at, lost, read_first, open_with, with_camera, reopen_round,
  reopen_camera, take_frame, usb_run,
}
use edge_frame.Loader.Video.{
  Disk, Video, list_videos, local_video, all_frames, Played, local_video-ends,
}
use edge_frame.Loader.Usb.Frames.{Spaced, frame_key, usb_run-frames}

select_resolution-exact :
    select_resolution ((960, 720) ∷ (640, 480) ∷ (960, 540) ∷ []) ≡ some (960, 540)
unfolding select_resolution first_loop examine nearest diff_960
select_resolution-exact = refl

select_resolution-near :
    select_resolution ((640, 480) ∷ (1280, 720) ∷ (1000, 562) ∷ []) ≡ some (1000, 562)
unfolding select_resolution first_loop examine nearest diff_960
select_resolution-near = refl

-- "video10" is looked up as /dev/video1.
video_number-ten : video_number (b'v' ∷ b'i' ∷ b'd' ∷ b'e' ∷ b'o' ∷ b'1' ∷ b'0' ∷ []) ≡ 1
unfolding video_number
video_number-ten = refl

abbrev camera : Device
camera = record {
  opens = true;
  queried = true;
  is_capture = true;
  inputs = 1;
  formats = (record { width = 960; height = 540; intervals = 2 } ∷ []) ∷ [];
}

abbrev entries : List (List ℕ)
entries = (b'v' ∷ b'i' ∷ b'd' ∷ b'e' ∷ b'o' ∷ b'0' ∷ []) ∷ []

near : All Near (all_sizes camera.formats)
unfolding all_sizes diff_960 sizes_of
near = omega arith

find_camera-entries : (find_camera (λ v. camera) entries []).0 ≡ some 0
unfolding find_camera is_video video_number info_camera num_sizes num_intervals
find_camera-entries = refl

find_camera-select_example :
    IsCamera camera
    × (0 ≤ length (find_camera (λ v. camera) entries []).1)
    × ((r : ℕ × ℕ) × (select_resolution (find_camera (λ v. camera) entries []).1 ≡ some r)
        × Best (find_camera (λ v. camera) entries []).1 r)
find_camera-select_example =
    find_camera-select (λ v. camera) entries [] 0 (λ v. near) tt find_camera-entries

abbrev unset : Usb
unset = record {
  is_ready = true;
  suppered_resolution_vec = [];
  frame_id = 7;
  width = 0;
  height = 0;
  video_width = 0;
  video_height = 0;
}

abbrev nothing_there : Attempt
nothing_there = record { names = []; devices = λ v. camera; opens = false; first_frame = none }

abbrev plugged_in : Attempt
plugged_in = record {
  names = entries;
  devices = λ v. camera;
  opens = true;
  first_frame = some (960, 540);
}

abbrev loading : Loading
loading = record {
  usb = unset;
  last_heartbeat_time = 0;
  metrics = no_metrics;
  pushed = [];
  heartbeats = [];
}

-- The loader after the camera is back.
abbrev back : Usb
back = record {
  is_ready = false;
  suppered_resolution_vec = (960, 540) ∷ [];
  frame_id = 0;
  width = 960;
  height = 540;
  video_width = 960;
  video_height = 540;
}

-- A frame, no frame and two rounds, and a frame.
abbrev outage : List Read
outage = frame_at 40000 ∷ lost (nothing_there ∷ plugged_in ∷ []) ∷ frame_at 40040 ∷ []

abbrev after_outage : Loading
after_outage = take_frame "sn" 40040 (record (take_frame "sn" 40000 loading) { usb = back })

usb_run-outage : usb_run "sn" outage loading ≡ some after_outage
unfolding usb_run take_frame reopen_camera reopen_round with_camera open_with read_first find_camera
    is_video video_number info_camera num_sizes num_intervals sizes_of select_resolution first_loop
    examine nearest diff_960 all_sizes
usb_run-outage = refl

usb_run-frames_example :
    (after_outage.pushed
      ≡ record { camera_time = 40000; camera_sn = "sn"; frame_id = 8 }
        ∷ record { camera_time = 40040; camera_sn = "sn"; frame_id = 1 }
        ∷ [])
    × Spaced 0 after_outage.heartbeats
    × (reading algo_model_monitor frame_key after_outage.metrics
        ≡ (reading algo_model_monitor frame_key no_metrics + length after_outage.pushed) % 2 ^ 32)
unfolding slot counter lookup
usb_run-frames_example =
    usb_run-frames "sn" outage unset no_metrics refl (omega arith) usb_run-outage

-- A directory with two videos.
abbrev disk : Disk
disk = record {
  get_files = λ path. "b.mp4" ∷ "a.mp4" ∷ [];
  opens = λ name. true;
  frames = λ name. 40 ∷ 80 ∷ [];
}

abbrev idle_loader : Video
idle_loader = record {
  is_ready = false;
  frame_id = 0;
  local_video_file = "";
  pushed = [];
  sys_quit = false;
}

local_video-ends_example :
    (w : Video) × (local_video disk "door" "videos" idle_loader ≡ some w)
    × (w.sys_quit ≡ true)
    × Played disk "door" (all_frames disk "door" (list_videos disk "videos")) idle_loader w
unfolding list_videos
local_video-ends_example =
    local_video-ends disk "door" "videos" idle_loader (omega arith) (refl, (refl, tt))
