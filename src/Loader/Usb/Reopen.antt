-- ===== src/Loader/Usb/Reopen.antt =====
-- `reopenCamera` comes back once there is a camera.
use edge_frame.Prelude.{ℕ, ◌≡◌, ◌≤◌, true, false, [], some, length, All}
use edge_frame.Loader.Camera.{all_sizes, find_camera}
use edge_frame.Loader.Camera.Select.{Best}
use edge_frame.Loader.Camera.Find.{Near}
use edge_frame.Loader.Usb.{Usb, Attempt, Reopened, waiting, aborted, ready}

-- A round in which there is a camera that opens and gives a frame.
pub record IsGood (a : Attempt) : Type 0 where
  pub video : ℕ
  pub camera : (find_camera a.devices a.names []).0 ≡ some video
  pub opened : a.opens ≡ true
  pub first : ℕ × ℕ
  pub gives : a.first_frame ≡ some first

-- All frame sizes are less than 99999 from 960 in width.
abbrev pub HasNear : Attempt → Type 0
HasNear a = (v : ℕ) → All Near (all_sizes (a.devices v).formats)

-- How a loader stands after a round, or after all rounds.
abbrev IsAfter : Usb → Usb → Type 0
IsAfter u v =
    All Near v.suppered_resolution_vec
    × (length u.suppered_resolution_vec ≤ length v.suppered_resolution_vec)

abbrev Chosen : Usb → Type 0
Chosen v =
    (v.frame_id ≡ 0) × (v.is_ready ≡ false) × Best v.suppered_resolution_vec (v.width, v.height)

abbrev Outcome : Usb → Reopened → Type 0
Outcome u (waiting v) = IsAfter u v
Outcome u aborted = ⊥
Outcome u (ready v) = IsAfter u v × Chosen v

-- The loop came back, with a choice among all that it found.
abbrev pub IsBack : Usb → Reopened → Type 0
IsBack u x =
    (v : Usb) × (x ≡ ready v)
    × (v.frame_id ≡ 0)
    × (v.is_ready ≡ false)
    × Best v.suppered_resolution_vec (v.width, v.height)
    × (length u.suppered_resolution_vec ≤ length v.suppered_resolution_vec)
