-- ===== src/Loader/Camera.antt =====
-- The search for a camera and the choice of its resolution: `infoCamera`, `findCamera` and
-- `selectResolution` of src/processor/UsbDeviceLoaderProcessor.cpp. What the kernel answers about a
-- device comes from outside, and so do the entries of /dev.
pub mod Select
pub mod Find
use edge_frame.Prelude.{
  ℕ, zero, suc, ◌+◌, ◌-◌, ◌%◌, ◌^◌, Bool, true, false, not, ◌&&◌, List, [], ◌∷◌, ◌++◌, Option, none,
  some, ◌>>=◌, if◌then◌else◌, nat_beq, ltb, leb, length, get_elem?, map,
}

-- A frame size that the driver lists, with the number of frame intervals that it lists for it.
pub record FrameSize : Type 0 where
  pub width : ℕ
  pub height : ℕ
  pub intervals : ℕ

-- What `open` and the `ioctl` calls answer for a device file: for each format, its frame sizes.
pub record Device : Type 0 where
  pub opens : Bool
  pub queried : Bool
  pub is_capture : Bool
  pub inputs : ℕ
  pub formats : List (List FrameSize)

-- `std::pair<int, int>`
abbrev pub Resolution : Type 0
Resolution = ℕ × ℕ

unfoldable pub resolution : FrameSize → Resolution
resolution s = (s.width, s.height)

-- The loops over `j` and `k` for one format: what is added to `suppered_resolution_vec_`.
unfoldable pub sizes_of : List FrameSize → List Resolution
unfolding resolution
sizes_of = map resolution

abbrev pub sum_intervals : List FrameSize → ℕ
sum_intervals [] = 0
sum_intervals (s ∷ ss) = s.intervals + sum_intervals ss

-- The loop over `i`: the resolutions, `frmsizeNum` and `framivalNum`.
unfoldable pub all_sizes : List (List FrameSize) → List Resolution
all_sizes [] = []
all_sizes (f ∷ fs) = sizes_of f ++ all_sizes fs

unfoldable pub num_sizes : List (List FrameSize) → ℕ
num_sizes [] = 0
num_sizes (f ∷ fs) = length f + num_sizes fs

unfoldable pub num_intervals : List (List FrameSize) → ℕ
num_intervals [] = 0
num_intervals (f ∷ fs) = sum_intervals f + num_intervals fs

-- `infoCamera` on a name that is not empty: its answer, and `suppered_resolution_vec_` after it.
unfoldable pub info_camera : Device → List Resolution → Bool × List Resolution
info_camera dev found =
    if not dev.opens
    then (false, found)
    else (if not dev.queried
        then (false, found)
        else (if not dev.is_capture
            then (false, found)
            else (if nat_beq dev.inputs 0 then (false, found) else (
              ltb 0 (length dev.formats)
                  && ltb 0 (num_sizes dev.formats)
                  && ltb 0 (num_intervals dev.formats),
              found ++ all_sizes dev.formats,
            ))))

-- `fnmatch("video*", name, FNM_PATHNAME | FNM_PERIOD) == 0`, on the bytes of a name.
unfoldable pub is_video : List ℕ → Bool
is_video (a ∷ b ∷ c ∷ d ∷ e ∷ rest) =
    nat_beq a b'v' && nat_beq b b'i' && nat_beq c b'd' && nat_beq d b'e' && nat_beq e b'o'
is_video _ = false

-- `entry->d_name[5] - '0'` as an `int` pattern; the byte after the name is 0.
unfoldable pub video_number : List ℕ → ℕ
video_number name =
    let c : ℕ = elim (get_elem? name 5) [ none ↦ 0 | some byte ↦ byte ] in
    (c + 2 ^ 32 - b'0') % 2 ^ 32

-- `findCamera` over the entries of /dev, with the device behind each number: the camera's number,
-- `none` for -1, and `suppered_resolution_vec_`.
unfoldable pub find_camera :
    (ℕ → Device) → List (List ℕ) → List Resolution → Option ℕ × List Resolution
find_camera devices [] found = (none, found)
find_camera devices (name ∷ names) found =
    let skipped = find_camera devices names found in
    let looked = info_camera (devices (video_number name)) found in
    let more = find_camera devices names looked.1 in
    if is_video name
    then (if looked.0 then (some (video_number name), looked.1) else more)
    else skipped

-- `abs(960 - first)`
unfoldable pub diff_960 : ℕ → ℕ
diff_960 first = if leb first 960 then 960 - first else first - 960

-- The first loop of `selectResolution`: the first candidate, and the last exact match.
pub record Choice : Type 0 where
  pub candidate : Option Resolution
  pub selected : Option Resolution

unfoldable pub examine : Resolution → Choice → Choice
examine r c =
    if nat_beq r.0 960
    then record {
      candidate = elim c.candidate [ none ↦ some r | some old ↦ some old ];
      selected = if nat_beq r.1 540 then some r else c.selected;
    }
    else c

unfoldable pub first_loop : List Resolution → Choice → Choice
first_loop [] c = c
first_loop (r ∷ rs) c = first_loop rs (examine r c)

-- The second loop: `idx`, `none` for -1, and `min_diff`.
unfoldable pub nearest : List Resolution → ℕ → Option ℕ × ℕ → Option ℕ × ℕ
nearest [] i best = best
nearest (r ∷ rs) i best =
    nearest rs (suc i) (if ltb (diff_960 r.0) best.1 then (some i, diff_960 r.0) else best)

-- The branches of `selectResolution` on `selected`, the candidates and `idx`; `none` where the
-- vector is read at -1.
unfoldable pub choose :
    List Resolution → Option Resolution → Option Resolution → Option ℕ → Option Resolution
choose found (some r) candidate idx = some r
choose found none (some r) idx = some r
choose found none none (some i) = get_elem? found i
choose found none none none = none

-- `selectResolution`: `width_` and `height_`.
unfoldable pub select_resolution : List Resolution → Option Resolution
unfolding choose
select_resolution found =
    let c = first_loop found (record { candidate = none; selected = none }) in
    let (idx, _) = nearest found 0 (none, 99999) in choose found c.selected c.candidate idx
