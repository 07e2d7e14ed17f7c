-- ===== src/Loader/Camera/Find.antt =====
-- What `findCamera` leaves for `selectResolution`.
use edge_frame.Prelude.{
  ℕ, suc, ◌≡◌, ◌≤◌, ◌<◌, refl, ap, sym, ◌∙◌, Bool, true, not, List, [], ◌∷◌, Option, some, arith,
  nat_beq, length, length-append, All, All-append, Bool-cases, inl, inr, if_cases, none-ne-some,
  some_eq, subst,
}
use edge_frame.Loader.Camera.{
  Device, FrameSize, Resolution, diff_960, sizes_of, all_sizes, num_sizes, info_camera, is_video,
  video_number, find_camera, select_resolution,
}
use edge_frame.Loader.Camera.Select.{Best, select_resolution-Best}

length-sizes_of : (f : List FrameSize) → length (sizes_of f) ≡ length f
unfolding sizes_of
length-sizes_of [] = refl
length-sizes_of (s ∷ ss) = ap suc (length-sizes_of ss)

length-all_sizes : (fs : List (List FrameSize)) → length (all_sizes fs) ≡ num_sizes fs
unfolding all_sizes num_sizes
length-all_sizes [] = refl
length-all_sizes (f ∷ fs) =
    omega (arith, length-append (sizes_of f) (all_sizes fs), length-sizes_of f, length-all_sizes fs)

-- What a look at a device, or a search, does to the resolutions.
record Grows (ok : Bool) (found later : List Resolution) : Type 0 where
  kept : length found ≤ length later
  filled : ok ≡ true → 0 < length later

info_camera-Grows :
    (dev : Device) (found : List Resolution)
    → Grows (info_camera dev found).0 found (info_camera dev found).1
unfolding info_camera
info_camera-Grows dev found =
    let n = length-all_sizes dev.formats in
    let m = length-append found (all_sizes dev.formats) in ground (arith, n, m)

-- A video device that lists a frame size.
abbrev pub IsCamera : Device → Type 0
IsCamera dev =
    (dev.opens ≡ true)
    × (dev.queried ≡ true)
    × (dev.is_capture ≡ true)
    × (0 < dev.inputs)
    × (0 < num_sizes dev.formats)

info_camera-IsCamera :
    (dev : Device) (found : List Resolution) → (info_camera dev found).0 ≡ true → IsCamera dev
unfolding info_camera
info_camera-IsCamera dev found h = ground arith

info_camera-answer :
    (dev : Device) (found : List Resolution) → (info_camera dev found).0 ≡ (info_camera dev []).0
unfolding info_camera
info_camera-answer dev found = ground arith

module _ (Q : Resolution → Type 0) where
  info_camera-All :
      (dev : Device) (found : List Resolution)
      → All Q found
      → All Q (all_sizes dev.formats)
      → All Q (info_camera dev found).1
  unfolding info_camera
  info_camera-All dev found h k =
      let C = λ (x : Bool × List Resolution). All Q x.1 in
      if_cases C (not dev.opens) (λ _. h)
        (λ _.
          if_cases C (not dev.queried) (λ _. h)
            (λ _.
              if_cases C (not dev.is_capture) (λ _. h)
                (λ _.
                  if_cases C (nat_beq dev.inputs 0) (λ _. h)
                    (λ _. All-append Q found (all_sizes dev.formats) h k))))

abbrev pub Near : Resolution → Type 0
Near r = diff_960 r.0 < 99999

module _ (devices : ℕ → Device) where
  -- What `findCamera` answers, and what it makes of the resolutions that were there.
  abbrev Searched : List Resolution → Option ℕ × List Resolution → Type 0
  Searched found result =
      (length found ≤ length result.1)
      × ((video : ℕ) → result.0 ≡ some video → IsCamera (devices video) × (0 < length result.1))

  find_camera-Searched :
      (names : List (List ℕ)) (found : List Resolution)
      → Searched found (find_camera devices names found)
  unfolding find_camera
  find_camera-Searched [] found = (omega arith, λ video e. absurd (none-ne-some e))
  find_camera-Searched (name ∷ names) found =
      let dev = devices (video_number name) in
      let grows = info_camera-Grows dev found in
      let more = find_camera-Searched names (info_camera dev found).1 in
      if_cases (Searched found) (is_video name)
        (λ _.
          if_cases (Searched found) (info_camera dev found).0
            (λ e. (
              grows.kept,
              λ video q. (
                subst (λ v. IsCamera (devices v)) (some_eq q) (info_camera-IsCamera dev found e),
                grows.filled e,
              ),
            ))
            (λ _. (omega (arith, grows.kept, more.0), more.1)))
        (λ _. find_camera-Searched names found)

  pub length-find_camera-le :
      (names : List (List ℕ)) (found : List Resolution)
      → length found ≤ length (find_camera devices names found).1
  length-find_camera-le names found = (find_camera-Searched names found).0

  pub find_camera-All :
      (Q : Resolution → Type 0)
      → ((v : ℕ) → All Q (all_sizes (devices v).formats))
      → (names : List (List ℕ)) (found : List Resolution) → All Q found
      → All Q (find_camera devices names found).1
  unfolding find_camera
  find_camera-All Q given [] found h = h
  find_camera-All Q given (name ∷ names) found h =
      let dev = devices (video_number name) in
      let looked = info_camera-All Q dev found h (given (video_number name)) in
      let C = λ (x : Option ℕ × List Resolution). All Q x.1 in
      if_cases C (is_video name)
        (λ _.
          if_cases C (info_camera dev found).0 (λ _. looked)
            (λ _. find_camera-All Q given names (info_camera dev found).1 looked))
        (λ _. find_camera-All Q given names found h)

  -- The answer does not depend on the resolutions that were there.
  pub find_camera-answer :
      (names : List (List ℕ)) (found : List Resolution)
      → (find_camera devices names found).0 ≡ (find_camera devices names []).0
  unfolding find_camera
  find_camera-answer [] found = refl
  find_camera-answer (name ∷ names) found =
      let dev = devices (video_number name) in
      let same = info_camera-answer dev found in
      let a = find_camera-answer names (info_camera dev found).1 in
      let b = find_camera-answer names (info_camera dev []).1 in
      let c = find_camera-answer names found in
      elim (Bool-cases (is_video name)) [
        | inl v ↦ elim (Bool-cases (info_camera dev []).0) [
          | inl k ↦ rw (v, same, k) refl
          | inr k ↦ rw (v, same, k) (a ∙ sym b)
        ]
        | inr v ↦ rw v c
      ]

  -- Whenever `findCamera` answers a number, that is the number of a capture device with a frame
  -- size, and `selectResolution` after it reads nothing out of range and makes its best choice
  -- among all resolutions found so far. These are never cleared: a search only adds to them.
  pub find_camera-select :
      (names : List (List ℕ)) (found : List Resolution) (video : ℕ)
      → ((v : ℕ) → All Near (all_sizes (devices v).formats))
      → All Near found
      → (find_camera devices names found).0 ≡ some video
      → IsCamera (devices video)
        × (length found ≤ length (find_camera devices names found).1)
        × ((r : Resolution) × (select_resolution (find_camera devices names found).1 ≡ some r)
            × Best (find_camera devices names found).1 r)
  find_camera-select names found video given near e =
      let (grown, seen) = find_camera-Searched names found in
      let (camera, filled) = seen video e in
      (camera, grown, select_resolution-Best _ filled (find_camera-All Near given names found near))
