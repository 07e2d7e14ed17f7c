-- ===== src/Detector/Label.antt =====
-- The decisions of `DetectorProcessor::labelBox`: which colour a face gets, and when the camera's
-- image gives way to the template. What is drawn is left out.
use edge_frame.Prelude.{
  ℕ, suc, ◌+◌, ◌*◌, ◌-◌, ◌>>=◌, ◌%◌, ◌^◌, ◌≡◌, ◌≤◌, ◌<◌, refl, Bool, true, false, ◌&&◌, List, [],
  ◌∷◌, Option, none, some, if◌then◌else◌, ltb, nat_beq, int_lt, arith, Bool-cases, inl, inr,
}
use edge_frame.Platform.{Platform}
use edge_frame.Track.Detect.{Box}

-- The rows of `LabelColors`.
abbrev pub label_colors : ℕ
label_colors = 5

abbrev pub cls_face : ℕ
cls_face = 2

module _ (P : Platform) where
  -- `int(x1 - x0) * int(y1 - y0)`
  unfoldable pub face_area : Box P → ℕ
  face_area b = P.int_of_f (P.f_sub b.x1 b.x0) * P.int_of_f (P.f_sub b.y1 b.y0) % 2 ^ 32

  -- The loop over the boxes, with `color_idx`, `has_face` and `max_area`; `none` is a read of
  -- `LabelColors` out of range.
  unfoldable pub label_faces : Bool → List (Box P) → ℕ → Bool → ℕ → Option (Bool × ℕ)
  label_faces has_circles [] color_idx has_face max_area = some (has_face, max_area)
  label_faces has_circles (b ∷ boxes) color_idx has_face max_area =
      let area = face_area b in
      let larger = if int_lt max_area area then area else max_area in
      let skipped = label_faces has_circles boxes color_idx has_face max_area in
      let labelled = label_faces has_circles boxes (suc color_idx) true larger in
      let drawn =
        if has_circles
        then labelled
        else (if ltb (suc color_idx) label_colors then labelled else none) in
      if nat_beq b.class_idx cls_face then drawn else skipped

  -- Whether the template is shown, and `last_hasface_time_`: times are below 2 ^ 63.
  unfoldable pub show_template : Bool → ℕ → ℕ → ℕ → Bool × ℕ
  show_template has_face max_area time_now last_hasface_time =
      if has_face && int_lt 6400 max_area
      then (false, time_now)
      else (ltb (last_hasface_time + 2000) time_now, last_hasface_time)

  -- `labelBox`, with `max_area` from -1: whether the template is shown, and `last_hasface_time_`.
  unfoldable pub label_box : Bool → List (Box P) → ℕ → ℕ → Option (Bool × ℕ)
  label_box has_circles boxes time_now last_hasface_time = do
    labelled ← label_faces has_circles boxes 0 false (2 ^ 32 - 1)
    some (show_template labelled.0 labelled.1 time_now last_hasface_time)

  abbrev pub faces : List (Box P) → ℕ
  faces [] = 0
  faces (b ∷ boxes) =
      let rest = faces boxes in if nat_beq b.class_idx cls_face then suc rest else rest

  -- Without the images of the circles, the loop reads out of range just when there are more faces
  -- than colours after the first.
  label_faces-none_iff :
      (boxes : List (Box P)) (color_idx : ℕ) (h : Bool) (m : ℕ)
      → color_idx < label_colors
      → (label_faces false boxes color_idx h m ≡ none → label_colors ≤ color_idx + faces boxes)
        × (label_colors ≤ color_idx + faces boxes → label_faces false boxes color_idx h m ≡ none)
  unfolding label_faces
  label_faces-none_iff [] color_idx h m lt =
      (λ e. absurd (grind (arith, e)), λ le. absurd (omega (arith, le)))
  label_faces-none_iff (b ∷ boxes) color_idx h m lt =
      elim (Bool-cases (nat_beq b.class_idx cls_face)) [
        | inr a ↦ rw a (label_faces-none_iff boxes color_idx h m lt)
        | inl a ↦ elim (Bool-cases (ltb (suc color_idx) label_colors)) [
          | inr c ↦ rw (a, c) (λ e. ground (arith, c), λ le. refl)
          | inl c ↦
              let later =
                label_faces-none_iff boxes (suc color_idx) true
                  (if int_lt m (face_area b) then face_area b else m) (ground (arith, c)) in
              let shift : suc color_idx + faces boxes ≡ color_idx + suc (faces boxes) =
                omega arith in
              rw (a, c) (rw shift at later)
        ]
      ]
