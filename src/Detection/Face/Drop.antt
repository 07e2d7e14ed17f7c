-- ===== src/Detection/Face/Drop.antt =====
-- The suppression loops of `FaceDetectWithMask::postProcess`, modules/api/src/FaceDetectWithMask.cpp.
pub mod Kept
use edge_frame.Prelude.{ℕ, ◌-◌, ◌^◌, Bool, true, false, ◌||◌, List, [], ◌∷◌, if◌then◌else◌}
use edge_frame.Platform.{Platform}
use edge_frame.Detection.{Maths}
use edge_frame.Detection.Face.{FaceNet, Row, Mark}

module _ {P : Platform} (F : Maths P) (n : FaceNet P) where
  open P use {Float, f_zero, f_add, f_sub, f_mul, f_div, f_lt, f_of_int}

  unfoldable pub clip_label_value : Float → Float → Float
  clip_label_value x high = if f_lt x f_zero then f_zero else if F.f_le high x then high else x

  -- The four clipped edges of a row.
  abbrev left_of : Row P → Float
  left_of r = clip_label_value r.x1 n.ori_width

  abbrev top_of : Row P → Float
  top_of r = clip_label_value r.y1 n.ori_height

  abbrev right_of : Row P → Float
  right_of r = clip_label_value r.x2 n.ori_width

  abbrev bottom_of : Row P → Float
  bottom_of r = clip_label_value r.y2 n.ori_height

  abbrev span : Float → Float → Float
  span from to = f_add (f_sub to from) (f_of_int 1)

  abbrev width_of : Row P → Float
  width_of r = span (left_of r) (right_of r)

  abbrev height_of : Row P → Float
  height_of r = span (top_of r) (bottom_of r)

  -- Less than a twentieth of the image in width or height.
  unfoldable pub is_small : Row P → Bool
  is_small r =
      f_lt (height_of r) (f_mul n.ori_height n.least_percent_of_edge)
      || f_lt (width_of r) (f_mul n.ori_width n.least_percent_of_edge)

  abbrev larger : Float → Float → Float
  larger a b = if f_lt b a then a else b

  abbrev smaller : Float → Float → Float
  smaller a b = if f_lt b a then b else a

  -- `s / (s1 + s2 - s)`
  unfoldable pub ratio : Row P → Row P → Float
  ratio ri rj =
      let s =
        f_mul (span (larger (top_of ri) (top_of rj)) (smaller (bottom_of ri) (bottom_of rj)))
          (span (larger (left_of ri) (left_of rj)) (smaller (right_of ri) (right_of rj))) in
      f_div s
        (f_sub (f_add (f_mul (width_of ri) (height_of ri)) (f_mul (width_of rj) (height_of rj))) s)

  -- What a row that is not small does to the mark of a later one.
  unfoldable pub suppress : Row P → Row P → Mark P → Mark P
  suppress ri rj m =
      let q = ratio ri rj in
      let score = f_mul m.score (F.f_exp (f_mul (f_mul (f_of_int (2 ^ 32 - 2)) q) q)) in
      if n.soft_nms
      then record { score = score; dropped = m.dropped || f_lt score n.score_threshold }
      else record m { dropped = m.dropped || F.f_le n.nms_threshold q }

  -- The loop over `j`: `drop_flag[i]` and the marks of the later rows after it.
  unfoldable pub inner : Row P → Bool → List (Row P) → List (Mark P) → Bool × List (Mark P)
  inner ri drop (rj ∷ rs) (m ∷ ms) =
      let skipped = inner ri drop rs ms in
      let blamed = inner ri true rs ms in
      let compared = inner ri drop rs ms in
      if drop
      then (skipped.0, m ∷ skipped.1)
      else (if is_small rj
          then (blamed.0, m ∷ blamed.1)
          else (compared.0, suppress ri rj m ∷ compared.1))
  inner ri drop _ ms = (drop, ms)

  -- The loop over `i`: the marks after it.
  unfoldable pub drop_pass : List (Row P) → List (Mark P) → List (Mark P)
  drop_pass (r ∷ rs) (m ∷ ms) =
      let skipped = m ∷ drop_pass rs ms in
      let small = record m { dropped = true } ∷ drop_pass rs ms in
      let after = inner r false rs ms in
      let compared = record m { dropped = after.0 } ∷ drop_pass rs after.1 in
      if m.dropped then skipped else (if is_small r then small else compared)
  drop_pass _ ms = []
