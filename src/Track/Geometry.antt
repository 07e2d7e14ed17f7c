-- ===== src/Track/Geometry.antt =====
-- modules/track/src/tracker.cpp: overlap of boxes, share of the image, cosine of features.
use edge_frame.Prelude.{Bool, List, [], ◌∷◌, Option, none, some}
use edge_frame.Prelude.{if◌then◌else◌, nat_beq, length}
use edge_frame.Platform.{Platform, pixels}

module _ (P : Platform) where
  open P use {
    Float, Double, Mat, Rect, f_add, f_sub, f_mul, f_div, f_lt, f_of_int, to_double, d_zero,
    d_epsilon, d_add, d_mul, d_div, d_sqrt, d_lt, inter, area, rect_x, rect_y, rect_width,
    rect_height,
  }

  unfoldable pub get_iou : Rect → Rect → Double
  get_iou bb_test bb_gt =
      let overlap = area (inter bb_test bb_gt) in
      let un = f_sub (f_add (area bb_test) (area bb_gt)) overlap in
      if d_lt (to_double un) d_epsilon then d_zero else to_double (f_div overlap un)

  -- `matmul`, `norm_a` and `norm_b` after the loop over the features.
  unfoldable pub cos_loop :
      List Float → List Float → Double → Double → Double → Double × Double × Double
  cos_loop (a ∷ xs) (b ∷ ys) matmul norm_a norm_b =
      cos_loop xs ys (d_add matmul (to_double (f_mul a b))) (d_add norm_a (to_double (f_mul a a)))
        (d_add norm_b (to_double (f_mul b b)))
  cos_loop [] ys matmul norm_a norm_b = (matmul, norm_a, norm_b)
  cos_loop (a ∷ xs) [] matmul norm_a norm_b = (matmul, norm_a, norm_b)

  -- `none` where the assertion on the sizes fails.
  unfoldable pub calc_cos_similarity : List Float → List Float → Option Double
  unfolding cos_loop
  calc_cos_similarity feature_a feature_b =
      let (matmul, norm_a, norm_b) = cos_loop feature_a feature_b d_zero d_zero d_zero in
      if nat_beq (length feature_a) (length feature_b)
      then some (d_div matmul (d_mul (d_sqrt norm_a) (d_sqrt norm_b)))
      else none

  -- `rect.area() / (mat->rows * mat->cols) > thresh`
  unfoldable pub area_exceeds : Rect → Mat → Double → Bool
  area_exceeds r m thresh = d_lt thresh (to_double (f_div (area r) (f_of_int (pixels P m))))
