-- ===== src/Detection.antt =====
-- modules/api/src/Detect.cpp and modules/api/src/FaceDetectWithMask.cpp: what is done around the
-- detection networks. The networks' outputs are arrays of numbers that come in from outside.
pub mod Params
pub mod Anchors
pub mod Groups
pub mod Nms
pub mod Decode
pub mod Grid
pub mod Face
use edge_frame.Prelude.{ℕ, Bool, List, if◌then◌else◌}
use edge_frame.Platform.{Platform}

-- What the networks' code needs of floating point besides the tracker's operations.
pub record Maths (P : Platform) : Type 0 where
  -- A literal of so many ten-thousandths, as `float` and as `double`.
  pub f_literal : ℕ → P.Float
  pub d_literal : ℕ → P.Double
  pub f_exp : P.Float → P.Float
  pub d_exp : P.Double → P.Double
  pub f_le : P.Float → P.Float → Bool

-- A prior box: `x_center`, `y_center`, `w` and `h`.
pub record Prior (P : Platform) : Type 0 where
  pub x_center : P.Float
  pub y_center : P.Float
  pub w : P.Float
  pub h : P.Float

-- `Detect`, the members that `setJson` fills. `featuremap_size` holds small whole numbers.
pub record Detect (P : Platform) : Type 0 where
  pub score_threshold : P.Float
  pub iou_threshold : P.Float
  pub num_of_class : ℕ
  pub num_anchors : ℕ
  pub image_h : ℕ
  pub image_w : ℕ
  pub input_height : ℕ
  pub input_width : ℕ
  pub featuremap_size : List (List ℕ)
  pub min_boxes : List (List (P.Float × P.Float))
  pub center_variance : P.Float
  pub size_variance : P.Float
  pub num_featuremap : ℕ
  pub priors : List (Prior P)

module _ {P : Platform} (F : Maths P) where
  -- The macro `clip(x, 1)` on a `float` and on a `double`.
  unfoldable pub f_clip : P.Float → P.Float
  f_clip x =
      let one = F.f_literal 10000 in
      if P.f_lt x P.f_zero then P.f_zero else if P.f_lt one x then one else x

  unfoldable pub d_clip : P.Double → P.Double
  d_clip x = if P.d_lt x P.d_zero then P.d_zero else if P.d_lt P.d_one x then P.d_one else x
