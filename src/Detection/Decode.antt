-- ===== src/Detection/Decode.antt =====
-- `Detect::generateBBox` and `Detect::postProcess` of modules/api/src/Detect.cpp: from the network's
-- two outputs to boxes. The outputs are read through pointers, so that a read past their end is an
-- abort here.
pub mod Total
use edge_frame.Prelude.{
  ℕ, zero, suc, ◌+◌, ◌-◌, ◌*◌, List, [], ◌∷◌, ◌++◌, Option, none, some, ◌>>=◌, if◌then◌else◌,
  get_elem?,
}
use edge_frame.Platform.{Platform}
use edge_frame.Track.Detect.{Box}
use edge_frame.Detection.{Detect, Maths, Prior, f_clip, d_clip}
use edge_frame.Detection.Nms.{Sorting, hard_nms, nms}

-- The four numbers of the anchor `j` in the box output.
pub record Offsets (P : Platform) : Type 0 where
  pub dx : P.Float
  pub dy : P.Float
  pub dw : P.Float
  pub dh : P.Float

module _ {P : Platform} (F : Maths P) (d : Detect P) where
  open P use {Float, Double, f_add, f_mul, f_lt, d_add, d_sub, d_mul, d_div, to_double, of_double}

  -- `output_boxes[j * 4]` to `output_boxes[j * 4 + 3]`
  unfoldable pub offsets : List Float → ℕ → Option (Offsets P)
  offsets output_boxes j = do
    dx ← get_elem? output_boxes (j * 4)
    dy ← get_elem? output_boxes (j * 4 + 1)
    dw ← get_elem? output_boxes (j * 4 + 2)
    dh ← get_elem? output_boxes (j * 4 + 3)
    some (record { dx = dx; dy = dy; dw = dw; dh = dh })

  -- `w / 2.0`
  abbrev half_of : Float → Double
  half_of w = d_div (to_double w) (F.d_literal 20000)

  -- `clip(x, 1) * image_w`, with the conversion to `float`.
  abbrev scaled : Double → ℕ → Float
  scaled x size = of_double (d_mul (d_clip F x) (to_double (P.f_of_int size)))

  unfoldable pub decoded : ℕ → Float → Offsets P → Prior P → Box P
  decoded i score o prior =
      let x_center = f_add (f_mul (f_mul o.dx d.center_variance) prior.w) prior.x_center in
      let y_center = f_add (f_mul (f_mul o.dy d.center_variance) prior.h) prior.y_center in
      let w = f_mul (F.f_exp (f_mul o.dw d.size_variance)) prior.w in
      let h = f_mul (F.f_exp (f_mul o.dh d.size_variance)) prior.h in
      record {
        x0 = scaled (d_sub (to_double x_center) (half_of w)) d.image_w;
        y0 = scaled (d_sub (to_double y_center) (half_of h)) d.image_h;
        x1 = scaled (d_add (to_double x_center) (half_of w)) d.image_w;
        y1 = scaled (d_add (to_double y_center) (half_of h)) d.image_h;
        score = f_clip F score;
        class_idx = i;
      }

  -- The body of the loop over `j`: the box if the score is above the threshold.
  unfoldable pub candidate : List Float → List Float → ℕ → ℕ → Option (List (Box P))
  candidate output_boxes out_score i j = do
    score ← get_elem? out_score (j * d.num_of_class + i)
    let box : Option (List (Box P)) = do
      o ← offsets output_boxes j
      prior ← get_elem? d.priors j
      some (decoded i score o prior ∷ [])
    if f_lt d.score_threshold score then box else some []

  -- The loop over `j`, with the anchors that are left.
  unfoldable pub class_boxes : List Float → List Float → ℕ → ℕ → ℕ → Option (List (Box P))
  class_boxes output_boxes out_score i j zero = some []
  class_boxes output_boxes out_score i j (suc left) = do
    boxes ← candidate output_boxes out_score i j
    rest ← class_boxes output_boxes out_score i (suc j) left
    some (boxes ++ rest)

  -- The loop over `i`, with the classes that are left.
  unfoldable pub all_boxes : List Float → List Float → ℕ → ℕ → Option (List (List (Box P)))
  all_boxes output_boxes out_score i zero = some []
  all_boxes output_boxes out_score i (suc left) = do
    boxes ← class_boxes output_boxes out_score i 0 d.num_anchors
    rest ← all_boxes output_boxes out_score (suc i) left
    some (boxes ∷ rest)

  unfoldable pub generate_bbox : List Float → List Float → Option (List (List (Box P)))
  generate_bbox output_boxes out_score = all_boxes output_boxes out_score 1 (d.num_of_class - 1)

  unfoldable pub post_process :
      Sorting P → List Float → List Float → List (Box P) → Option (List (Box P))
  post_process S output_data_box output_data_score output_boxes = do
    proposal_boxes ← generate_bbox output_data_box output_data_score
    nms F S d hard_nms proposal_boxes output_boxes
