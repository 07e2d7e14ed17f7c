-- ===== src/Detection/Face.antt =====
-- `FaceDetectWithMask::postProcess`, modules/api/src/FaceDetectWithMask.cpp: from the network's four
-- outputs to rows of `bboxes_`. The outputs are read through pointers: a read past their end is an
-- abort here.
pub mod Drop
pub mod Boxes
use edge_frame.Prelude.{
  ℕ, zero, suc, ◌+◌, ◌-◌, ◌*◌, ◌^◌, Bool, true, false, not, ◌&&◌, ◌||◌, List, [], ◌∷◌, ◌++◌, Option,
  none, some, ◌>>=◌, if◌then◌else◌, ltb, get_elem?, length, map,
}
use edge_frame.Platform.{Platform}
use edge_frame.Detection.{Maths, Prior}

-- The members that `postProcess` reads.
pub record FaceNet (P : Platform) : Type 0 where
  pub only_top1 : Bool
  pub soft_nms : Bool
  pub priori_anchors : List (Prior P)
  -- `dim_cls[1]`
  pub rows : ℕ
  pub ori_height : P.Float
  pub ori_width : P.Float
  pub score_threshold : P.Float
  pub mask_threshold : P.Float
  pub nms_threshold : P.Float
  pub least_percent_of_edge : P.Float

-- The entries 0 to 3 and 5 of a row of `bboxes_`; the index of the anchor is kept as a `float`.
pub record Row (P : Platform) : Type 0 where
  pub x1 : P.Float
  pub y1 : P.Float
  pub x2 : P.Float
  pub y2 : P.Float
  pub dex : P.Float

-- Entry 4, which the soft suppression changes, and the entry of `drop_flag`.
pub record Mark (P : Platform) : Type 0 where
  pub score : P.Float
  pub dropped : Bool

-- `Box`, the members that are set here.
pub record FaceBox (P : Platform) : Type 0 where
  pub x0 : P.Float
  pub y0 : P.Float
  pub x1 : P.Float
  pub y1 : P.Float
  pub score : P.Float
  pub with_mask : Bool
  pub points : List (P.Float × P.Float)

abbrev pub max_face_num : ℕ
max_face_num = 48

module _ {P : Platform} (F : Maths P) (n : FaceNet P) where
  open P use {
    Float, Double, f_zero, f_add, f_sub, f_mul, f_div, f_lt, f_of_int, int_of_f, d_add, d_mul,
    to_double, of_double,
  }

  -- `std::map<float, int, std::greater<float>>::insert`: a key that is there keeps its entry.
  unfoldable pub insert_score : Float → ℕ → List (Float × ℕ) → List (Float × ℕ)
  insert_score score i [] = (score, i) ∷ []
  insert_score score i ((key, k) ∷ rest) =
      if f_lt key score
      then (score, i) ∷ ((key, k) ∷ rest)
      else (if f_lt score key then (key, k) ∷ insert_score score i rest else (key, k) ∷ rest)

  -- The filter by score, with the rows of the output that are left.
  unfoldable pub filter_scores : List Float → ℕ → ℕ → List (Float × ℕ) → Option (List (Float × ℕ))
  filter_scores cls i zero filtered = some filtered
  filter_scores cls i (suc left) filtered = do
    score ← get_elem? cls (i * 2 + 1)
    filter_scores cls (suc i) left
        (if f_lt n.score_threshold score then insert_score score i filtered else filtered)

  -- `a * 0.1 * scale + centre` in `double`, back to `float`.
  abbrev pub shifted : Float → Float → Float → Float
  shifted a scale centre =
      of_double (
        d_add (d_mul (d_mul (to_double a) (F.d_literal 1000)) (to_double scale)) (to_double centre))

  -- `scale * std::exp(0.2 * a)`
  abbrev stretched : Float → Float → Float
  stretched a scale =
      of_double (d_mul (to_double scale) (F.d_exp (d_mul (F.d_literal 2000) (to_double a))))

  -- The body of the loop that fills `bboxes_`.
  unfoldable pub convert_row : List Float → ℕ → Option (Row P)
  convert_row box dex = do
    dx ← get_elem? box (dex * 4 + 0)
    dy ← get_elem? box (dex * 4 + 1)
    dw ← get_elem? box (dex * 4 + 2)
    dh ← get_elem? box (dex * 4 + 3)
    prior ← get_elem? n.priori_anchors dex
    let w = stretched dw prior.w
    let h = stretched dh prior.h
    let x1 = f_sub (shifted dx prior.w prior.x_center) (f_div w (f_of_int 2))
    let y1 = f_sub (shifted dy prior.h prior.y_center) (f_div h (f_of_int 2))
    some (record {
      x1 = f_mul x1 n.ori_width;
      y1 = f_mul y1 n.ori_height;
      x2 = f_mul (f_add w x1) n.ori_width;
      y2 = f_mul (f_add h y1) n.ori_height;
      dex = f_of_int dex;
    })

  -- The rows of `bboxes_` and the entries of `drop_flag` from `i` on that the loop over the map sets.
  -- Both arrays have room for `max_face_num`: a write past their end is an abort.
  unfoldable pub convert :
      List Float → ℕ → ℕ → List (Float × ℕ) → Option (List (Row P) × List (Mark P))
  convert box i zero filtered = some ([], [])
  convert box i (suc left) [] = none
  convert box i (suc left) ((score, dex) ∷ rest) = do
    row ← convert_row box dex
    stored ← if ltb i max_face_num then some row else none
    (rows, marks) ← convert box (suc i) left rest
    some (stored ∷ rows, record { score = score; dropped = false } ∷ marks)
