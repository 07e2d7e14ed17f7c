-- ===== src/Detection/Face/Boxes.antt =====
-- The last loop of `FaceDetectWithMask::postProcess`, modules/api/src/FaceDetectWithMask.cpp, and the
-- whole of it.
pub mod Total
use edge_frame.Prelude.{
  ℕ, zero, suc, ◌+◌, ◌*◌, Bool, List, [], ◌∷◌, ◌++◌, Option, none, some, ◌>>=◌, if◌then◌else◌, ltb,
  get_elem?, length, nat_beq,
}
use edge_frame.Platform.{Platform}
use edge_frame.Detection.{Maths, Prior}
use edge_frame.Detection.Face.{
  FaceNet, FaceBox, Row, Mark, max_face_num, shifted, filter_scores, convert,
}
use edge_frame.Detection.Face.Drop.{clip_label_value, drop_pass}

module _ {P : Platform} (F : Maths P) (n : FaceNet P) where
  open P use {Float, f_mul, int_of_f}

  -- A landmark, in the image.
  unfoldable pub landmark : List Float → ℕ → Prior P → ℕ → Option (Float × Float)
  landmark land dex prior j = do
    x ← get_elem? land (dex * 10 + j * 2 + 0)
    y ← get_elem? land (dex * 10 + j * 2 + 1)
    some (
      clip_label_value F n (f_mul (shifted F n x prior.w prior.x_center) n.ori_width) n.ori_width,
      clip_label_value F n (f_mul (shifted F n y prior.h prior.y_center) n.ori_height) n.ori_height,
    )

  unfoldable pub landmarks : List Float → ℕ → Prior P → ℕ → ℕ → Option (List (Float × Float))
  landmarks land dex prior j zero = some []
  landmarks land dex prior j (suc left) = do
    p ← landmark land dex prior j
    rest ← landmarks land dex prior (suc j) left
    some (p ∷ rest)

  -- The box of a row that was not dropped.
  unfoldable pub face_box : List Float → List Float → Row P → Mark P → Option (FaceBox P)
  face_box land mask r m = do
    let dex = int_of_f r.dex
    masked ← get_elem? mask (dex * 2 + 1)
    prior ← get_elem? n.priori_anchors dex
    points ← landmarks land dex prior 0 5
    some (record {
      x0 = r.x1;
      y0 = r.y1;
      x1 = r.x2;
      y1 = r.y2;
      score = m.score;
      with_mask = F.f_le n.mask_threshold masked;
      points = points;
    })

  -- The last loop.
  unfoldable pub face_boxes :
      List Float → List Float → List (Row P) → List (Mark P) → Option (List (FaceBox P))
  face_boxes land mask (r ∷ rs) (m ∷ ms) = do
    let here : Option (List (FaceBox P)) = do b ← face_box land mask r m; some (b ∷ [])
    boxes ← if m.dropped then some [] else here
    rest ← face_boxes land mask rs ms
    some (boxes ++ rest)
  face_boxes land mask _ ms = some []

  -- `std::min(only_top1_ ? 1 : size, kMaxFaceDetNum)`
  unfoldable pub max_num : List (Float × ℕ) → ℕ
  max_num filtered =
      let wanted = if n.only_top1 then 1 else length filtered in
      if ltb max_face_num wanted then max_face_num else wanted

  unfoldable pub face_post_process :
      List Float
      → List Float
      → List Float
      → List Float
      → List (FaceBox P)
      → Option (List (FaceBox P))
  face_post_process box cls land mask info = do
    filtered ← filter_scores F n cls 0 n.rows []
    let found : Option (List (FaceBox P)) = do
      (rows, marks) ← convert F n box 0 (max_num filtered) filtered
      made ← face_boxes land mask rows (drop_pass F n rows marks)
      some (info ++ made)
    if nat_beq (length filtered) 0 then some info else found
