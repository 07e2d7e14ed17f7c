-- ===== src/Detection/Nms.antt =====
-- `Detect::nms` of modules/api/src/Detect.cpp: of the boxes of a class that overlap, one is kept.
pub mod Keeps
use edge_frame.Prelude.{
  ℕ, zero, suc, ◌-◌, ◌≡◌, Bool, false, not, ◌&&◌, ◌||◌, List, [], ◌∷◌, ◌++◌, Option, some, ◌>>=◌,
  if◌then◌else◌, get_elem?, map, count_if, All,
}
use edge_frame.Platform.{Platform}
use edge_frame.Track.Detect.{Box}
use edge_frame.Detection.{Detect, Maths}
use edge_frame.Detection.Groups.{groups, none_merged, Ordered}

pub data NmsType : Type 0 where
  hard_nms blending_nms : NmsType

-- `a` does not come after `b` in the order of `std::sort`.
abbrev pub NotBelow : (P : Platform) → Box P → Box P → Type 0
NotBelow P a b = P.f_lt a.score b.score ≡ false

-- `std::sort` by descending score, which may leave equal scores in any order. The scores are no
-- NaNs: those pass no threshold.
pub record Sorting (P : Platform) : Type 0 where
  pub sort : List (Box P) → List (Box P)
  pub count-sort : (q : Box P → Bool) (xs : List (Box P)) → count_if q (sort xs) ≡ count_if q xs
  pub sort-Ordered : (xs : List (Box P)) → Ordered (NotBelow P) (sort xs)

module _ {P : Platform} (F : Maths P) where
  open P use {Float, f_add, f_sub, f_mul, f_div, f_lt, f_zero}

  abbrev one : Float
  one = P.f_of_int 1

  -- `a > b ? a : b` and `a < b ? a : b`
  abbrev larger : Float → Float → Float
  larger a b = if f_lt b a then a else b

  abbrev smaller : Float → Float → Float
  smaller a b = if f_lt a b then a else b

  -- `to - from + 1`
  abbrev span : Float → Float → Float
  span from to = f_add (f_sub to from) one

  -- Whether `input[j]` is merged into `input[i]`.
  unfoldable pub overlaps : Float → Box P → Box P → Bool
  overlaps iou_threshold bi bj =
      let area0 = f_mul (span bi.y0 bi.y1) (span bi.x0 bi.x1) in
      let inner_h = span (larger bi.y0 bj.y0) (smaller bi.y1 bj.y1) in
      let inner_w = span (larger bi.x0 bj.x0) (smaller bi.x1 bj.x1) in
      let inner_area = f_mul inner_h inner_w in
      let area1 = f_mul (span bj.y0 bj.y1) (span bj.x0 bj.x1) in
      not (F.f_le inner_h f_zero || F.f_le inner_w f_zero)
      && f_lt iou_threshold (f_div inner_area (f_sub (f_add area0 area1) inner_area))

  unfoldable pub hard_box : ℕ → Box P × List (Box P) → Box P
  hard_box c buf = record {
    x0 = (buf.0).x0;
    y0 = (buf.0).y0;
    x1 = (buf.0).x1;
    y1 = (buf.0).y1;
    score = (buf.0).score;
    class_idx = c;
  }

  -- `total += exp(buf[i].score)`
  unfoldable pub total_weight : Float → List (Box P) → Float
  total_weight total [] = total
  total_weight total (b ∷ bs) = total_weight (f_add total (F.f_exp b.score)) bs

  unfoldable pub blend : Float → Box P → List (Box P) → Box P
  blend total rects [] = rects
  blend total rects (b ∷ bs) =
      let rate = f_div (F.f_exp b.score) total in
      blend total
        (record rects {
          x0 = f_add rects.x0 (f_mul b.x0 rate);
          y0 = f_add rects.y0 (f_mul b.y0 rate);
          x1 = f_add rects.x1 (f_mul b.x1 rate);
          y1 = f_add rects.y1 (f_mul b.y1 rate);
          score = f_add rects.score (f_mul b.score rate);
        })
        bs

  unfoldable pub blended_box : ℕ → Box P × List (Box P) → Box P
  blended_box c buf =
      let all = buf.0 ∷ buf.1 in
      let zeros : Box P = record {
        x0 = f_zero;
        y0 = f_zero;
        x1 = f_zero;
        y1 = f_zero;
        score = f_zero;
        class_idx = 0;
      } in
      record (blend (total_weight f_zero all) zeros all) { class_idx = c }

  -- The `switch`, whose `default` no value of `NMSTYPE` reaches.
  unfoldable pub merge : NmsType → ℕ → Box P × List (Box P) → Box P
  merge hard_nms c buf = hard_box c buf
  merge blending_nms c buf = blended_box c buf

  -- The boxes that are pushed for one class.
  unfoldable pub nms_class : Sorting P → Float → NmsType → ℕ → List (Box P) → List (Box P)
  nms_class S iou_threshold type c proposals =
      let input = S.sort proposals in
      map (merge type c) (groups (overlaps iou_threshold) input (none_merged input))

  -- The loop over `c`, with the classes that are left; `none` is an access out of range.
  unfoldable pub nms_from :
      Sorting P → Float → NmsType → List (List (Box P)) → ℕ → ℕ → Option (List (Box P))
  nms_from S iou_threshold type proposal_boxes c zero = some []
  nms_from S iou_threshold type proposal_boxes c (suc left) = do
    proposals ← get_elem? proposal_boxes (c - 1)
    rest ← nms_from S iou_threshold type proposal_boxes (suc c) left
    some (nms_class S iou_threshold type c proposals ++ rest)

  unfoldable pub nms :
      Sorting P → Detect P → NmsType → List (List (Box P)) → List (Box P) → Option (List (Box P))
  nms S d type proposal_boxes output_boxes = do
    made ← nms_from S d.iou_threshold type proposal_boxes 1 (d.num_of_class - 1)
    some (output_boxes ++ made)
