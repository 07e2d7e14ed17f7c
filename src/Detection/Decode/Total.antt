-- ===== src/Detection/Decode/Total.antt =====
-- `Detect::postProcess` on outputs that are long enough.
use edge_frame.Prelude.{
  ℕ, zero, suc, ◌+◌, ◌-◌, ◌*◌, ◌≡◌, ◌≤◌, ◌<◌, refl, List, [], ◌∷◌, ◌++◌, some, arith,
  get_elem?_total, All, All-implies, length, Bool-cases, inl, inr,
}
use edge_frame.Platform.{Platform}
use edge_frame.Track.Detect.{Box}
use edge_frame.Detection.{Detect, Maths}
use edge_frame.Detection.Nms.{Sorting, nms}
use edge_frame.Detection.Nms.Keeps.{Apart, Within, nms_from-Apart}
use edge_frame.Detection.Decode.{
  Offsets, offsets, decoded, candidate, class_boxes, all_boxes, generate_bbox, post_process,
}

-- What the network and `setJson` give: a prior box, four numbers and a score of each class for each
-- anchor.
pub record Fits {P : Platform} (d : Detect P) (boxes scores : List P.Float) : Type 0 where
  pub offsets_given : d.num_anchors * 4 ≤ length boxes
  pub scores_given : d.num_anchors * d.num_of_class ≤ length scores
  pub priors_made : d.num_anchors ≤ length d.priors

index_lt : (j n i a len : ℕ) → j < a → i < n → a * n ≤ len → j * n + i < len
index_lt j n i a len hj hi h = grind arith

module _ {P : Platform} (F : Maths P) (d : Detect P) (boxes scores : List P.Float)
    (fits : Fits d boxes scores) where
  offsets_total : (j : ℕ) → j < d.num_anchors → (o : Offsets P) × (offsets F d boxes j ≡ some o)
  unfolding offsets
  offsets_total j h =
      let given = fits.offsets_given in
      let (a, ea) = get_elem?_total boxes (j * 4) (omega arith) in
      let (b, eb) = get_elem?_total boxes (j * 4 + 1) (omega arith) in
      let (c, ec) = get_elem?_total boxes (j * 4 + 2) (omega arith) in
      let (e, ee) = get_elem?_total boxes (j * 4 + 3) (omega arith) in
      (record { dx = a; dy = b; dw = c; dh = e }, rw (ea, eb, ec, ee) refl)

  candidate_total :
      (i j : ℕ)
      → i < d.num_of_class
      → j < d.num_anchors
      → (bs : List (Box P)) × (candidate F d boxes scores i j ≡ some bs)
  unfolding candidate
  candidate_total i j hi hj =
      let (score, es) =
        get_elem?_total scores (j * d.num_of_class + i)
          (index_lt j d.num_of_class i d.num_anchors _ hj hi fits.scores_given) in
      let (o, eo) = offsets_total j hj in
      let made = fits.priors_made in
      let (prior, ep) = get_elem?_total d.priors j (omega arith) in
      elim (Bool-cases (P.f_lt d.score_threshold score)) [
        | inl e ↦ (decoded F d i score o prior ∷ [], rw (es, e, eo, ep) refl)
        | inr e ↦ ([], rw (es, e) refl)
      ]

  class_boxes_total :
      (i j left : ℕ)
      → i < d.num_of_class
      → j + left ≤ d.num_anchors
      → (bs : List (Box P)) × (class_boxes F d boxes scores i j left ≡ some bs)
  unfolding class_boxes
  class_boxes_total i j zero hi hj = ([], refl)
  class_boxes_total i j (suc left) hi hj =
      let (bs, eb) = candidate_total i j hi (omega arith) in
      let (rest, er) = class_boxes_total i (suc j) left hi (omega arith) in
      (bs ++ rest, rw (eb, er) refl)

  all_boxes_total :
      (i left : ℕ)
      → i + left ≤ d.num_of_class
      → (bss : List (List (Box P))) × (all_boxes F d boxes scores i left ≡ some bss)
        × (length bss ≡ left)
  unfolding all_boxes
  all_boxes_total i zero h = ([], refl, refl)
  all_boxes_total i (suc left) h =
      let (bs, eb) = class_boxes_total i 0 d.num_anchors (omega arith) (omega arith) in
      let (rest, er, n) = all_boxes_total (suc i) left (omega arith) in
      (bs ∷ rest, rw (eb, er) refl, omega arith)

  -- On outputs that are long enough for `num_anchors` and `num_of_class`, and with at least
  -- `num_anchors` prior boxes made, `postProcess` reads nothing out of range. It adds boxes of the
  -- classes 1 to `num_of_class` - 1 to its result, none of which overlaps a later one of its class by
  -- more than the threshold.
  pub post_process_total :
      (S : Sorting P) (output_boxes : List (Box P))
      → 0 < d.num_of_class
      → (made : List (Box P)) × (post_process F d S boxes scores output_boxes
          ≡ some (output_boxes ++ made))
        × Apart F S d.iou_threshold made
        × All (λ b. (1 ≤ b.class_idx) × (b.class_idx < d.num_of_class)) made
  unfolding post_process generate_bbox nms
  post_process_total S output_boxes h =
      let (bss, eb, n) = all_boxes_total 1 (d.num_of_class - 1) (omega arith) in
      let (made, em, apart, within) =
        nms_from-Apart F S d.iou_threshold bss 1 (d.num_of_class - 1) (omega arith) (omega arith) in
      (
        made,
        rw (eb, em) refl,
        apart,
        All-implies (Within F S d.iou_threshold 1 (d.num_of_class - 1)) _ (λ b w. omega arith) made
            within,
      )
