-- ===== src/Detection/Face/Boxes/Total.antt =====
-- `FaceDetectWithMask::postProcess` on outputs that are long enough.
use edge_frame.Prelude.{
  ℕ, zero, suc, ◌+◌, ◌*◌, ◌≡◌, ◌≤◌, ◌<◌, refl, ap, sym, List, [], ◌∷◌, ◌++◌, some, arith,
  if◌then◌else◌, nat_beq, get_elem?_total, All, length, append-nil, lt→ltb, Bool-cases, inl, inr,
  if_cases,
}
use edge_frame.Platform.{Platform}
use edge_frame.Detection.{Maths, Prior}
use edge_frame.Detection.Face.{
  FaceNet, FaceBox, Row, Mark, insert_score, filter_scores, convert_row, convert,
}
use edge_frame.Detection.Face.Drop.{drop_pass}
use edge_frame.Detection.Face.Boxes.{
  landmark, landmarks, face_box, face_boxes, max_num, face_post_process,
}

-- What the network gives for each of its rows. A `float` holds the index of a row exactly.
pub record FaceFits {P : Platform} (n : FaceNet P) (box cls land mask : List P.Float) : Type 0 where
  pub boxes_given : n.rows * 4 ≤ length box
  pub scores_given : n.rows * 2 ≤ length cls
  pub landmarks_given : n.rows * 10 ≤ length land
  pub masks_given : n.rows * 2 ≤ length mask
  pub anchors_made : n.rows ≤ length n.priori_anchors
  pub exact : (k : ℕ) → k < n.rows → P.int_of_f (P.f_of_int k) ≡ k

module _ {P : Platform} (F : Maths P) (n : FaceNet P) where
  abbrev Entry : Type 0
  Entry = P.Float × ℕ

  abbrev Indexed : Entry → Type 0
  Indexed e = e.1 < n.rows

  insert_score-Indexed :
      (score : P.Float) (i : ℕ) (filtered : List Entry)
      → i < n.rows
      → All Indexed filtered
      → All Indexed (insert_score F n score i filtered)
  unfolding insert_score
  insert_score-Indexed score i [] h k = (h, tt)
  insert_score-Indexed score i ((key, j) ∷ rest) h k =
      let later = insert_score-Indexed score i rest h k.1 in
      if_cases (λ l. All Indexed l) (P.f_lt key score) (λ _. (h, k))
        (λ _. if_cases (λ l. All Indexed l) (P.f_lt score key) (λ _. (k.0, later)) (λ _. k))

  module _ (box cls land mask : List P.Float) (fits : FaceFits n box cls land mask) where
    filter_scores_total :
        (i left : ℕ) (filtered : List Entry)
        → i + left ≤ n.rows
        → All Indexed filtered
        → (found : List Entry) × (filter_scores F n cls i left filtered ≡ some found)
          × All Indexed found
    unfolding filter_scores
    filter_scores_total i zero filtered h k = (filtered, refl, k)
    filter_scores_total i (suc left) filtered h k =
        let given = fits.scores_given in
        let (score, es) = get_elem?_total cls (i * 2 + 1) (omega arith) in
        let kept : All Indexed (
            if P.f_lt n.score_threshold score
            then insert_score F n score i filtered
            else filtered) =
          if_cases (λ l. All Indexed l) (P.f_lt n.score_threshold score)
            (λ _. insert_score-Indexed score i filtered (omega arith) k) (λ _. k) in
        let (found, ef, q) = filter_scores_total (suc i) left _ (omega arith) kept in
        (found, rw es ef, q)

    -- The row keeps the index of an anchor.
    abbrev IsIndexed : Row P → Type 0
    IsIndexed r = (k : ℕ) × (k < n.rows) × (r.dex ≡ P.f_of_int k)

    convert_row_total :
        (dex : ℕ)
        → dex < n.rows
        → (r : Row P) × (convert_row F n box dex ≡ some r) × (r.dex ≡ P.f_of_int dex)
    unfolding convert_row
    convert_row_total dex h =
        let given = fits.boxes_given in
        let made = fits.anchors_made in
        let (a, ea) = get_elem?_total box (dex * 4 + 0) (omega arith) in
        let (b, eb) = get_elem?_total box (dex * 4 + 1) (omega arith) in
        let (c, ec) = get_elem?_total box (dex * 4 + 2) (omega arith) in
        let (e, ee) = get_elem?_total box (dex * 4 + 3) (omega arith) in
        let (prior, ep) = get_elem?_total n.priori_anchors dex (omega arith) in
        rw (ea, eb, ec, ee, ep) (_, refl, refl)

    abbrev Converted : ℕ → List (Row P) × List (Mark P) → Type 0
    Converted left x = (length x.0 ≡ left) × (length x.1 ≡ left) × All IsIndexed x.0

    convert_total :
        (i left : ℕ) (filtered : List Entry)
        → left ≤ length filtered
        → i + left ≤ 48
        → All Indexed filtered
        → (x : List (Row P) × List (Mark P)) × (convert F n box i left filtered ≡ some x)
          × Converted left x
    unfolding convert
    convert_total i zero filtered h s k = (([], []), refl, (refl, refl, tt))
    convert_total i (suc left) [] h s k = absurd (omega arith)
    convert_total i (suc left) ((score, dex) ∷ rest) h s k =
        let (row, er, d) = convert_row_total dex k.0 in
        let (x, ex, (lr, lm, q)) =
          convert_total (suc i) left rest (omega arith) (omega arith) k.1 in
        rw (er, lt→ltb i 48 (omega arith), ex)
          (_, refl, (omega arith, omega arith, ((dex, k.0, d), q)))

    landmarks_total :
        (dex : ℕ) (prior : Prior P) (j left : ℕ)
        → dex < n.rows
        → j + left ≤ 5
        → (ps : List (P.Float × P.Float)) × (landmarks F n land dex prior j left ≡ some ps)
    unfolding landmarks landmark
    landmarks_total dex prior j zero h k = ([], refl)
    landmarks_total dex prior j (suc left) h k =
        let given = fits.landmarks_given in
        let (x, ex) = get_elem?_total land (dex * 10 + j * 2 + 0) (omega arith) in
        let (y, ey) = get_elem?_total land (dex * 10 + j * 2 + 1) (omega arith) in
        let (ps, ep) = landmarks_total dex prior (suc j) left h (omega arith) in
        rw (ex, ey, ep) (_, refl)

    face_box_total :
        (r : Row P) (m : Mark P)
        → IsIndexed r
        → (b : FaceBox P) × (face_box F n land mask r m ≡ some b)
    unfolding face_box
    face_box_total r m (k, h, e) =
        let made = fits.anchors_made in
        let given = fits.masks_given in
        let (masked, em) = get_elem?_total mask (k * 2 + 1) (omega arith) in
        let (prior, ep) = get_elem?_total n.priori_anchors k (omega arith) in
        let (ps, el) = landmarks_total k prior 0 5 h (omega arith) in
        rw (e, fits.exact k h, em, ep, el) (_, refl)

    face_boxes_total :
        (rows : List (Row P)) (marks : List (Mark P))
        → All IsIndexed rows
        → (made : List (FaceBox P)) × (face_boxes F n land mask rows marks ≡ some made)
          × (length made ≤ length rows)
    unfolding face_boxes
    face_boxes_total [] marks h = ([], refl, omega arith)
    face_boxes_total (r ∷ rows) [] h = ([], refl, omega arith)
    face_boxes_total (r ∷ rows) (m ∷ marks) h =
        let (made, e, l) = face_boxes_total rows marks h.1 in
        let (b, eb) = face_box_total r m h.0 in
        elim (Bool-cases m.dropped) [
          | inl k ↦ rw (k, e) (_, refl, omega arith)
          | inr k ↦ rw (eb, k, e) (_, refl, omega arith)
        ]

    max_num_bounds :
        (filtered : List Entry)
        → 0 < length filtered
        → (max_num F n filtered ≤ length filtered) × (max_num F n filtered ≤ 48)
    unfolding max_num
    max_num_bounds filtered h = ground arith

    -- On outputs that are long enough for their rows, with an anchor made for every row, and where a
    -- `float` holds the index of every row exactly, `postProcess` reads nothing out of range in the
    -- outputs and the anchors and writes nothing past the 48 rows of `bboxes_`; it adds at most 48
    -- faces to its result.
    pub face_post_process_total :
        (info : List (FaceBox P))
        → (made : List (FaceBox P)) × (face_post_process F n box cls land mask info
            ≡ some (info ++ made))
          × (length made ≤ 48)
    unfolding face_post_process
    face_post_process_total info =
        let (filtered, ef, q) = filter_scores_total 0 n.rows [] (omega arith) tt in
        elim (Bool-cases (nat_beq (length filtered) 0)) [
          | inl k ↦ rw (ef, k) ([], ap some (sym (append-nil info)), omega arith)
          | inr k ↦
              let (few, bound) = max_num_bounds filtered (ground arith) in
              let (x, ex, (lr, lm, d)) =
                convert_total 0 (max_num F n filtered) filtered few (omega arith) q in
              let (made, em, l) = face_boxes_total x.0 (drop_pass F n x.0 x.1) d in
              rw (ef, k, ex, em) (made, refl, omega arith)
        ]
