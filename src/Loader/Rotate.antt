-- ===== src/Loader/Rotate.antt =====
-- `rotateImage` of src/processor/UsbDeviceLoaderProcessor.cpp. OpenCV's images, `transpose` and `flip`
-- come from outside.
use edge_frame.Prelude.{ℕ, suc, ◌-◌, ◌≡◌, ◌<◌, ap, sym, ◌∙◌, if◌then◌else◌, nat_beq, arith}

-- `cv::Mat` with its pixels, `cv::transpose`, and `cv::flip` with the codes 0, 1 and -1.
pub record OpenCv : Type 1 where
  pub Image : Type 0
  pub Pixel : Type 0
  pub rows : Image → ℕ
  pub cols : Image → ℕ
  pub at : Image → ℕ → ℕ → Pixel
  pub transpose : Image → Image
  pub flip_rows : Image → Image
  pub flip_cols : Image → Image
  pub flip_both : Image → Image

-- `des_img` after the call, with the degree as an `int` pattern.
unfoldable pub rotate_image : (V : OpenCv) → ℕ → V.Image → V.Image
rotate_image V degree src_img =
    if nat_beq degree 90
    then V.flip_cols (V.transpose src_img)
    else (if nat_beq degree 180
        then V.flip_both src_img
        else (if nat_beq degree 270 then V.flip_rows (V.transpose src_img) else src_img))

-- What OpenCV documents of its operations, at each place of an image.
pub record OpenCvLaw (V : OpenCv) : Type 0 where
  pub transpose_size :
      (m : V.Image) → (V.rows (V.transpose m) ≡ V.cols m) × (V.cols (V.transpose m) ≡ V.rows m)
  pub transpose_at :
      (m : V.Image) (i j : ℕ) → i < V.cols m → j < V.rows m → V.at (V.transpose m) i j ≡ V.at m j i
  pub flip_rows_size :
      (m : V.Image) → (V.rows (V.flip_rows m) ≡ V.rows m) × (V.cols (V.flip_rows m) ≡ V.cols m)
  pub flip_rows_at :
      (m : V.Image) (i j : ℕ)
      → i < V.rows m
      → j < V.cols m
      → V.at (V.flip_rows m) i j ≡ V.at m (V.rows m - suc i) j
  pub flip_cols_size :
      (m : V.Image) → (V.rows (V.flip_cols m) ≡ V.rows m) × (V.cols (V.flip_cols m) ≡ V.cols m)
  pub flip_cols_at :
      (m : V.Image) (i j : ℕ)
      → i < V.rows m
      → j < V.cols m
      → V.at (V.flip_cols m) i j ≡ V.at m i (V.cols m - suc j)
  pub flip_both_size :
      (m : V.Image) → (V.rows (V.flip_both m) ≡ V.rows m) × (V.cols (V.flip_both m) ≡ V.cols m)
  pub flip_both_at :
      (m : V.Image) (i j : ℕ)
      → i < V.rows m
      → j < V.cols m
      → V.at (V.flip_both m) i j ≡ V.at m (V.rows m - suc i) (V.cols m - suc j)

module _ (V : OpenCv) where
  -- Two images of one size with the same pixels.
  pub record Looks (a b : V.Image) : Type 0 where
    pub same_rows : V.rows a ≡ V.rows b
    pub same_cols : V.cols a ≡ V.cols b
    pub same_pixels : (i j : ℕ) → i < V.rows b → j < V.cols b → V.at a i j ≡ V.at b i j

  module _ (L : OpenCvLaw V) where
    -- A turn by 90 degrees: the columns from the bottom up become the rows.
    turn_size :
        (m : V.Image)
        → (V.rows (rotate_image V 90 m) ≡ V.cols m) × (V.cols (rotate_image V 90 m) ≡ V.rows m)
    unfolding rotate_image
    turn_size m =
        let f = L.flip_cols_size (V.transpose m) in
        let t = L.transpose_size m in (f.0 ∙ t.0, f.1 ∙ t.1)

    turn_at :
        (m : V.Image) (i j : ℕ)
        → i < V.cols m
        → j < V.rows m
        → V.at (rotate_image V 90 m) i j ≡ V.at m (V.rows m - suc j) i
    unfolding rotate_image
    turn_at m i j hi hj =
        let t = L.transpose_size m in
        L.flip_cols_at (V.transpose m) i j (omega (arith, t.0)) (omega (arith, t.1))
        ∙ ap (λ c. V.at (V.transpose m) i (c - suc j)) t.1
        ∙ L.transpose_at m i (V.rows m - suc j) hi (omega arith)

    -- A turn by 270 degrees: the columns from the right become the rows.
    turn_back_size :
        (m : V.Image)
        → (V.rows (rotate_image V 270 m) ≡ V.cols m) × (V.cols (rotate_image V 270 m) ≡ V.rows m)
    unfolding rotate_image
    turn_back_size m =
        let f = L.flip_rows_size (V.transpose m) in
        let t = L.transpose_size m in (f.0 ∙ t.0, f.1 ∙ t.1)

    turn_back_at :
        (m : V.Image) (i j : ℕ)
        → i < V.cols m
        → j < V.rows m
        → V.at (rotate_image V 270 m) i j ≡ V.at m j (V.cols m - suc i)
    unfolding rotate_image
    turn_back_at m i j hi hj =
        let t = L.transpose_size m in
        L.flip_rows_at (V.transpose m) i j (omega (arith, t.0)) (omega (arith, t.1))
        ∙ ap (λ r. V.at (V.transpose m) (r - suc i) j) t.0
        ∙ L.transpose_at m (V.cols m - suc i) j (omega arith) hj

    turn-turn :
        (m : V.Image) → Looks (rotate_image V 90 (rotate_image V 90 m)) (rotate_image V 180 m)
    unfolding rotate_image
    turn-turn m =
        let b = L.flip_both_size m in
        let s = turn_size m in
        let s2 = turn_size (rotate_image V 90 m) in
        record {
          same_rows = s2.0 ∙ s.1 ∙ sym b.0;
          same_cols = s2.1 ∙ s.0 ∙ sym b.1;
          same_pixels = λ i j hi hj.
              let ri : i < V.rows m = omega (arith, hi, b.0) in
              let cj : j < V.cols m = omega (arith, hj, b.1) in
              turn_at (rotate_image V 90 m) i j (omega (arith, s.1)) (omega (arith, s.0))
              ∙ ap (λ r. V.at (rotate_image V 90 m) (r - suc j) i) s.0
              ∙ turn_at m (V.cols m - suc j) i (omega arith) ri
              ∙ sym (L.flip_both_at m i j ri cj);
        }

    -- Under what OpenCV documents, a turn by 270 degrees undoes one by 90, one by 90 undoes one by
    -- 270, and two by 90 look like one by 180, sizes and pixels.
    pub rotate_image-undone :
        (m : V.Image)
        → Looks (rotate_image V 270 (rotate_image V 90 m)) m
          × Looks (rotate_image V 90 (rotate_image V 270 m)) m
          × Looks (rotate_image V 90 (rotate_image V 90 m)) (rotate_image V 180 m)
    rotate_image-undone m =
        let s = turn_size m in
        let s2 = turn_back_size (rotate_image V 90 m) in
        let t = turn_back_size m in
        let t2 = turn_size (rotate_image V 270 m) in
        let back : Looks (rotate_image V 270 (rotate_image V 90 m)) m = record {
          same_rows = s2.0 ∙ s.1;
          same_cols = s2.1 ∙ s.0;
          same_pixels = λ i j hi hj.
              let twice : V.rows m - suc (V.rows m - suc i) ≡ i = omega arith in
              turn_back_at (rotate_image V 90 m) i j (omega (arith, s.1)) (omega (arith, s.0))
              ∙ ap (λ c. V.at (rotate_image V 90 m) j (c - suc i)) s.1
              ∙ turn_at m j (V.rows m - suc i) hj (omega arith)
              ∙ ap (λ r. V.at m r j) twice;
        } in
        let forth : Looks (rotate_image V 90 (rotate_image V 270 m)) m = record {
          same_rows = t2.0 ∙ t.1;
          same_cols = t2.1 ∙ t.0;
          same_pixels = λ i j hi hj.
              let twice : V.cols m - suc (V.cols m - suc j) ≡ j = omega arith in
              turn_at (rotate_image V 270 m) i j (omega (arith, t.1)) (omega (arith, t.0))
              ∙ ap (λ r. V.at (rotate_image V 270 m) (r - suc j) i) t.0
              ∙ turn_back_at m (V.cols m - suc j) i (omega arith) hi
              ∙ ap (V.at m i) twice;
        } in
        (back, forth, turn-turn m)
