-- ===== src/Detection/Grid.antt =====
-- `FaceDetectWithMask::generate_anchors` and the constructor, modules/api/src/FaceDetectWithMask.cpp.
-- Heights and widths are whole numbers, and so small that `float` holds them and their product
-- exactly; the steps are powers of two, so that the quotients are exact, too.
use edge_frame.Prelude.{
  ℕ, zero, suc, ◌+◌, ◌-◌, ◌*◌, ◌/◌, ◌≡◌, ◌≤◌, List, [], ◌∷◌, ◌++◌, arith, map, length,
  length-append,
}
use edge_frame.Platform.{Platform}
use edge_frame.Detection.{Maths, Prior}

-- `std::ceil(a / b)`
unfoldable pub ceil_div : ℕ → ℕ → ℕ
ceil_div a b = (a + (b - 1)) / b

module _ {P : Platform} (F : Maths P) where
  open P use {Float, f_div, f_of_int, d_add, d_mul, d_div, to_double, of_double}

  -- `anchor_tmp` for the size `s` in the cell `(x, y)`. The code stores the quotients by the height
  -- and the width in this order, at 0 to 3.
  unfoldable pub anchor : ℕ → ℕ → ℕ → ℕ → ℕ → ℕ → Prior P
  anchor height width step x y s =
      let centre = λ (n : ℕ) (size : ℕ). of_double (
        d_div
          (d_mul (d_add (to_double (f_of_int n)) (F.d_literal 5000)) (to_double (f_of_int step)))
          (to_double (f_of_int size))) in
      record {
        x_center = centre y height;
        y_center = centre x width;
        w = f_div (f_of_int s) (f_of_int height);
        h = f_div (f_of_int s) (f_of_int width);
      }

  -- The loops over `y` and `x`, with the rounds that are left; no size is -1.
  unfoldable pub anchor_row : ℕ → ℕ → ℕ → List ℕ → ℕ → ℕ → ℕ → List (Prior P)
  anchor_row height width step sizes x y zero = []
  anchor_row height width step sizes x y (suc left) =
      map (anchor height width step x y) sizes ++ anchor_row height width step sizes x (suc y) left

  unfoldable pub anchor_map : ℕ → ℕ → ℕ → List ℕ → ℕ → ℕ → ℕ → List (Prior P)
  anchor_map height width step sizes cols x zero = []
  anchor_map height width step sizes cols x (suc left) =
      anchor_row height width step sizes x 0 cols
      ++ anchor_map height width step sizes cols (suc x) left

  -- The loop over the feature maps, for the steps and the sizes of each.
  unfoldable pub generate_anchors : ℕ → ℕ → List (ℕ × List ℕ) → List (Prior P)
  generate_anchors height width [] = []
  generate_anchors height width ((step, sizes) ∷ rest) =
      anchor_map height width step sizes (ceil_div width step) 0 (ceil_div height step)
      ++ generate_anchors height width rest

  unfoldable pub prepare_generate_anchor : ℕ → ℕ → List (Prior P)
  prepare_generate_anchor height width =
      generate_anchors height width
        ((8, 10 ∷ 20 ∷ []) ∷ (16, 32 ∷ 64 ∷ []) ∷ (32, 128 ∷ 256 ∷ []) ∷ [])

-- `feature_size` of the constructor, with `rect_area` = `height * width`.
unfoldable pub feature_size : ℕ → ℕ → ℕ
feature_size height width =
    let rect_area = height * width in
    (ceil_div rect_area 64 + ceil_div rect_area 256 + ceil_div rect_area 1024) * 2

module _ {P : Platform} (F : Maths P) (height width step : ℕ) (a b : ℕ) where
  length-anchor_row :
      (x y left : ℕ) → length (anchor_row F height width step (a ∷ b ∷ []) x y left) ≡ 2 * left
  unfolding anchor_row
  length-anchor_row x y zero = omega arith
  length-anchor_row x y (suc left) = omega (arith, length-anchor_row x (suc y) left)

  length-anchor_map :
      (cols x left : ℕ)
      → length (anchor_map F height width step (a ∷ b ∷ []) cols x left) ≡ left * (2 * cols)
  unfolding anchor_map
  length-anchor_map cols x zero = omega arith
  length-anchor_map cols x (suc left) =
      let row = anchor_row F height width step (a ∷ b ∷ []) x 0 cols in
      let rest = anchor_map F height width step (a ∷ b ∷ []) cols (suc x) left in
      grind (
        arith,
        length-append row rest,
        length-anchor_row x 0 cols,
        length-anchor_map cols (suc x) left,
      )

mul_mono : (a b c d : ℕ) → a ≤ c → b ≤ d → a * b ≤ c * d
mul_mono a b c d h k = grind arith

square_mul : (a b s : ℕ) → s * a * (s * b) ≡ s * s * (a * b)
square_mul a b s = grind arith

cells_le : (h w a b s : ℕ) → h ≤ s * a → w ≤ s * b → h * w ≤ s * s * (a * b)
cells_le h w a b s p q =
    let bound = mul_mono h w (s * a) (s * b) p q in omega (arith, square_mul a b s)

-- The cells of one feature map are at least as many as the constructor counts.
map_8 : (h w : ℕ) → ceil_div (h * w) 64 ≤ ceil_div h 8 * ceil_div w 8
unfolding ceil_div
map_8 h w = omega (arith, cells_le h w ((h + 7) / 8) ((w + 7) / 8) 8 (omega arith) (omega arith))

map_16 : (h w : ℕ) → ceil_div (h * w) 256 ≤ ceil_div h 16 * ceil_div w 16
unfolding ceil_div
map_16 h w =
    omega (arith, cells_le h w ((h + 15) / 16) ((w + 15) / 16) 16 (omega arith) (omega arith))

map_32 : (h w : ℕ) → ceil_div (h * w) 1024 ≤ ceil_div h 32 * ceil_div w 32
unfolding ceil_div
map_32 h w =
    omega (arith, cells_le h w ((h + 31) / 32) ((w + 31) / 32) 32 (omega arith) (omega arith))

twice : (a b : ℕ) → a * (2 * b) ≡ 2 * (a * b)
twice a b = grind arith

ruleset counts = (length-append, length-anchor_map, twice)

-- The constructor makes a prior box for every row of the network's outputs that it will read.
pub feature_size-le-anchors :
    {P : Platform} (F : Maths P) (height width : ℕ)
    → feature_size height width ≤ length (prepare_generate_anchor F height width)
unfolding feature_size prepare_generate_anchor generate_anchors
feature_size-le-anchors F height width =
    let a = map_8 height width in
    let b = map_16 height width in let c = map_32 height width in simp counts (omega arith)
