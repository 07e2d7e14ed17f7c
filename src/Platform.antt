-- ===== src/Platform.antt =====
-- What the program takes from its platform: floating point, the OpenCV rectangles and images, the
-- ReID network behind modules/interfaces/interface.h, the clock, and the assignment solver that
-- modules/track/src/Hungarian.cpp adapts from another project.
use edge_frame.Prelude.{ℕ, ◌*◌, ◌%◌, ◌^◌, Bool, List, Option}
use edge_frame.Metrics.{Metrics}

pub record Platform : Type 1 where
  -- `float` and `double`, with the operations that the program uses.
  pub Float : Type 0
  pub Double : Type 0
  pub f_zero : Float
  pub f_add : Float → Float → Float
  pub f_sub : Float → Float → Float
  pub f_mul : Float → Float → Float
  pub f_div : Float → Float → Float
  pub f_lt : Float → Float → Bool
  pub f_of_int : ℕ → Float
  pub int_of_f : Float → ℕ
  pub to_double : Float → Double
  pub of_double : Double → Float
  pub d_zero : Double
  pub d_one : Double
  pub d_epsilon : Double
  -- The literals 0.8 and 0.3.
  pub d_four_fifths : Double
  pub d_three_tenths : Double
  pub d_add : Double → Double → Double
  pub d_sub : Double → Double → Double
  pub d_mul : Double → Double → Double
  pub d_div : Double → Double → Double
  pub d_sqrt : Double → Double
  pub d_lt : Double → Double → Bool
  -- `cv::Mat`, read only.
  pub Mat : Type 0
  pub rows : Mat → ℕ
  pub cols : Mat → ℕ
  -- `cv::Rect_<float>` from `x`, `y`, `width` and `height`, with `operator&` and `area()`.
  pub Rect : Type 0
  pub rect : Float → Float → Float → Float → Rect
  pub rect_x : Rect → Float
  pub rect_y : Rect → Float
  pub rect_width : Rect → Float
  pub rect_height : Rect → Float
  pub inter : Rect → Rect → Rect
  pub area : Rect → Float
  -- The conversion to `cv::Rect`: `x`, `y`, `width` and `height` as `int` patterns.
  pub to_int_rect : Rect → ℕ × ℕ × ℕ × ℕ
  -- `whale::core::sdk::reid(image(rect), feature)`
  pub reid : Mat → Rect → List Float
  -- The n-th reading of the system clock, in milliseconds.
  pub clock : ℕ → ℕ
  -- `HungarianAlgorithm::Solve`: a column for each row, `none` for the code's -1.
  pub solve : List (List Double) → List (Option ℕ)

-- The state outside the tracker that its calls change: the metric table, and how often the clock
-- has been read.
pub record Env : Type 0 where
  pub metrics : Metrics
  pub reads : ℕ

-- `mat.rows * mat.cols` on `int`
abbrev pub pixels : (P : Platform) → P.Mat → ℕ
pixels P m = (P.rows m * P.cols m) % 2 ^ 32
