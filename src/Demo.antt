-- ===== src/Demo.antt =====
-- A concrete platform and concrete values, on which the definitions run: numbers for `float` and
-- `double` in hundredths, a solver that assigns row i to column i, a ReID that answers one number.
use edge_frame.Prelude.{ℕ, suc, ◌+◌, ◌-◌, ◌*◌, ◌/◌, true, List, [], ◌∷◌, Option, none, some}
use edge_frame.Prelude.{if◌then◌else◌, ltb, length}
use edge_frame.Metrics.{no_metrics}
use edge_frame.Platform.{Platform, Env}
use edge_frame.Track.Person.{BBoxMessage, PersonObject, Raw, Thresholds, Tracker, person_object}
use edge_frame.Track.Update.{Updated}

pub record Rect : Type 0 where
  pub x : ℕ
  pub y : ℕ
  pub width : ℕ
  pub height : ℕ

abbrev pub max_of : ℕ → ℕ → ℕ
max_of a b = if ltb a b then b else a

abbrev pub min_of : ℕ → ℕ → ℕ
min_of a b = if ltb a b then a else b

-- The interval that two intervals share, as a start and a length.
abbrev pub shared : ℕ → ℕ → ℕ → ℕ → ℕ × ℕ
shared a m b n = (max_of a b, min_of (a + m) (b + n) - max_of a b)

abbrev pub overlap : Rect → Rect → Rect
overlap r s = record {
  x = (shared r.x r.width s.x s.width).0;
  y = (shared r.y r.height s.y s.height).0;
  width = (shared r.x r.width s.x s.width).1;
  height = (shared r.y r.height s.y s.height).1;
}

-- Row i to column i, as far as there is one.
abbrev pub diagonal : ℕ → List (List ℕ) → List (Option ℕ)
diagonal i [] = []
diagonal i (row ∷ rows) = (if ltb i (length row) then some i else none) ∷ diagonal (suc i) rows

abbrev pub demo : Platform
demo = record {
  Float = ℕ;
  Double = ℕ;
  f_zero = 0;
  f_add = λ a b. a + b;
  f_sub = λ a b. a - b;
  f_mul = λ a b. a * b / 100;
  f_div = λ a b. a * 100 / b;
  f_lt = ltb;
  f_of_int = λ n. n * 100;
  int_of_f = λ a. a / 100;
  to_double = λ a. a;
  of_double = λ a. a;
  d_zero = 0;
  d_one = 100;
  d_epsilon = 1;
  d_four_fifths = 80;
  d_three_tenths = 30;
  d_add = λ a b. a + b;
  d_sub = λ a b. a - b;
  d_mul = λ a b. a * b / 100;
  d_div = λ a b. a * 100 / b;
  d_sqrt = λ a. a;
  d_lt = ltb;
  Mat = ℕ;
  rows = λ m. m;
  cols = λ m. m;
  Rect = Rect;
  rect = λ a b c d. record { x = a; y = b; width = c; height = d };
  rect_x = λ r. r.x;
  rect_y = λ r. r.y;
  rect_width = λ r. r.width;
  rect_height = λ r. r.height;
  inter = overlap;
  area = λ r. r.width * r.height / 100;
  to_int_rect = λ r. (r.x / 100, r.y / 100, r.width / 100, r.height / 100);
  reid = λ m r. r.width ∷ [];
  clock = λ n. 5 * n;
  solve = diagonal 0;
}

abbrev pub env : Env
env = record { metrics = no_metrics; reads = 0 }

-- `tracker.h`, in hundredths.
abbrev pub defaults : Thresholds demo
defaults = record {
  iou_thresh = 45;
  cos_similarity_thresh = 50;
  hit_num_thresh = 3;
  trajectory_size = 100;
  feature_vec_size = 10;
  body_bbox_area_bigger_than_thresh_frame_interval = 10;
  lost_track_thresh = 10;
  expired_to_delete_thresh = 100;
  feature_extract_thresh = 2;
  bbox_area_extract_feature_thresh = 9;
  body_residence_area_thresh = 6;
  valid_leave_with_reid = true;
}

-- A box of 1 by 1 at `(x, 0)`, seen in frame `frame_id`.
abbrev pub box : ℕ → ℕ → BBoxMessage demo
box frame_id x = record {
  update_timestamp = 40 * frame_id;
  update_frame_id = frame_id;
  score = 90;
  bbox_rect = record { x = x; y = 0; width = 100; height = 100 };
}

-- Memory that happens to hold zeros.
abbrev pub zeros : Raw demo
zeros = record {
  prev_timestamp = 0;
  prev_frame_id = 0;
  first_face = box 0 0;
  first_body = box 0 0;
  last_face = box 0 0;
  last_body = box 0 0;
  feature_timestamp = 0;
  feature_frame_id = 0;
}

-- A detection with a body and no face.
unfoldable pub walker : ℕ → ℕ → PersonObject demo
unfolding person_object
walker frame_id x = person_object demo zeros none (some (box frame_id x)) 0

abbrev pub idle : Tracker demo
idle = record {
  cur_process_frame_id = 0;
  cur_process_frame_timestamp = 0;
  cur_process_frame_mat = 2;
  tracked = [];
  expired = [];
  global_id = 0;
  thresholds = defaults;
}

abbrev pub outcome : Option (Updated demo) → Updated demo
outcome (some u) = u
outcome none = record {
  tracker = idle;
  dets = [];
  iou_not_matched = [];
  expired_objects = [];
  valid_leave = [];
  env = env;
}
