-- ===== src/Tests/Detections.antt =====
-- modules/api/src/Detect.cpp on the concrete platform: a model with its prior boxes, and two
-- overlapping boxes of one class.
use edge_frame.Prelude.{
  ℕ, ◌+◌, ◌≡◌, ◌≤◌, ◌<◌, refl, Bool, true, List, [], ◌∷◌, ◌++◌, some, arith, ltb, if◌then◌else◌,
  leb, count_if, All, All-implies, Bool-cases, inl, inr, length, map,
}
use edge_frame.Demo.{demo}
use edge_frame.Track.Detect.{Box}
use edge_frame.Detection.{Detect, Maths}
use edge_frame.Detection.Params.{e_ped_v3, set_json}
use edge_frame.Detection.Anchors.{set_json-anchors}
use edge_frame.Detection.Groups.{groups, absorbed, mark, Ordered, members, Clear}
use edge_frame.Detection.Nms.{NotBelow, Sorting, hard_nms, overlaps, hard_box, merge, nms_class}
use edge_frame.Detection.Nms.Keeps.{nms_class-Suppresses, Apart}
use edge_frame.Detection.Decode.{post_process}
use edge_frame.Detection.Decode.Total.{post_process_total}

abbrev pub maths : Maths demo
maths = record {
  f_literal = λ n. n;
  d_literal = λ n. n;
  f_exp = λ a. a + 100;
  d_exp = λ a. a + 100;
  f_le = leb;
}

insert_box : Box demo → List (Box demo) → List (Box demo)
insert_box b [] = b ∷ []
insert_box b (x ∷ xs) =
    let rest = insert_box b xs in if ltb x.score b.score then b ∷ (x ∷ xs) else x ∷ rest

insertion_sort : List (Box demo) → List (Box demo)
insertion_sort [] = []
insertion_sort (b ∷ bs) = insert_box b (insertion_sort bs)

count-insert_box :
    (q : Box demo → Bool) (b : Box demo) (xs : List (Box demo))
    → count_if q (insert_box b xs) ≡ count_if q (b ∷ xs)
unfolding insert_box
count-insert_box q b [] = refl
count-insert_box q b (x ∷ xs) = elim (Bool-cases (ltb x.score b.score)) [
  | inl e ↦ rw e refl
  | inr e ↦ rw e (omega (arith, count-insert_box q b xs))
]

count-insertion_sort :
    (q : Box demo → Bool) (xs : List (Box demo)) → count_if q (insertion_sort xs) ≡ count_if q xs
unfolding insertion_sort
count-insertion_sort q [] = refl
count-insertion_sort q (b ∷ bs) =
    omega (arith, count-insert_box q b (insertion_sort bs), count-insertion_sort q bs)

NotBelow-trans :
    (a b c : Box demo) → ltb b.score a.score ≡ true → NotBelow demo b c → NotBelow demo a c
NotBelow-trans a b c h k = ground arith

insert_box-All :
    (Q : Box demo → Type 0) (b : Box demo) (xs : List (Box demo))
    → Q b
    → All Q xs
    → All Q (insert_box b xs)
unfolding insert_box
insert_box-All Q b [] hb h = (hb, tt)
insert_box-All Q b (x ∷ xs) hb h = elim (Bool-cases (ltb x.score b.score)) [
  | inl e ↦ rw e (hb, h)
  | inr e ↦ rw e (h.0, insert_box-All Q b xs hb h.1)
]

insert_box-Ordered :
    (b : Box demo) (xs : List (Box demo))
    → Ordered (NotBelow demo) xs
    → Ordered (NotBelow demo) (insert_box b xs)
unfolding insert_box
insert_box-Ordered b [] h = (tt, tt)
insert_box-Ordered b (x ∷ xs) h = elim (Bool-cases (ltb x.score b.score)) [
  | inl e ↦ rw e (
    (
      ground arith,
      All-implies (NotBelow demo x) (NotBelow demo b) (λ y k. NotBelow-trans b x y e k) xs h.0,
    ),
    h,
  )
  | inr e ↦ rw e (insert_box-All (NotBelow demo x) b xs e h.0, insert_box-Ordered b xs h.1)
]

insertion_sort-Ordered : (xs : List (Box demo)) → Ordered (NotBelow demo) (insertion_sort xs)
unfolding insertion_sort
insertion_sort-Ordered [] = tt
insertion_sort-Ordered (b ∷ bs) =
    insert_box-Ordered b (insertion_sort bs) (insertion_sort-Ordered bs)

abbrev sorting : Sorting demo
sorting = record {
  sort = insertion_sort;
  count-sort = count-insertion_sort;
  sort-Ordered = insertion_sort-Ordered;
}

abbrev blank : Detect demo
blank = record {
  score_threshold = 0;
  iou_threshold = 0;
  num_of_class = 2;
  num_anchors = 1;
  image_h = 4;
  image_w = 4;
  input_height = 0;
  input_width = 0;
  featuremap_size = [];
  min_boxes = [];
  center_variance = 10;
  size_variance = 20;
  num_featuremap = 0;
  priors = [];
}

set_json-anchors_example :
    (r : Detect demo) × (set_json maths e_ped_v3 50 30 blank ≡ some r)
    × (length r.priors ≡ 0 + r.num_anchors)
set_json-anchors_example = set_json-anchors maths 50 30 blank e_ped_v3 (λ e. cc)

abbrev box_at : ℕ → ℕ → Box demo
box_at x score = record { x0 = x; y0 = 0; x1 = x + 400; y1 = 400; score = score; class_idx = 1 }

abbrev pair : List (Box demo)
pair = box_at 0 60 ∷ box_at 100 90 ∷ []

-- The box with the higher score is kept, and the other is not.
nms_class-pair : nms_class maths sorting 30 hard_nms 1 pair ≡ box_at 100 90 ∷ []
unfolding nms_class merge hard_box overlaps groups absorbed mark insertion_sort insert_box
nms_class-pair = refl

nms_class-Suppresses_example :
    (gs : List (Box demo × List (Box demo))) × (nms_class maths sorting 30 hard_nms 1 pair
      ≡ map (hard_box maths 1) gs)
    × ((q : Box demo → Bool) → count_if q (members gs) ≡ count_if q pair)
    × All (λ (g : Box demo × List (Box demo)). All (λ x. overlaps maths 30 g.0 x ≡ true) g.1) gs
    × All (λ (g : Box demo × List (Box demo)). All (NotBelow demo g.0) g.1) gs
    × Clear (overlaps maths 30) gs
nms_class-Suppresses_example = nms_class-Suppresses maths sorting 30 1 pair

abbrev one_anchor : Detect demo
one_anchor = record blank { priors = record { x_center = 50; y_center = 50; w = 50; h = 50 } ∷ [] }

post_process_total_example :
    (made : List (Box demo)) × (post_process maths one_anchor sorting
        (0 ∷ 0 ∷ 0 ∷ 0 ∷ [])
        (10 ∷ 90 ∷ [])
        []
      ≡ some ([] ++ made))
    × Apart maths sorting 0 made
    × All (λ b. (1 ≤ b.class_idx) × (b.class_idx < 2)) made
post_process_total_example =
    post_process_total maths one_anchor (0 ∷ 0 ∷ 0 ∷ 0 ∷ []) (10 ∷ 90 ∷ []) (omega arith) sorting []
      (omega arith)
