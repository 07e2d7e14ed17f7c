-- ===== src/Tests/Faces.antt =====
-- modules/api/src/FaceDetectWithMask.cpp on the concrete platform.
use edge_frame.Prelude.{
  ℕ, ◌≡◌, ◌≤◌, refl, true, false, List, [], ◌∷◌, ◌++◌, some, arith, leb, All, length,
}
use edge_frame.Demo.{demo}
use edge_frame.Detection.{Prior}
use edge_frame.Detection.Groups.{Ordered}
use edge_frame.Detection.Face.{FaceNet, FaceBox, Row, Mark}
use edge_frame.Detection.Face.Drop.{clip_label_value, is_small, ratio, suppress, inner, drop_pass}
use edge_frame.Detection.Face.Drop.Kept.{
  kept, FirstDropped, drop_pass-FirstDropped, drop_pass-Clear,
}
use edge_frame.Detection.Face.Boxes.{face_post_process}
use edge_frame.Detection.Face.Boxes.Total.{FaceFits, face_post_process_total}
use edge_frame.Tests.Detections.{maths}

abbrev anchors : List (Prior demo)
anchors = record { x_center = 50; y_center = 50; w = 50; h = 50 } ∷ []

abbrev net : FaceNet demo
net = record {
  only_top1 = false;
  soft_nms = false;
  priori_anchors = anchors;
  rows = 1;
  ori_height = 10000;
  ori_width = 10000;
  score_threshold = 50;
  mask_threshold = 52;
  nms_threshold = 60;
  least_percent_of_edge = 5;
}

-- A face of 50 by 50, one beside it, and one of a single point.
abbrev large : Row demo
large = record { x1 = 0; y1 = 0; x2 = 5000; y2 = 5000; dex = 0 }

abbrev beside : Row demo
beside = record { x1 = 5000; y1 = 5000; x2 = 9000; y2 = 9000; dex = 0 }

abbrev tiny : Row demo
tiny = record { x1 = 0; y1 = 0; x2 = 100; y2 = 100; dex = 0 }

abbrev fresh : List (Mark demo)
fresh = record { score = 90; dropped = false } ∷ record { score = 80; dropped = false } ∷ []

drop_pass-tiny :
    drop_pass maths net (large ∷ tiny ∷ []) fresh
    ≡ record { score = 90; dropped = true } ∷ record { score = 80; dropped = true } ∷ []
unfolding drop_pass inner suppress is_small ratio clip_label_value
drop_pass-tiny = refl

drop_pass-beside : drop_pass maths net (large ∷ beside ∷ []) fresh ≡ fresh
unfolding drop_pass inner suppress is_small ratio clip_label_value
drop_pass-beside = refl

is_small-tiny : is_small maths net tiny ≡ true
unfolding is_small clip_label_value
is_small-tiny = refl

drop_pass-FirstDropped_example :
    FirstDropped maths net 2 (drop_pass maths net (large ∷ tiny ∷ []) fresh)
drop_pass-FirstDropped_example =
    drop_pass-FirstDropped maths net (large ∷ []) tiny [] fresh is_small-tiny refl

drop_pass-Clear_example :
    Ordered
      (λ ri rj. leb 60 (ratio maths net ri rj) ≡ false)
      (kept maths net (large ∷ beside ∷ []) (drop_pass maths net (large ∷ beside ∷ []) fresh))
    × All
        (λ r. is_small maths net r ≡ false)
        (kept maths net (large ∷ beside ∷ []) (drop_pass maths net (large ∷ beside ∷ []) fresh))
drop_pass-Clear_example = drop_pass-Clear maths net (large ∷ beside ∷ []) fresh refl refl

abbrev ten : List ℕ
ten = 0 ∷ 0 ∷ 0 ∷ 0 ∷ 0 ∷ 0 ∷ 0 ∷ 0 ∷ 0 ∷ 0 ∷ []

fits : FaceFits net (0 ∷ 0 ∷ 0 ∷ 0 ∷ []) (10 ∷ 90 ∷ []) ten (0 ∷ 60 ∷ [])
fits = record {
  boxes_given = omega arith;
  scores_given = omega arith;
  landmarks_given = omega arith;
  masks_given = omega arith;
  anchors_made = omega arith;
  exact = λ k h. omega arith;
}

face_post_process_total_example :
    (made : List (FaceBox demo)) × (face_post_process maths net
        (0 ∷ 0 ∷ 0 ∷ 0 ∷ [])
        (10 ∷ 90 ∷ [])
        ten
        (0 ∷ 60 ∷ [])
        []
      ≡ some ([] ++ made))
    × (length made ≤ 48)
face_post_process_total_example =
    face_post_process_total maths net (0 ∷ 0 ∷ 0 ∷ 0 ∷ []) (10 ∷ 90 ∷ []) ten (0 ∷ 60 ∷ []) fits []
