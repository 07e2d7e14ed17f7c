-- ===== src/Track/Detect/Visible.antt =====
-- Boxes within the image make detections that the ReID network can be asked about.
use edge_frame.Prelude.{
  ℕ, ◌≡◌, true, List, [], ◌∷◌, ◌++◌, none, nat_beq, length, All, All-append, if_cases,
}
use edge_frame.Platform.{Platform}
use edge_frame.Track.Person.{PersonObject, Raw, person_object}
use edge_frame.Track.Detect.{
  Box, box_rect, convert_box_to_bbox_message, made_person, cvt_det_to_ped,
}
use edge_frame.Track.Matching.Cells.{HasPixels, IsVisible}

module _ (P : Platform) (frame : P.Mat) where
  -- A body's box lies in the image and has pixels.
  abbrev pub IsInside : ℕ → Box P → Type 0
  IsInside cls_ped b = nat_beq b.class_idx cls_ped ≡ true → HasPixels P frame (box_rect P b)

  module _ (raw : ℕ → Raw P) (cls_face cls_ped timestamp frame_id : ℕ) where
    pub cvt_det_to_ped-IsVisible :
        (boxes : List (Box P)) (persons : List (PersonObject P))
        → All (IsInside cls_ped) boxes
        → All (IsVisible P frame) persons
        → All
            (IsVisible P frame)
            (cvt_det_to_ped P raw cls_face cls_ped timestamp frame_id boxes persons)
    unfolding cvt_det_to_ped made_person person_object convert_box_to_bbox_message
    cvt_det_to_ped-IsVisible [] persons h v = v
    cvt_det_to_ped-IsVisible (b ∷ bs) persons h v =
        if_cases (All (IsVisible P frame)) (nat_beq b.class_idx cls_ped)
          (λ q.
            cvt_det_to_ped-IsVisible bs
              (persons
                ++ (made_person P raw cls_face cls_ped timestamp frame_id (length persons) none b
                    ∷ []))
              h.1 (All-append (IsVisible P frame) persons _ v (h.0 q, tt)))
          (λ q. cvt_det_to_ped-IsVisible bs persons h.1 v)
