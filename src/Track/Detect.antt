-- ===== src/Track/Detect.antt =====
-- modules/track/src/TrackObjectInterface.cpp: the boxes of a frame become the tracker's detections,
-- a face joined to the bodies that it lies in.
pub mod Bodies
pub mod Visible
use edge_frame.Prelude.{
  ℕ, zero, suc, minus_one, Bool, true, false, not, ◌&&◌, ◌||◌, List, [], ◌∷◌, ◌++◌,
}
use edge_frame.Prelude.{Option, none, some, if◌then◌else◌, nat_beq, length, get_elem?, set, map}
use edge_frame.Platform.{Platform}
use edge_frame.Track.Person.{BBoxMessage, PersonObject, Raw, person_object}

-- modules/interfaces/AlgoData.h, the members that are read here.
pub record Box (P : Platform) : Type 0 where
  pub x0 : P.Float
  pub y0 : P.Float
  pub x1 : P.Float
  pub y1 : P.Float
  pub score : P.Float
  pub class_idx : ℕ

module _ (P : Platform) where
  open P use {Float, rect, inter, area, f_sub, f_mul, f_lt, to_double, d_one, d_mul, d_div, d_lt}

  abbrev pub box_rect : Box P → P.Rect
  box_rect b = rect b.x0 b.y0 (f_sub b.x1 b.x0) (f_sub b.y1 b.y0)

  unfoldable pub is_face_and_body_match : Box P → Box P → Bool
  is_face_and_body_match face body = d_lt P.d_four_fifths (
      d_div (d_mul d_one (to_double (area (inter (box_rect face) (box_rect body)))))
        (to_double (area (box_rect face))))

  unfoldable pub convert_box_to_bbox_message : Box P → ℕ → ℕ → BBoxMessage P
  convert_box_to_bbox_message object_box update_timestamp update_frame_id = record {
    update_timestamp = update_timestamp;
    update_frame_id = update_frame_id;
    score = object_box.score;
    bbox_rect = box_rect object_box;
  }

-- The boxes with their entries of `match_table`, and the objects made so far. The n-th object that
-- is made finds the memory of its unset members as `raw n`.
pub record Pairing (P : Platform) : Type 0 where
  pub boxes : List (Box P × Bool)
  pub persons : List (PersonObject P)

module _ (P : Platform) (raw : ℕ → Raw P) (cls_face cls_ped timestamp frame_id : ℕ) where
  abbrev message : Box P → BBoxMessage P
  message b = convert_box_to_bbox_message P b timestamp frame_id

  -- `PersonObject(&face_bbox_message, &body_bbox_message, update_timestamp, update_frame_id, -1)`
  unfoldable pub made_person : ℕ → Option (Box P) → Box P → PersonObject P
  made_person n face body = person_object P (raw n) (map_box face) (some (message body)) minus_one
    where
      map_box : Option (Box P) → Option (BBoxMessage P)
      map_box none = none
      map_box (some b) = some (message b)

  -- The loop over the bodies for one face: whether it matched one, the boxes, the objects.
  unfoldable pub pair_bodies :
      Box P
      → List (Box P × Bool)
      → List (PersonObject P)
      → Bool × List (Box P × Bool) × List (PersonObject P)
  pair_bodies face [] persons = (false, [], persons)
  pair_bodies face ((b, seen) ∷ rest) persons =
      let found =
        pair_bodies face rest (persons ++ (made_person (length persons) (some face) b ∷ [])) in
      let others = pair_bodies face rest persons in
      if nat_beq b.class_idx cls_ped && not seen && is_face_and_body_match P face b
      then (true, (b, true) ∷ found.1, found.2)
      else (others.0, (b, seen) ∷ others.1, others.2)

  module _ (is_skipped : Box P → Bool) where
    -- The body of the loop over the faces; `none` is an index out of range.
    unfoldable pub pair_face : ℕ → Pairing P → Pairing P
    pair_face i s = elim (get_elem? s.boxes i) [
      | none ↦ s
      | some (b, seen) ↦
          let found = pair_bodies b s.boxes s.persons in
          if nat_beq b.class_idx cls_face && not seen && not (is_skipped b)
          then record {
            boxes = if found.0 then set found.1 i (b, true) else found.1;
            persons = found.2;
          }
          else s
    ]

    unfoldable pub pair_faces : ℕ → ℕ → Pairing P → Pairing P
    pair_faces zero i s = s
    pair_faces (suc n) i s = pair_faces n (suc i) (pair_face i s)

  -- The last loop: an unmatched body makes an object of its own.
  unfoldable pub add_bodies : List (Box P × Bool) → List (PersonObject P) → List (PersonObject P)
  add_bodies [] persons = persons
  add_bodies ((b, seen) ∷ rest) persons =
      let added = add_bodies rest (persons ++ (made_person (length persons) none b ∷ [])) in
      let others = add_bodies rest persons in
      if not seen && nat_beq b.class_idx cls_ped then added else others

  unfoldable pub match_boxes :
      (Box P → Bool) → List (Box P) → List (PersonObject P) → List (PersonObject P)
  unfolding pair_faces add_bodies
  match_boxes is_skipped object_boxes persons =
      let paired =
        pair_faces is_skipped (length object_boxes) 0
          (record { boxes = map (λ b. (b, false)) object_boxes; persons = persons }) in
      add_bodies paired.boxes paired.persons

  abbrev face_area : Box P → P.Float
  face_area b = P.f_mul (P.f_sub b.x1 b.x0) (P.f_sub b.y1 b.y0)

  -- `MatchCurDetectFaceAndBody` with a threshold of the score, and without.
  unfoldable pub match_cur_detect_face_and_body_scored :
      P.Float → P.Float → List (Box P) → List (PersonObject P) → List (PersonObject P)
  unfolding match_boxes
  match_cur_detect_face_and_body_scored face_score_thresh face_area_thresh =
      match_boxes (λ b. P.f_lt (face_area b) face_area_thresh || P.f_lt b.score face_score_thresh)

  unfoldable pub match_cur_detect_face_and_body :
      P.Float → List (Box P) → List (PersonObject P) → List (PersonObject P)
  unfolding match_boxes
  match_cur_detect_face_and_body face_area_thresh =
      match_boxes (λ b. P.f_lt (face_area b) face_area_thresh)

  -- `MonitorProcessor::CvtDetToPed`
  unfoldable pub cvt_det_to_ped : List (Box P) → List (PersonObject P) → List (PersonObject P)
  cvt_det_to_ped [] ped_det = ped_det
  cvt_det_to_ped (b ∷ bs) ped_det =
      let added = cvt_det_to_ped bs (ped_det ++ (made_person (length ped_det) none b ∷ [])) in
      let others = cvt_det_to_ped bs ped_det in
      if nat_beq b.class_idx cls_ped then added else others
