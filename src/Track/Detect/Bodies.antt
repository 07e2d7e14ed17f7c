-- ===== src/Track/Detect/Bodies.antt =====
-- Every body box becomes one detection, ready for `Tracker::Update`.
use edge_frame.Prelude.{
  ℕ, zero, suc, ◌+◌, ◌≡◌, ◌≢◌, refl, ◌∙◌, Bool, true, false, not, ◌&&◌, List, [], ◌∷◌, ◌++◌,
}
use edge_frame.Prelude.{
  sym, ap, some_eq, arith, Option, none, some, nat_beq, length, length-append, get_elem?, set, map,
  count_if, count_if-append, count_if-set, if◌then◌else◌, All, All-append, if_cases, Option-cases,
  inl, inr,
}
use edge_frame.Platform.{Platform}
use edge_frame.Track.Person.{BBoxMessage, PersonObject, Raw, person_object}
use edge_frame.Track.Detect.{
  Box, Pairing, convert_box_to_bbox_message, made_person, is_face_and_body_match, pair_bodies,
  pair_face, pair_faces, add_bodies, match_boxes, match_cur_detect_face_and_body,
  match_cur_detect_face_and_body_scored, cvt_det_to_ped,
}

-- A new detection: a body, not matched yet, with no feature yet.
pub record IsNew {P : Platform} (d : PersonObject P) : Type 0 where
  pub is_unmatched : d.is_current_frame_matched_or_new ≡ false
  pub has_body : d.is_current_body_detected ≡ true
  pub no_feature : d.last_updated_body_feature_message.tengine_feature ≡ []
  pub no_messages : d.feature_messages ≡ []

module _ (P : Platform) (raw : ℕ → Raw P) (cls_face cls_ped timestamp frame_id : ℕ) where
  made_person-IsNew :
      (n : ℕ) (face : Option (Box P)) (body : Box P)
      → IsNew (made_person P raw cls_face cls_ped timestamp frame_id n face body)
  unfolding made_person person_object
  made_person-IsNew n face body = record {
    is_unmatched = refl;
    has_body = refl;
    no_feature = refl;
    no_messages = refl;
  }

  made_person-body :
      (n : ℕ) (face : Option (Box P)) (body : Box P)
      → (made_person P raw cls_face cls_ped timestamp frame_id n face body).last_updated_body_bbox
        ≡ convert_box_to_bbox_message P body timestamp frame_id
  unfolding made_person person_object
  made_person-body n face body = refl

  module _ (f : BBoxMessage P → Bool) where
    -- The bodies that are still to be matched, those with a message that `f` takes.
    abbrev is_open : Box P × Bool → Bool
    is_open (b, seen) =
        nat_beq b.class_idx cls_ped
        && not seen
        && f (convert_box_to_bbox_message P b timestamp frame_id)

    abbrev has_body : PersonObject P → Bool
    has_body d = f d.last_updated_body_bbox

    -- The objects and the open bodies together, as far as `f` takes them.
    abbrev total : List (Box P × Bool) → List (PersonObject P) → ℕ
    total boxes persons = count_if has_body persons + count_if is_open boxes

    total-append :
        (boxes : List (Box P × Bool)) (persons : List (PersonObject P)) (face : Option (Box P))
        (b : Box P)
        → total boxes (
            persons
            ++ (made_person P raw cls_face cls_ped timestamp frame_id (length persons) face b ∷ []))
          ≡ total boxes persons
            + (if f (convert_box_to_bbox_message P b timestamp frame_id) then 1 else 0)
    total-append boxes persons face b =
        let x = made_person P raw cls_face cls_ped timestamp frame_id (length persons) face b in
        let same : f x.last_updated_body_bbox
            ≡ f (convert_box_to_bbox_message P b timestamp frame_id) =
          ap f (made_person-body (length persons) face b) in
        rw (count_if-append has_body persons (x ∷ []), same) (omega arith)

    -- From the boxes and the objects before to those after: as many, and new ones.
    abbrev IsPaired :
        List (Box P × Bool)
        → List (PersonObject P)
        → List (Box P × Bool)
        → List (PersonObject P)
        → Type 0
    IsPaired boxes persons boxes' persons' =
        (total boxes' persons' ≡ total boxes persons) × All IsNew persons'

    pair_bodies-IsPaired :
        (face : Box P) (boxes : List (Box P × Bool)) (persons : List (PersonObject P))
        → All IsNew persons
        → IsPaired boxes persons
            (pair_bodies P raw cls_face cls_ped timestamp frame_id face boxes persons).1
            (pair_bodies P raw cls_face cls_ped timestamp frame_id face boxes persons).2
    unfolding pair_bodies
    pair_bodies-IsPaired face [] persons h = (refl, h)
    pair_bodies-IsPaired face ((b, seen) ∷ rest) persons h =
        let x =
          made_person P raw cls_face cls_ped timestamp frame_id (length persons) (some face) b in
        let found =
          pair_bodies-IsPaired face rest (persons ++ (x ∷ []))
            (All-append IsNew persons _ h (made_person-IsNew (length persons) (some face) b, tt)) in
        let others = pair_bodies-IsPaired face rest persons h in
        if_cases {A = Bool × List (Box P × Bool) × List (PersonObject P)}
          (λ r. IsPaired ((b, seen) ∷ rest) persons r.1 r.2)
          (nat_beq b.class_idx cls_ped && not seen && is_face_and_body_match P face b)
          (λ q. (ground (arith, found.0, total-append rest persons (some face) b), found.1))
          λ _. (omega (arith, others.0), others.1)

    -- The boxes stay in their places.
    pair_bodies-box :
        (face : Box P) (boxes : List (Box P × Bool)) (persons : List (PersonObject P)) (i : ℕ)
        {b : Box P} {seen : Bool}
        → get_elem? boxes i ≡ some (b, seen)
        → (seen' : Bool) × (get_elem?
              (pair_bodies P raw cls_face cls_ped timestamp frame_id face boxes persons).1
              i
            ≡ some (b, seen'))
    unfolding pair_bodies
    pair_bodies-box face [] persons i h = absurd (cc)
    pair_bodies-box face ((b, seen) ∷ rest) persons zero {b = c} h =
        if_cases {A = Bool × List (Box P × Bool) × List (PersonObject P)}
          (λ r. (seen' : Bool) × (get_elem? r.1 zero ≡ some (c, seen')))
          (nat_beq b.class_idx cls_ped && not seen && is_face_and_body_match P face b)
          (λ _. (true, ap (λ x. some (x.0, true)) (some_eq h)))
          λ _. (seen, ap (λ x. some (x.0, seen)) (some_eq h))
    pair_bodies-box face ((b, seen) ∷ rest) persons (suc i) {b = c} h =
        if_cases {A = Bool × List (Box P × Bool) × List (PersonObject P)}
          (λ r. (seen' : Bool) × (get_elem? r.1 (suc i) ≡ some (c, seen')))
          (nat_beq b.class_idx cls_ped && not seen && is_face_and_body_match P face b)
          (λ _. pair_bodies-box face rest _ i h) λ _. pair_bodies-box face rest persons i h

    module _ (distinct : cls_face ≢ cls_ped) (is_skipped : Box P → Bool) where
      -- A face is never an open body.
      not_open :
          (b : Box P) (seen : Bool)
          → nat_beq b.class_idx cls_face ≡ true
          → is_open (b, seen) ≡ false
      not_open b seen h = ground arith

      pair_face-IsPaired :
          (i : ℕ) (s : Pairing P)
          → All IsNew s.persons
          → IsPaired s.boxes s.persons
              (pair_face P raw cls_face cls_ped timestamp frame_id is_skipped i s).boxes
              (pair_face P raw cls_face cls_ped timestamp frame_id is_skipped i s).persons
      unfolding pair_face
      pair_face-IsPaired i s h = elim (Option-cases (get_elem? s.boxes i)) [
        | inl q ↦ rw (pair_face, q) (refl, h)
        | inr ((b, seen), q) ↦
            rw (pair_face, q)
              (let found = pair_bodies-IsPaired b s.boxes s.persons h in
                let (seen', there) = pair_bodies-box b s.boxes s.persons i q in
                if_cases {A = Pairing P} (λ r. IsPaired s.boxes s.persons r.boxes r.persons)
                  (nat_beq b.class_idx cls_face && not seen && not (is_skipped b))
                  (λ e.
                    let face_box : nat_beq b.class_idx cls_face ≡ true = ground arith in
                    let r =
                      pair_bodies P raw cls_face cls_ped timestamp frame_id b s.boxes s.persons in
                    let marked : count_if is_open (set r.1 i (b, true)) ≡ count_if is_open r.1 =
                      count_if-set is_open r.1 i (b, seen') (b, true) there
                        (not_open b seen' face_box ∙ sym (not_open b true face_box)) in
                    (
                      if_cases (λ boxes. total boxes r.2 ≡ total s.boxes s.persons) r.0
                          {x = set r.1 i (b, true)} {y = r.1} (λ _. omega (arith, found.0, marked))
                          λ _. found.0,
                      found.1,
                    ))
                  λ _. (refl, h))
      ]

      pair_faces-IsPaired :
          (n i : ℕ) (s : Pairing P)
          → All IsNew s.persons
          → IsPaired s.boxes s.persons
              (pair_faces P raw cls_face cls_ped timestamp frame_id is_skipped n i s).boxes
              (pair_faces P raw cls_face cls_ped timestamp frame_id is_skipped n i s).persons
      unfolding pair_faces
      pair_faces-IsPaired zero i s h = (refl, h)
      pair_faces-IsPaired (suc n) i s h =
          let one = pair_face-IsPaired i s h in
          let rest = pair_faces-IsPaired n (suc i) _ one.1 in (rest.0 ∙ one.0, rest.1)

    add_bodies-IsPaired :
        (boxes : List (Box P × Bool)) (persons : List (PersonObject P))
        → All IsNew persons
        → (count_if has_body (add_bodies P raw cls_face cls_ped timestamp frame_id boxes persons)
            ≡ total boxes persons)
          × All IsNew (add_bodies P raw cls_face cls_ped timestamp frame_id boxes persons)
    unfolding add_bodies
    add_bodies-IsPaired [] persons h = (omega arith, h)
    add_bodies-IsPaired ((b, seen) ∷ rest) persons h =
        let x = made_person P raw cls_face cls_ped timestamp frame_id (length persons) none b in
        let added =
          add_bodies-IsPaired rest (persons ++ (x ∷ []))
            (All-append IsNew persons _ h (made_person-IsNew (length persons) none b, tt)) in
        let others = add_bodies-IsPaired rest persons h in
        if_cases {A = List (PersonObject P)}
          (λ r. (count_if has_body r ≡ total ((b, seen) ∷ rest) persons) × All IsNew r)
          (not seen && nat_beq b.class_idx cls_ped)
          (λ q. (ground (arith, added.0, total-append rest persons none b), added.1))
          λ q. (ground (arith, others.0), others.1)

    abbrev is_body : Box P → Bool
    is_body b =
        nat_beq b.class_idx cls_ped && f (convert_box_to_bbox_message P b timestamp frame_id)

    count_open :
        (boxes : List (Box P))
        → count_if is_open (map (λ b. (b, false)) boxes) ≡ count_if is_body boxes
    count_open [] = refl
    count_open (b ∷ bs) = ground (arith, count_open bs)

    match_boxes-counted :
        cls_face ≢ cls_ped
        → (is_skipped : Box P → Bool) (boxes : List (Box P))
        → (count_if has_body
              (match_boxes P raw cls_face cls_ped timestamp frame_id is_skipped boxes [])
            ≡ count_if is_body boxes)
          × All IsNew (match_boxes P raw cls_face cls_ped timestamp frame_id is_skipped boxes [])
    unfolding match_boxes
    match_boxes-counted distinct is_skipped boxes =
        let start : Pairing P = record { boxes = map (λ b. (b, false)) boxes; persons = [] } in
        let end : Pairing P =
          pair_faces P raw cls_face cls_ped timestamp frame_id is_skipped (length boxes) 0 start in
        let paired = pair_faces-IsPaired distinct is_skipped (length boxes) 0 start tt in
        let done = add_bodies-IsPaired end.boxes end.persons paired.1 in
        (omega (arith, done.0, paired.0, count_open boxes), done.1)

  -- How many of the boxes show a body.
  abbrev pub body_count : List (Box P) → ℕ
  body_count = count_if (λ b. nat_beq b.class_idx cls_ped)

  -- One new detection for each body: for every test, as many detections have a body that it takes
  -- as boxes show one.
  abbrev pub OneEach : List (Box P) → List (PersonObject P) → Type 0
  OneEach boxes dets =
      ((f : BBoxMessage P → Bool)
        → count_if (λ d. f d.last_updated_body_bbox) dets
          ≡ count_if
              (λ b.
                nat_beq b.class_idx cls_ped
                && f (convert_box_to_bbox_message P b timestamp frame_id))
              boxes)
      × (length dets ≡ body_count boxes)
      × All IsNew dets

  count_if-true : (ds : List (PersonObject P)) → count_if (λ d. true) ds ≡ length ds
  count_if-true [] = refl
  count_if-true (d ∷ ds) = omega (arith, count_if-true ds)

  count_if-and_true :
      (boxes : List (Box P))
      → count_if (λ b. nat_beq b.class_idx cls_ped && true) boxes ≡ body_count boxes
  count_if-and_true [] = refl
  count_if-and_true (b ∷ bs) = ground (arith, count_if-and_true bs)

  match_boxes-OneEach :
      cls_face ≢ cls_ped
      → (is_skipped : Box P → Bool) (boxes : List (Box P))
      → OneEach boxes (match_boxes P raw cls_face cls_ped timestamp frame_id is_skipped boxes [])
  match_boxes-OneEach distinct is_skipped boxes =
      let made = match_boxes P raw cls_face cls_ped timestamp frame_id is_skipped boxes [] in
      let all = match_boxes-counted (λ m. true) distinct is_skipped boxes in
      (
        λ f. (match_boxes-counted f distinct is_skipped boxes).0,
        sym (count_if-true made) ∙ all.0 ∙ count_if-and_true boxes,
        all.1,
      )

  -- Both forms of `MatchCurDetectFaceAndBody` make exactly one detection of each body box, with that
  -- box as its body, whichever faces are joined to it, if faces and bodies are of different classes:
  -- the detections' bodies are those of the body boxes, each as often, in some order; each detection
  -- is not matched yet, shows a body and has no feature.
  pub match_cur_detect-OneEach :
      cls_face ≢ cls_ped
      → (face_score_thresh face_area_thresh : P.Float) (boxes : List (Box P))
      → OneEach boxes (
          match_cur_detect_face_and_body_scored P raw cls_face cls_ped timestamp frame_id
            face_score_thresh face_area_thresh boxes [])
        × OneEach boxes (
            match_cur_detect_face_and_body P raw cls_face cls_ped timestamp frame_id
              face_area_thresh boxes [])
  unfolding match_cur_detect_face_and_body match_cur_detect_face_and_body_scored
  match_cur_detect-OneEach distinct face_score_thresh face_area_thresh boxes =
      (match_boxes-OneEach distinct _ boxes, match_boxes-OneEach distinct _ boxes)

  pub cvt_det_to_ped-IsNew :
      (boxes : List (Box P)) (persons : List (PersonObject P))
      → All IsNew persons
      → (length (cvt_det_to_ped P raw cls_face cls_ped timestamp frame_id boxes persons)
          ≡ length persons + body_count boxes)
        × All IsNew (cvt_det_to_ped P raw cls_face cls_ped timestamp frame_id boxes persons)
  unfolding cvt_det_to_ped
  cvt_det_to_ped-IsNew [] persons h = (omega arith, h)
  cvt_det_to_ped-IsNew (b ∷ bs) persons h =
      let x = made_person P raw cls_face cls_ped timestamp frame_id (length persons) none b in
      let added =
        cvt_det_to_ped-IsNew bs (persons ++ (x ∷ []))
          (All-append IsNew persons _ h (made_person-IsNew (length persons) none b, tt)) in
      let others = cvt_det_to_ped-IsNew bs persons h in
      if_cases {A = List (PersonObject P)}
        (λ r. (length r ≡ length persons + body_count (b ∷ bs)) × All IsNew r)
        (nat_beq b.class_idx cls_ped)
        (λ q. (ground (arith, added.0, length-append persons (x ∷ [])), added.1))
        λ q. (ground (arith, others.0), others.1)
