-- ===== src/Track/Bounds.antt =====
-- The histories that an object carries stay within the limits of the tracker.
use edge_frame.Prelude.{ℕ, ◌≤◌, ◌≡◌, true, false, List, [], ◌∷◌, ◌++◌}
use edge_frame.Prelude.{ap, to_int, some, arith, length, All, if_cases}
use edge_frame.Platform.{Platform, Env}
use edge_frame.Track.Person.{PersonObject, Tracker, Thresholds}
use edge_frame.Track.Match.{ensure_feature, extract_feature}
use edge_frame.Track.Refresh.{trim, mark_matched, refresh_feature, refresh_body, refresh_face}
use edge_frame.Track.Retire.{accumulate}
use edge_frame.Track.Update.{Updated, update}
use edge_frame.Track.Keeps.{Keeps}
use edge_frame.Track.Keeps.Frame.{update-Sound}

module _ {ℓ} {A : Type ℓ} where
  pub length-trim-le : (n : ℕ) (xs : List A) → length (trim n xs) ≤ n
  unfolding trim
  length-trim-le n [] = omega arith
  length-trim-le n (x ∷ xs) = ground (arith, length-trim-le n xs)

module _ (P : Platform) (th : Thresholds P) where
  pub record IsBounded (p : PersonObject P) : Type 0 where
    pub body_within : length p.body_trajectory ≤ th.trajectory_size
    pub face_within : length p.face_trajectory ≤ th.trajectory_size
    pub features_within : length p.feature_messages ≤ th.feature_vec_size

  refresh_face-IsBounded :
      (t : Tracker P) (p d : PersonObject P)
      → t.thresholds ≡ th
      → IsBounded p
      → IsBounded (refresh_face P t p d)
  unfolding refresh_face
  refresh_face-IsBounded t p d e b =
      if_cases IsBounded d.is_current_face_detected
        (λ _. record {
          body_within = b.body_within;
          face_within = rw (← e) (length-trim-le _ _);
          features_within = b.features_within;
        })
        λ _. record {
          body_within = b.body_within;
          face_within = b.face_within;
          features_within = b.features_within;
        }

  refresh_body-IsBounded :
      (t : Tracker P) (p d : PersonObject P)
      → t.thresholds ≡ th
      → IsBounded p
      → IsBounded (refresh_body P t p d)
  unfolding refresh_body
  refresh_body-IsBounded t p d e b = record {
    body_within = rw (← e) (length-trim-le _ _);
    face_within = b.face_within;
    features_within = b.features_within;
  }

  ensure_feature-IsBounded :
      (t : Tracker P) (d : PersonObject P) (env : Env)
      → IsBounded d
      → IsBounded (ensure_feature P t d env).0
  unfolding ensure_feature extract_feature
  ensure_feature-IsBounded t d env b = ground arith

  refresh_feature-IsBounded :
      (t : Tracker P) (p d : PersonObject P) (env : Env)
      → t.thresholds ≡ th
      → IsBounded p
      → IsBounded d
      → IsBounded (refresh_feature P t p d env).object × IsBounded (refresh_feature P t p d env).det
  unfolding refresh_feature
  refresh_feature-IsBounded t p d env e b c = ground (
    arith,
    ensure_feature-IsBounded t d env c,
    length-trim-le th.feature_vec_size (
        p.feature_messages
        ++ ((ensure_feature P t d env).0.last_updated_body_feature_message ∷ [])),
  )

  mark-IsBounded :
      (t : Tracker P) (p : PersonObject P) → IsBounded p → IsBounded (mark_matched P t p)
  mark-IsBounded t p b = ground arith

  miss-IsBounded :
      (p : PersonObject P) → IsBounded p → IsBounded (record p { is_current_body_detected = false })
  miss-IsBounded p b = ground arith

  admit-IsBounded :
      (d : PersonObject P) (gid : ℕ)
      → IsBounded d
      → IsBounded (record d { is_current_frame_matched_or_new = true; id = to_int gid })
  admit-IsBounded d gid b = ground arith

  accumulate-IsBounded :
      (t : Tracker P) (p : PersonObject P) → IsBounded p → IsBounded (accumulate P t p)
  unfolding accumulate
  accumulate-IsBounded t p b = ground arith

  IsBounded-Keeps : {frame : P.Mat} → Keeps P (th, frame) IsBounded IsBounded
  IsBounded-Keeps = record {
    clear = λ p b. record {
      body_within = b.body_within;
      face_within = b.face_within;
      features_within = b.features_within;
    };
    ensure = λ t d env e b. ensure_feature-IsBounded t d env b;
    mark = λ t p. (mark-IsBounded t p, mark-IsBounded t p);
    feature = λ t p d env e. refresh_feature-IsBounded t p d env (ap (λ x. x.0) e);
    hit = λ t p d e b _. refresh_body-IsBounded t p d (ap (λ x. x.0) e) b;
    miss = miss-IsBounded;
    see = λ t p d e b _. refresh_face-IsBounded t p d (ap (λ x. x.0) e) b;
    admit = λ d gid b. (admit-IsBounded d gid b, admit-IsBounded d gid b);
    count = λ t p e b. accumulate-IsBounded t p b;
  }

  -- No object outgrows the limits: if every object that the tracker holds and every detection has
  -- trajectories of at most `trajectory_size` boxes and at most `feature_vec_size` features, then
  -- after a frame that did not abort so have all tracked and expired objects and all objects that
  -- `Update` hands out.
  pub update-IsBounded :
      (t : Tracker P) (env : Env) (frame : P.Mat) (dets : List (PersonObject P))
      (timestamp frame_id : ℕ) {u : Updated P}
      → t.thresholds ≡ th
      → All IsBounded t.tracked
      → All IsBounded t.expired
      → All IsBounded dets
      → update P t env frame dets timestamp frame_id [] [] [] ≡ some u
      → All IsBounded u.tracker.tracked
        × All IsBounded u.tracker.expired
        × All IsBounded u.iou_not_matched
        × All IsBounded u.expired_objects
        × All IsBounded u.valid_leave
  update-IsBounded t env frame dets timestamp frame_id e ht he hr s =
      let r =
        update-Sound IsBounded-Keeps t env frame dets timestamp frame_id [] [] []
          (ap (λ x. (x, frame)) e) ht he hr tt tt tt s in
      (r.0, r.1, r.3, r.4, r.5)
