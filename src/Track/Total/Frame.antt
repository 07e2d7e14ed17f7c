-- ===== src/Track/Total/Frame.antt =====
-- `Tracker::Update` on the whole: under the contracts of the solver and of the ReID network, no
-- access of a frame is out of range and no assertion on features fails.
use edge_frame.Prelude.{ℕ, ◌≡◌, refl, sym, ◌∙◌, subst, true, List, [], some}
use edge_frame.Prelude.{bind_total, All, All-implies}
use edge_frame.Prelude.{lt_of_get_elem?}
use edge_frame.Platform.{Platform, Env}
use edge_frame.Track.Person.{body, MatchPair, PersonObject, Tracker}
use edge_frame.Track.Match.{feature_match, Scan}
use edge_frame.Track.Refresh.{Work, update_matched_objects}
use edge_frame.Track.Retire.{update_unmatched_tracked, update_matched_expired}
use edge_frame.Track.Update.{Updated, AfterMatch, begin_frame, all_unmatched, match_tracked, update}
use edge_frame.Track.Keeps.{setting, Sound, update_matched-Sound, clear-All}
use edge_frame.Track.Keeps.Feature.{feature_match-Sound, match_tracked-Sound}
use edge_frame.Track.Keeps.Frame.{update_unmatched_tracked-Sound}
use edge_frame.Track.Ids.Sizes.{feature_match-length}
use edge_frame.Track.Matching.{SolverLaw}
use edge_frame.Track.Matching.Iou.{IsCandidate, iou_match_total}
use edge_frame.Track.Matching.Cells.{ReidLaw, HasDim, IsReady}
use edge_frame.Track.Matching.Feature.{IsLookalike, feature_match_total}
use edge_frame.Track.Keeps.Frame.{update-Sound}
use edge_frame.Track.Total.{HasDim-Keeps, update_matched_total}

module _ (P : Platform) (n : ℕ) (law : SolverLaw P) (reid_law : ReidLaw P n) where
  -- The step on the pairs that `FeatureMatch` found, after it changed the detections.
  feature_then_update :
      (t : Tracker P) (objects dets : List (PersonObject P)) (env : Env)
      → All (HasDim P n) objects
      → All (IsReady P n t.cur_process_frame_mat) dets
      → (r : Scan P (List MatchPair)) × (w : Work P) × (feature_match P t objects body dets env
          ≡ some r)
        × (update_matched_objects P t r.out
              (record { objects = objects; dets = r.dets; env = r.env })
            ≡ some w)
  feature_then_update t objects dets env ho hd =
      let (r, run, likely, _) = feature_match_total P t objects n law reid_law dets env ho hd in
      let kept =
        feature_match-Sound (HasDim-Keeps P n reid_law (setting t)) t objects body dets env refl hd
          run in
      let (w, went) =
        update_matched_total P t r.out (record { objects = objects; dets = r.dets; env = r.env })
          (All-implies (IsReady P n t.cur_process_frame_mat) _ (λ d h. h.2) r.dets kept)
          (All-implies (IsLookalike P t objects dets) _
            (λ m k. (
              lt_of_get_elem? objects m.i_index k.of_object,
              rw (feature_match-length P t objects body dets env run)
                  (lt_of_get_elem? dets m.j_index k.of_det),
            ))
            r.out likely) in
      (r, w, run, went)

  match_tracked_total :
      (t : Tracker P) (dets : List (PersonObject P)) (env : Env)
      → All (HasDim P n) t.tracked
      → All (IsReady P n t.cur_process_frame_mat) dets
      → (m : AfterMatch P) × (match_tracked P t dets env ≡ some m)
  unfolding match_tracked
  match_tracked_total t dets env ho hd =
      let k = HasDim-Keeps P n reid_law (setting t) in
      let (by_box, run, near, _) = iou_match_total P t body t.tracked dets law in
      let (w, went) =
        update_matched_total P t by_box (record { objects = t.tracked; dets = dets; env = env })
          (All-implies (IsReady P n t.cur_process_frame_mat) _ (λ d h. h.2) dets hd)
          (All-implies (IsCandidate P t body t.tracked dets) _
            (λ m c. (
              lt_of_get_elem? t.tracked m.i_index c.of_object,
              lt_of_get_elem? dets m.j_index c.of_det,
            ))
            by_box near) in
      let kept : Sound k w = update_matched-Sound k t by_box _ refl (ho, hd) went in
      let (r, w', found, done) = feature_then_update t w.objects w.dets w.env kept.0 kept.1 in
      bind_total _ _ run
        (bind_total _ _ went (bind_total _ _ found (bind_total _ _ done (_, refl))))

  return_total :
      (t : Tracker P) (pairs : List MatchPair) (dets : List (PersonObject P)) (env : Env)
      {w : Work P}
      → update_matched_objects P t pairs (record { objects = t.expired; dets = dets; env = env })
        ≡ some w
      → (r : Tracker P × List (PersonObject P) × Env) × (update_matched_expired P t pairs dets env
          ≡ some r)
  unfolding update_matched_expired
  return_total t pairs dets env done = bind_total _ _ done (_, refl)

  update_runs :
      (t : Tracker P) (env : Env) (frame : P.Mat) (dets : List (PersonObject P))
      (timestamp frame_id : ℕ)
      → All (HasDim P n) t.tracked
      → All (HasDim P n) t.expired
      → All (IsReady P n frame) dets
      → all_unmatched P dets ≡ true
      → (u : Updated P) × (update P t env frame dets timestamp frame_id [] [] [] ≡ some u)
  unfolding update begin_frame
  update_runs t env frame dets timestamp frame_id ht he hd fine =
      let k = HasDim-Keeps P n reid_law (t.thresholds, frame) in
      let begun = clear-All k t.tracked ht in
      let (m, matched) =
        match_tracked_total (begin_frame P t frame timestamp frame_id) dets env begun hd in
      let sound = match_tracked-Sound k _ dets env refl begun hd matched in
      let lost = update_unmatched_tracked-Sound k m.tracker frame_id sound.0 (rw sound.3 he) in
      let (r, w, found, done) =
        feature_then_update (update_unmatched_tracked P m.tracker frame_id) _ m.dets m.env lost.1
          (subst (λ x. All (IsReady P n x.1) m.dets) (sym (lost.2 ∙ sound.4)) sound.1) in
      rw fine (
        bind_total _ _ matched (
          bind_total _ _ found
            (bind_total _ _ (return_total _ r.out r.dets r.env done).1 (_, refl))))

  -- The contracts of the solver and of the ReID network are enough for a frame to go through: if
  -- all features have the network's length, the bodies of the detections lie in the frame and have
  -- pixels, and the detections come in unmatched, `Update` returns, and the features of all tracked
  -- and expired objects have the network's length again.
  pub update_total :
      (t : Tracker P) (env : Env) (frame : P.Mat) (dets : List (PersonObject P))
      (timestamp frame_id : ℕ)
      → All (HasDim P n) t.tracked
      → All (HasDim P n) t.expired
      → All (IsReady P n frame) dets
      → all_unmatched P dets ≡ true
      → (u : Updated P) × (update P t env frame dets timestamp frame_id [] [] [] ≡ some u)
        × All (HasDim P n) u.tracker.tracked
        × All (HasDim P n) u.tracker.expired
  update_total t env frame dets timestamp frame_id ht he hd fine =
      let k = HasDim-Keeps P n reid_law (t.thresholds, frame) in
      let (u, run) = update_runs t env frame dets timestamp frame_id ht he hd fine in
      let sound =
        update-Sound k t env frame dets timestamp frame_id [] [] [] refl ht he hd tt tt tt run in
      (u, run, sound.0, sound.1)
