-- ===== src/Track/Total.antt =====
-- The lengths of the features are kept, and pairs within the vectors are gone through.
pub mod Frame
use edge_frame.Prelude.{
  ℕ, ◌<◌, ◌≡◌, refl, sym, ◌∙◌, true, false, List, [], ◌∷◌, ◌++◌, inl, inr, Option, some,
}
use edge_frame.Prelude.{
  arith, ap, All-set, length, get_elem?, set, All, All-append, All-implies, All-get_elem?,
  length-set,
}
use edge_frame.Prelude.{get_elem?_total, lt_of_get_elem?, if_cases, to_int, subst, ◌>>=◌, ltb}
use edge_frame.Platform.{Platform, Env}
use edge_frame.Track.Person.{body, MatchPair, PersonObject, Tracker, Thresholds}
use edge_frame.Track.Match.{
  ensure_feature, extract_feature, crop, feature_match, iou_match, Scan, is_empty,
}
use edge_frame.Track.Geometry.{area_exceeds}
use edge_frame.Track.Refresh.{
  trim, Matched, Work, mark_matched, refresh_feature, refresh_face, refresh_body, update_pair,
  crop_matched, update_matched_objects, is_object_need_extract_feature,
  update_matched_object_status,
}
use edge_frame.Track.Retire.{
  accumulate, update_unmatched_tracked, update_matched_expired, matched_verdict,
}
use edge_frame.Track.Sweep.{sweep}
use edge_frame.Track.Update.{
  Updated, AfterMatch, begin_frame, all_unmatched, match_tracked, finish_frame, update,
}
use edge_frame.Track.Keeps.{Keeps, setting, Sound, update_matched-Sound, clear-All}
use edge_frame.Track.Keeps.Feature.{feature_match-Sound, match_tracked-Sound}
use edge_frame.Track.Keeps.Frame.{update_unmatched_tracked-Sound}
use edge_frame.Track.Ids.Sizes.{feature_match-length}
use edge_frame.Track.Matching.{SolverLaw}
use edge_frame.Track.Matching.Iou.{IsCandidate, iou_match_total}
use edge_frame.Track.Matching.Cells.{
  ReidLaw, HasDim, IsVisible, IsReady, ensure_feature-IsReady, ensure_feature-IsVisible,
}
use edge_frame.Track.Matching.Feature.{IsLookalike, feature_match_total}

module _ {ℓ κ} {A : Type ℓ} (Q : A → Type κ) where
  All-trim : (n : ℕ) (xs : List A) → All Q xs → All Q (trim n xs)
  unfolding trim
  All-trim n [] h = h
  All-trim n (x ∷ xs) h = if_cases (All Q) (ltb n (length (x ∷ xs))) (λ _. All-trim n xs h.1) λ _. h

module _ (P : Platform) (n : ℕ) (reid_law : ReidLaw P n) (st : Thresholds P × P.Mat) where
  refresh_feature-IsReady :
      (t : Tracker P) (p d : PersonObject P) (env : Env)
      → HasDim P n p
      → IsReady P n t.cur_process_frame_mat d
      → HasDim P n (refresh_feature P t p d env).object
        × IsReady P n t.cur_process_frame_mat (refresh_feature P t p d env).det
  unfolding refresh_feature
  refresh_feature-IsReady t p d env q r =
      let made = ensure_feature-IsReady P n reid_law t d env r in
      if_cases {A = Matched P}
        (λ m. HasDim P n m.object × IsReady P n t.cur_process_frame_mat m.det) _
        (λ _. (
          All-trim _ _ _ (All-append _ p.feature_messages _ q (made.1, tt)),
          (made.0, inr made.1, ensure_feature-IsVisible P n reid_law t d env r.2),
        ))
        λ _. (q, r)

  -- The tracker's frame is that of the setting.
  at_frame :
      (t : Tracker P) (d : PersonObject P)
      → setting t ≡ st
      → IsReady P n st.1 d
      → IsReady P n t.cur_process_frame_mat d
  at_frame t d e = subst (λ m. IsReady P n m d) (sym (ap (λ x. x.1) e))

  back :
      (t : Tracker P) (d : PersonObject P)
      → setting t ≡ st
      → IsReady P n t.cur_process_frame_mat d
      → IsReady P n st.1 d
  back t d e = subst (λ m. IsReady P n m d) (ap (λ x. x.1) e)

  -- The lengths of the features are kept by each step on an object.
  pub HasDim-Keeps : Keeps P st (HasDim P n) (IsReady P n st.1)
  unfolding refresh_body refresh_face accumulate
  HasDim-Keeps = record {
    clear = λ p q. q;
    ensure = λ t d env e r.
        let here = at_frame t d e r in
        let made = ensure_feature-IsReady P n reid_law t d env here in
        back t (ensure_feature P t d env).0 e
          (made.0, inr made.1, ensure_feature-IsVisible P n reid_law t d env here.2);
    mark = λ t p. (λ q. q, λ r. r);
    feature = λ t p d env e q r.
        let kept = refresh_feature-IsReady t p d env q (at_frame t d e r) in
        (kept.0, back t (refresh_feature P t p d env).det e kept.1);
    hit = λ t p d e q r. q;
    miss = λ p q. q;
    see = λ t p d e q r. if_cases (HasDim P n) d.is_current_face_detected (λ _. q) λ _. q;
    admit = λ d gid r. (r.0, r);
    count = λ t p e q. if_cases (HasDim P n) _ (λ _. q) λ _. q;
  }

module _ (P : Platform) (t : Tracker P) where
  -- Both ends of a pair lie within the vectors.
  abbrev pub InRange : ℕ → ℕ → MatchPair → Type 0
  InRange i j m = (m.i_index < i) × (m.j_index < j)

  ensure-IsVisible :
      (frame : P.Mat) (d : PersonObject P) (env : Env)
      → IsVisible P frame d
      → IsVisible P frame (ensure_feature P t d env).0
  unfolding ensure_feature extract_feature
  ensure-IsVisible frame d env h =
      if_cases {A = PersonObject P × Env} (λ r. IsVisible P frame r.0)
        (is_empty d.last_updated_body_feature_message.tengine_feature) (λ _. h) (λ _. h)

  refresh-IsVisible :
      (frame : P.Mat) (p d : PersonObject P) (env : Env)
      → IsVisible P frame d
      → IsVisible P frame (refresh_feature P t p d env).det
  unfolding refresh_feature
  refresh-IsVisible frame p d env h =
      if_cases {A = Matched P} (λ m. IsVisible P frame m.det) _
        (λ _. ensure-IsVisible frame d env h) (λ _. h)

  matched-IsVisible :
      (frame : P.Mat) (p d : PersonObject P) (env : Env)
      → IsVisible P frame d
      → IsVisible P frame (update_matched_object_status P t p d env).det
  unfolding update_matched_object_status
  matched-IsVisible frame p d env h =
      if_cases {A = Matched P} (λ m. IsVisible P frame m.det) d.is_current_body_detected
        (λ _. refresh-IsVisible frame (mark_matched P t p) (mark_matched P t d) env h) (λ _. h)

  crop-IsVisible :
      (d : PersonObject P)
      → IsVisible P t.cur_process_frame_mat d
      → crop P t d ≡ some d.last_updated_body_bbox.bbox_rect
  unfolding crop
  crop-IsVisible d h = rw h.0 refl

  crop_matched-IsVisible :
      (p d : PersonObject P)
      → IsVisible P t.cur_process_frame_mat d
      → crop_matched P t p d ≡ some d.last_updated_body_bbox.bbox_rect
  unfolding crop_matched
  crop_matched-IsVisible p d h =
      if_cases (λ o. o ≡ some d.last_updated_body_bbox.bbox_rect) _ (λ _. crop-IsVisible d h)
        (λ _. refl)

  pub update_matched_total :
      (ms : List MatchPair) (w : Work P)
      → All (IsVisible P t.cur_process_frame_mat) w.dets
      → All (InRange (length w.objects) (length w.dets)) ms
      → (w' : Work P) × (update_matched_objects P t ms w ≡ some w')
  unfolding update_matched_objects update_pair
  update_matched_total [] w v h = (w, refl)
  update_matched_total (m ∷ ms) w v h =
      let (p, ep) = get_elem?_total w.objects m.i_index h.0.0 in
      let (d, ed) = get_elem?_total w.dets m.j_index h.0.1 in
      let seen = All-get_elem? (IsVisible P t.cur_process_frame_mat) w.dets m.j_index v ed in
      let r = update_matched_object_status P t p d w.env in
      let (w', run) =
        update_matched_total ms
          (record {
            objects = set w.objects m.i_index r.object;
            dets = set w.dets m.j_index r.det;
            env = r.env;
          })
          (All-set (IsVisible P t.cur_process_frame_mat) w.dets m.j_index r.det v
            (matched-IsVisible t.cur_process_frame_mat p d w.env seen))
          (All-implies _ _
            (λ n k. (
              rw (length-set w.objects m.i_index r.object) k.0,
              rw (length-set w.dets m.j_index r.det) k.1,
            ))
            ms h.1) in
      (w', rw (ep, ed, crop_matched-IsVisible p d seen) run)
