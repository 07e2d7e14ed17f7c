-- ===== src/Track/Keeps.antt =====
-- What holds of every object and of every detection before a frame holds after it, as soon as the
-- steps on single objects keep it: one rule for all of `Tracker::Update`.
pub mod Feature
pub mod Frame
use edge_frame.Prelude.{ℕ, ◌≡◌, refl, subst, ◌∙◌, true, false, List, [], ◌∷◌, ◌++◌, some, arith}
use edge_frame.Prelude.{All, All-append, All-set, All-get_elem?, >>=-eq-some, get_elem?}
use edge_frame.Prelude.{
  map, All-select, to_int, add_u64, Bool-cases, if_cases, of_some, ◌||◌, indexes_from, inl, inr,
}
use edge_frame.Platform.{Platform, Env}
use edge_frame.Track.Person.{body, BBoxType, face, MatchPair, PersonObject, Tracker, Thresholds}
use edge_frame.Track.Match.{
  is_empty, wants_feature, offers_feature, min_cost, wants_iou, iou_match, feature_match,
  feature_cell, feature_row, feature_table, ensure_feature, pick_pairs, Scan,
}
use edge_frame.Track.Refresh.{
  Work, Matched, mark_matched, refresh_feature, refresh_body, refresh_face, update_pair,
  crop_matched, update_matched_objects, update_matched_object_status,
}
use edge_frame.Track.Sweep.{Verdict, stay, moved, All-stay, All-moved, sweep-eq}
use edge_frame.Track.Retire.{
  update_unmatched_tracked, update_matched_expired, update_unmatched_expired, add_unmatched,
  accumulate_duration, accumulate, tracked_verdict, expired_verdict, matched_verdict,
}
use edge_frame.Track.Run.{UpdateRun, update-run, ReturnRun, update_matched_expired-run}
use edge_frame.Track.Update.{
  Updated, clear_flags, begin_frame, AfterMatch, match_tracked, finish_frame, update,
}

-- What the steps read of the tracker.
abbrev pub setting : {P : Platform} → Tracker P → Thresholds P × P.Mat
setting t = (t.thresholds, t.cur_process_frame_mat)

-- The steps on single objects keep `Q` of objects and `R` of detections, under the setting `st`.
pub record Keeps (P : Platform) (st : Thresholds P × P.Mat) (Q R : PersonObject P → Type 0)
    : Type 0 where
  pub clear : (p : PersonObject P) → Q p → Q (clear_flags P p)
  pub ensure :
      (t : Tracker P) (d : PersonObject P) (env : Env)
      → setting t ≡ st
      → R d
      → R (ensure_feature P t d env).0
  pub mark :
      (t : Tracker P) (p : PersonObject P)
      → (Q p → Q (mark_matched P t p)) × (R p → R (mark_matched P t p))
  pub feature :
      (t : Tracker P) (p d : PersonObject P) (env : Env)
      → setting t ≡ st
      → Q p
      → R d
      → Q (refresh_feature P t p d env).object × R (refresh_feature P t p d env).det
  pub hit :
      (t : Tracker P) (p d : PersonObject P) → setting t ≡ st → Q p → R d → Q (refresh_body P t p d)
  pub miss : (p : PersonObject P) → Q p → Q (record p { is_current_body_detected = false })
  pub see :
      (t : Tracker P) (p d : PersonObject P) → setting t ≡ st → Q p → R d → Q (refresh_face P t p d)
  pub admit :
      (d : PersonObject P) (gid : ℕ)
      → R d
      → Q (record d { is_current_frame_matched_or_new = true; id = to_int gid })
        × R (record d { is_current_frame_matched_or_new = true; id = to_int gid })
  pub count : (t : Tracker P) (p : PersonObject P) → setting t ≡ st → Q p → Q (accumulate P t p)

module _ {P : Platform} {st : Thresholds P × P.Mat} {Q R : PersonObject P → Type 0}
    (k : Keeps P st Q R) where
  pub clear-All : (ps : List (PersonObject P)) → All Q ps → All Q (map (clear_flags P) ps)
  clear-All [] h = h
  clear-All (p ∷ ps) h = (k.clear p h.0, clear-All ps h.1)

  pub count-All :
      (t : Tracker P)
      → setting t ≡ st
      → (ps : List (PersonObject P)) → All Q ps
      → All Q (accumulate_duration P t ps)
  unfolding accumulate_duration
  count-All t e [] h = h
  count-All t e (p ∷ ps) h = (k.count t p e h.0, count-All t e ps h.1)

  matched-Sound :
      (t : Tracker P) (p d : PersonObject P) (env : Env)
      → setting t ≡ st
      → Q p
      → R d
      → Q (update_matched_object_status P t p d env).object
        × R (update_matched_object_status P t p d env).det
  unfolding update_matched_object_status
  matched-Sound t p d env e q r =
      let marked = (k.mark t p).0 q in
      let offered = (k.mark t d).1 r in
      let (hit, kept) = k.feature t _ _ env e marked offered in
      if_cases {A = Matched P} (λ m. Q m.object × R m.det) d.is_current_body_detected
        (λ _. (k.see t _ _ e (k.hit t _ _ e hit kept) kept, kept))
        λ _. (k.see t _ _ e (k.miss _ marked) r, offered)

  abbrev pub Sound : Work P → Type 0
  Sound w = All Q w.objects × All R w.dets

  update_pair-Sound :
      (t : Tracker P) (m : MatchPair) (w : Work P) {w' : Work P}
      → setting t ≡ st
      → Sound w
      → update_pair P t m w ≡ some w'
      → Sound w'
  unfolding update_pair
  update_pair-Sound t m w e h s =
      let (p, ep, s1) = >>=-eq-some (get_elem? w.objects m.i_index) _ s in
      let (d, ed, s2) = >>=-eq-some (get_elem? w.dets m.j_index) _ s1 in
      let (c, ec, s3) = >>=-eq-some (crop_matched P t p d) _ s2 in
      let kept =
        matched-Sound t p d w.env e (All-get_elem? Q w.objects m.i_index h.0 ep)
          (All-get_elem? R w.dets m.j_index h.1 ed) in
      of_some Sound s3
        (All-set Q w.objects m.i_index _ h.0 kept.0, All-set R w.dets m.j_index _ h.1 kept.1)

  pub update_matched-Sound :
      (t : Tracker P) (ms : List MatchPair) (w : Work P) {w' : Work P}
      → setting t ≡ st
      → Sound w
      → update_matched_objects P t ms w ≡ some w'
      → Sound w'
  unfolding update_matched_objects
  update_matched-Sound t [] w e h s = of_some Sound s h
  update_matched-Sound t (m ∷ ms) w e h s =
      let (v, ev, s1) = >>=-eq-some (update_pair P t m w) _ s in
      update_matched-Sound t ms v e (update_pair-Sound t m w e h ev) s1
