-- ===== src/Track/Keeps/Frame.antt =====
-- A whole frame under a rule of `Keeps`.
use edge_frame.Prelude.{ℕ, ◌≡◌, refl, subst, ◌∙◌, true, List, [], ◌∷◌, ◌++◌, some}
use edge_frame.Prelude.{All, All-append}
use edge_frame.Prelude.{to_int, add_u64, if_cases}
use edge_frame.Platform.{Platform, Env}
use edge_frame.Track.Person.{body, MatchPair, PersonObject, Tracker, Thresholds}
use edge_frame.Track.Sweep.{All-stay, All-moved, sweep-eq}
use edge_frame.Track.Retire.{
  update_unmatched_tracked, update_matched_expired, update_unmatched_expired, add_unmatched,
  tracked_verdict, expired_verdict, matched_verdict,
}
use edge_frame.Track.Run.{UpdateRun, update-run, ReturnRun, update_matched_expired-run}
use edge_frame.Track.Update.{Updated, begin_frame, finish_frame, update}
use edge_frame.Track.Keeps.{Keeps, setting, Sound, clear-All, count-All, update_matched-Sound}
use edge_frame.Track.Keeps.Feature.{feature_match-Sound, MatchSound, match_tracked-Sound}

module _ {P : Platform} {st : Thresholds P × P.Mat} {Q R : PersonObject P → Type 0}
    (k : Keeps P st Q R) where
  add_unmatched-Sound :
      (ts ds : List (PersonObject P)) (gid : ℕ)
      → All Q ts
      → All R ds
      → All Q (add_unmatched P ts ds gid).0 × All R (add_unmatched P ts ds gid).1
  unfolding add_unmatched
  add_unmatched-Sound ts [] gid hq hr = (hq, hr)
  add_unmatched-Sound ts (d ∷ ds) gid hq hr =
      if_cases {A = List (PersonObject P) × List (PersonObject P) × ℕ} (λ r. All Q r.0 × All R r.1)
        d.is_current_frame_matched_or_new
        (λ _. let rest = add_unmatched-Sound ts ds gid hq hr.1 in (rest.0, (hr.0, rest.1)))
        λ _.
          let fresh = k.admit d gid hr.0 in
          let rest =
            add_unmatched-Sound
              (ts ++ (record d { is_current_frame_matched_or_new = true; id = to_int gid } ∷ [])) ds
              (add_u64 gid 1) (All-append Q ts _ hq (fresh.0, tt)) hr.1 in
          (rest.0, (fresh.1, rest.1))

  -- `Q` of the tracker's objects and of every object handed out, `R` of the detections.
  abbrev pub UpdateSound : Updated P → Type 0
  UpdateSound u =
      All Q u.tracker.tracked
      × All Q u.tracker.expired
      × All R u.dets
      × All Q u.iou_not_matched
      × All Q u.expired_objects
      × All Q u.valid_leave

  finish_frame-Sound :
      (t : Tracker P) (dets : List (PersonObject P)) (frame_id : ℕ) (missed : List (PersonObject P))
      (env : Env) (xs leaves : List (PersonObject P))
      → setting t ≡ st
      → All Q t.tracked
      → All Q t.expired
      → All R dets
      → All Q missed
      → All Q xs
      → All Q leaves
      → UpdateSound (finish_frame P t dets frame_id missed env xs leaves)
  unfolding finish_frame update_unmatched_expired
  finish_frame-Sound t dets frame_id missed env xs leaves e ht he hr hm hx hl =
      rw (sweep-eq (expired_verdict P t frame_id) t.expired leaves) (
        count-All k _ e _ added.0,
        All-stay _ Q t.expired he,
        added.1,
        hm,
        All-append Q xs _ hx (All-stay _ Q t.expired he),
        All-append Q leaves _ hl (All-moved _ Q t.expired he),
      )
    where
      added :
          All Q (add_unmatched P t.tracked dets t.global_id).0
          × All R (add_unmatched P t.tracked dets t.global_id).1
      added = add_unmatched-Sound t.tracked dets t.global_id ht hr

  abbrev ReturnSound : Tracker P → Tracker P × List (PersonObject P) × Env → Type 0
  ReturnSound t r = (setting r.0 ≡ setting t) × All Q r.0.tracked × All Q r.0.expired × All R r.1

  pub update_unmatched_tracked-Sound :
      (t : Tracker P) (frame_id : ℕ)
      → All Q t.tracked
      → All Q t.expired
      → All Q (update_unmatched_tracked P t frame_id).tracked
        × All Q (update_unmatched_tracked P t frame_id).expired
        × (setting (update_unmatched_tracked P t frame_id) ≡ setting t)
  unfolding update_unmatched_tracked
  update_unmatched_tracked-Sound t frame_id ht he =
      rw (sweep-eq (tracked_verdict P t frame_id) t.tracked t.expired)
        (All-stay _ Q t.tracked ht, All-append Q t.expired _ he (All-moved _ Q t.tracked ht), refl)

  update_matched_expired-Sound :
      (t : Tracker P) (pairs : List MatchPair) (dets : List (PersonObject P)) (env : Env)
      {r : Tracker P × List (PersonObject P) × Env}
      → setting t ≡ st
      → All Q t.tracked
      → All Q t.expired
      → All R dets
      → update_matched_expired P t pairs dets env ≡ some r
      → ReturnSound t r
  update_matched_expired-Sound t pairs dets env {r} e ht he hr s =
      subst (ReturnSound t) run.result_is (
        rw (sweep-eq (matched_verdict P) run.work.objects t.tracked) (
          refl,
          All-append Q t.tracked _ ht (All-moved _ Q _ worked.0),
          All-stay _ Q _ worked.0,
          worked.1,
        ))
    where
      run : ReturnRun P t pairs dets env r
      run = update_matched_expired-run P t pairs dets env s

      worked : Sound k run.work
      worked = update_matched-Sound k t pairs _ e (he, hr) run.ran

  -- After a frame that did not abort, `Q` holds of every object that the tracker keeps or hands
  -- out and `R` of every detection, if they held before and the steps on single objects keep them.
  pub update-Sound :
      (t : Tracker P) (env : Env) (frame : P.Mat) (dets : List (PersonObject P))
      (timestamp frame_id : ℕ) (ms xs leaves : List (PersonObject P)) {u : Updated P}
      → (t.thresholds, frame) ≡ st
      → All Q t.tracked
      → All Q t.expired
      → All R dets
      → All Q ms
      → All Q xs
      → All Q leaves
      → update P t env frame dets timestamp frame_id ms xs leaves ≡ some u
      → UpdateSound u
  unfolding update begin_frame
  update-Sound t env frame dets timestamp frame_id ms xs leaves {u} e ht he hr hm hx hl s =
      subst UpdateSound run.result_is (
        finish_frame-Sound run.returned.0 run.returned.1 frame_id _ run.returned.2 xs leaves
          (returned_sound.0 ∙ e) returned_sound.1 returned_sound.2 returned_sound.3
          (All-append Q ms _ hm sound.2) hx hl)
    where
      run : UpdateRun P t env frame dets timestamp frame_id ms xs leaves u
      run = update-run P t env frame dets timestamp frame_id ms xs leaves s

      sound : MatchSound k (begin_frame P t frame timestamp frame_id) run.matched
      sound = match_tracked-Sound k _ dets env e (clear-All k t.tracked ht) hr run.match_ran

      returned_sound : ReturnSound (begin_frame P t frame timestamp frame_id) run.returned
      returned_sound =
          let lost =
            update_unmatched_tracked-Sound run.matched.tracker frame_id sound.0 (rw sound.3 he) in
          let found =
            feature_match-Sound k (update_unmatched_tracked P run.matched.tracker frame_id) _ body _
              _ (lost.2 ∙ (sound.4 ∙ e)) sound.1 run.find_ran in
          let back =
            update_matched_expired-Sound _ run.found.out _ _ (lost.2 ∙ (sound.4 ∙ e)) lost.0 lost.1
              found run.return_ran in
          (back.0 ∙ (lost.2 ∙ sound.4), back.1, back.2, back.3)
