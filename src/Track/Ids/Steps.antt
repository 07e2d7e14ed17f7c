-- ===== src/Track/Ids/Steps.antt =====
-- No step of a frame before the new objects come in makes an identity more frequent.
use edge_frame.Prelude.{ℕ, ◌+◌, ◌≤◌, ◌≡◌, refl, ◌∙◌, List}
use edge_frame.Prelude.{some, arith, length, nat_beq, >>=-eq-some, of_some, subst}
use edge_frame.Prelude.{count_if-append}
use edge_frame.Platform.{Platform, Env}
use edge_frame.Track.Person.{PersonObject, Tracker, MatchPair, body}
use edge_frame.Track.Match.{feature_match, iou_match}
use edge_frame.Track.Refresh.{update_matched_objects}
use edge_frame.Track.Sweep.{sweep-eq, moved}
use edge_frame.Track.Retire.{
  tracked_verdict, expired_verdict, matched_verdict, update_unmatched_tracked,
  update_unmatched_expired, update_matched_expired,
}
use edge_frame.Track.Run.{ReturnRun, update_matched_expired-run}
use edge_frame.Track.Update.{AfterMatch, begin_frame, match_tracked}
use edge_frame.Track.Ids.{
  occurrences, occurrences-split, occurrences-clear, SameWork, update_matched-SameWork,
}
use edge_frame.Track.Ids.Sizes.{feature_match-length}

module _ (P : Platform) where
  -- No identity stands twice among the tracked and the expired objects, and none of those that
  -- `global_id` has still to give out stands there.
  pub record IdsFresh (t : Tracker P) : Type 0 where
    pub unique : (a : ℕ) → occurrences P a t.tracked + occurrences P a t.expired ≤ 1
    pub below :
        (a : ℕ) → t.global_id ≤ a → occurrences P a t.tracked + occurrences P a t.expired ≡ 0

  -- Identities at two moments of a frame: none is more frequent, and `global_id` is the same.
  pub record NoMoreIds (t u : Tracker P) : Type 0 where
    pub no_more :
        (a : ℕ)
        → occurrences P a u.tracked + occurrences P a u.expired
          ≤ occurrences P a t.tracked + occurrences P a t.expired
    pub same_global : u.global_id ≡ t.global_id

  pub NoMoreIds-trans : {t u v : Tracker P} → NoMoreIds t u → NoMoreIds u v → NoMoreIds t v
  NoMoreIds-trans h k = record {
    no_more = λ a. omega (arith, h.no_more a, k.no_more a);
    same_global = k.same_global ∙ h.same_global;
  }

  pub begin_frame-NoMoreIds :
      (t : Tracker P) (frame : P.Mat) (timestamp frame_id : ℕ)
      → NoMoreIds t (begin_frame P t frame timestamp frame_id)
  unfolding begin_frame
  begin_frame-NoMoreIds t frame timestamp frame_id = record {
    no_more = λ a. omega (arith, occurrences-clear P a t.tracked);
    same_global = refl;
  }

  pub update_unmatched_tracked-NoMoreIds :
      (t : Tracker P) (frame_id : ℕ) → NoMoreIds t (update_unmatched_tracked P t frame_id)
  unfolding update_unmatched_tracked
  update_unmatched_tracked-NoMoreIds t frame_id =
      rw (sweep-eq (tracked_verdict P t frame_id) t.tracked t.expired) (record {
        no_more = λ a. omega (
          arith,
          count_if-append (λ p. nat_beq p.id a) t.expired
              (moved (tracked_verdict P t frame_id) t.tracked),
          occurrences-split P a (tracked_verdict P t frame_id) t.tracked,
        );
        same_global = refl;
      })

  pub match_tracked-NoMoreIds :
      (t : Tracker P) (dets : List (PersonObject P)) (env : Env) {m : AfterMatch P}
      → match_tracked P t dets env ≡ some m
      → NoMoreIds t m.tracker × (length m.dets ≡ length dets)
  unfolding match_tracked
  match_tracked-NoMoreIds t dets env s =
      let (by_box, _, s1) = >>=-eq-some (iou_match P t body t.tracked dets) _ s in
      let (w, ew, s2) = >>=-eq-some (update_matched_objects P t by_box _) _ s1 in
      let (c, ec, s3) = >>=-eq-some (feature_match P t w.objects body w.dets w.env) _ s2 in
      let (w', ew', s4) = >>=-eq-some (update_matched_objects P t c.out _) _ s3 in
      let boxed = update_matched-SameWork P t by_box _ ew in
      let featured = update_matched-SameWork P t c.out _ ew' in
      of_some (λ m. NoMoreIds t m.tracker × (length m.dets ≡ length dets)) s4
        (
          record {
            no_more = λ a. omega (arith, boxed.same_ids a, featured.same_ids a);
            same_global = refl;
          },
          featured.same_dets
              ∙ (feature_match-length P t w.objects body w.dets w.env ec ∙ boxed.same_dets),
        )

  pub update_matched_expired-NoMoreIds :
      (t : Tracker P) (pairs : List MatchPair) (dets : List (PersonObject P)) (env : Env)
      {r : Tracker P × List (PersonObject P) × Env}
      → update_matched_expired P t pairs dets env ≡ some r
      → NoMoreIds t r.0 × (length r.1 ≡ length dets)
  update_matched_expired-NoMoreIds t pairs dets env {r} s =
      subst (λ r. NoMoreIds t r.0 × (length r.1 ≡ length dets)) run.result_is
        (rw (sweep-eq (matched_verdict P) run.work.objects t.tracked) (
          record {
            no_more = λ a. omega (
              arith,
              count_if-append (λ p. nat_beq p.id a) t.tracked
                  (moved (matched_verdict P) run.work.objects),
              occurrences-split P a (matched_verdict P) run.work.objects,
              same.same_ids a,
            );
            same_global = refl;
          },
          same.same_dets,
        ))
    where
      run : ReturnRun P t pairs dets env r
      run = update_matched_expired-run P t pairs dets env s

      same : SameWork P (record { objects = t.expired; dets = dets; env = env }) run.work
      same = update_matched-SameWork P t pairs _ run.ran

  pub update_unmatched_expired-NoMoreIds :
      (t : Tracker P) (frame_id : ℕ) (leaves : List (PersonObject P))
      → NoMoreIds t (update_unmatched_expired P t frame_id leaves).0
  unfolding update_unmatched_expired
  update_unmatched_expired-NoMoreIds t frame_id leaves =
      rw (sweep-eq (expired_verdict P t frame_id) t.expired leaves) (record {
        no_more =
            λ a. omega (arith, occurrences-split P a (expired_verdict P t frame_id) t.expired);
        same_global = refl;
      })
