-- ===== src/Track/Ids/Frame.antt =====
-- Identities through a whole frame.
use edge_frame.Prelude.{ℕ, suc, ◌+◌, ◌^◌, ◌≤◌, ◌<◌, ◌≡◌, refl, ◌∙◌, true, List, [], ◌∷◌, ◌++◌, ◌≢◌}
use edge_frame.Prelude.{some, arith, length, if_cases, nat_beq, subst}
use edge_frame.Prelude.{count_if-append, add_u64, add_u64-eq, to_int, to_int-eq}
use native.Mathlib.Decide.{dec_lt}
use edge_frame.Platform.{Platform, Env}
use edge_frame.Track.Person.{PersonObject, Tracker, body}
use edge_frame.Track.Retire.{
  add_unmatched, accumulate_duration, update_unmatched_tracked, update_unmatched_expired,
}
use edge_frame.Track.Run.{UpdateRun, update-run}
use edge_frame.Track.Update.{Updated, begin_frame, finish_frame, update}
use edge_frame.Track.Ids.{occurrences, occurrences-accumulate}
use edge_frame.Track.Ids.Sizes.{feature_match-length}
use edge_frame.Track.Ids.Steps.{
  IdsFresh, NoMoreIds, NoMoreIds-trans, begin_frame-NoMoreIds, update_unmatched_tracked-NoMoreIds,
  match_tracked-NoMoreIds, update_matched_expired-NoMoreIds, update_unmatched_expired-NoMoreIds,
}

module _ (P : Platform) where
  -- `AddUnMatchedCurDetectedObjects` gives out the numbers from `gid` on, each once.
  record Admitted (ts : List (PersonObject P)) (gid n : ℕ)
      (r : List (PersonObject P) × List (PersonObject P) × ℕ) : Type 0 where
    grows : (gid ≤ r.2) × (r.2 ≤ gid + n)
    old_ids : (a : ℕ) → a < gid → occurrences P a r.0 ≡ occurrences P a ts
    later_ids : (a : ℕ) → r.2 ≤ a → occurrences P a r.0 ≡ occurrences P a ts
    one_more : (a : ℕ) → occurrences P a r.0 ≤ occurrences P a ts + 1

  occurrences-snoc_other :
      (a : ℕ) (ts : List (PersonObject P)) (p : PersonObject P)
      → p.id ≢ a
      → occurrences P a (ts ++ (p ∷ [])) ≡ occurrences P a ts
  occurrences-snoc_other a ts p h =
      ground (arith, count_if-append (λ q. nat_beq q.id a) ts (p ∷ []))

  occurrences-snoc-le :
      (a : ℕ) (ts : List (PersonObject P)) (p : PersonObject P)
      → occurrences P a (ts ++ (p ∷ [])) ≤ occurrences P a ts + 1
  occurrences-snoc-le a ts p = ground (arith, count_if-append (λ q. nat_beq q.id a) ts (p ∷ []))

  -- One more object with the next number.
  Admitted-cons :
      (ts : List (PersonObject P)) (p : PersonObject P) (gid n : ℕ)
      (r : List (PersonObject P) × List (PersonObject P) × ℕ) (q : PersonObject P)
      → p.id ≡ gid
      → Admitted (ts ++ (p ∷ [])) (gid + 1) n r
      → Admitted ts gid (suc n) (r.0, q ∷ r.1, r.2)
  Admitted-cons ts p gid n r q e h = record {
    grows = (omega (arith, h.grows), omega (arith, h.grows));
    old_ids = λ a k. h.old_ids a (omega arith) ∙ occurrences-snoc_other a ts p (omega arith);
    later_ids = λ a k. h.later_ids a k ∙ occurrences-snoc_other a ts p (omega (arith, h.grows));
    one_more = λ a. one a (dec_lt a (gid + 1));
  }
    where
      one : (a : ℕ) → Dec (a < gid + 1) → occurrences P a r.0 ≤ occurrences P a ts + 1
      one a (yes k) = omega (arith, h.old_ids a k, occurrences-snoc-le a ts p)
      one a (no k) = omega (arith, h.one_more a, occurrences-snoc_other a ts p (omega arith))

  add_unmatched-Admitted :
      (ts ds : List (PersonObject P)) (gid : ℕ)
      → gid + length ds ≤ 2 ^ 32
      → Admitted ts gid (length ds) (add_unmatched P ts ds gid)
  unfolding add_unmatched
  add_unmatched-Admitted ts [] gid h = record {
    grows = (omega arith, omega arith);
    old_ids = λ a _. refl;
    later_ids = λ a _. refl;
    one_more = λ a. omega arith;
  }
  add_unmatched-Admitted ts (d ∷ ds) gid h =
      if_cases {A = List (PersonObject P) × List (PersonObject P) × ℕ}
        (Admitted ts gid (length (d ∷ ds))) d.is_current_frame_matched_or_new
        (λ _.
          let rest = add_unmatched-Admitted ts ds gid (omega arith) in
          record {
            grows = (rest.grows.0, omega (arith, rest.grows.1));
            old_ids = rest.old_ids;
            later_ids = rest.later_ids;
            one_more = rest.one_more;
          })
        λ _.
          Admitted-cons ts (record d { is_current_frame_matched_or_new = true; id = to_int gid })
            gid (length ds) _ _ (to_int-eq gid (omega arith))
            (subst
              (λ g.
                Admitted
                  (ts
                    ++ (record d { is_current_frame_matched_or_new = true; id = to_int gid } ∷ []))
                  g (length ds)
                  (add_unmatched P
                    (ts
                      ++ (record d { is_current_frame_matched_or_new = true; id = to_int gid }
                          ∷ []))
                    ds (add_u64 gid 1)))
              (add_u64-eq gid 1 (omega arith))
              (add_unmatched-Admitted
                (ts ++ (record d { is_current_frame_matched_or_new = true; id = to_int gid } ∷ []))
                ds (add_u64 gid 1) (omega (arith, add_u64-eq gid 1 (omega arith)))))

  NoMoreIds-IdsFresh : {t u : Tracker P} → NoMoreIds P t u → IdsFresh P t → IdsFresh P u
  NoMoreIds-IdsFresh n f = record {
    unique = λ a. omega (arith, n.no_more a, f.unique a);
    below =
        λ a h. omega (arith, n.no_more a, n.same_global, f.below a (omega (arith, n.same_global)));
  }

  finish_frame-IdsFresh :
      (t : Tracker P) (dets : List (PersonObject P)) (frame_id : ℕ) (missed : List (PersonObject P))
      (env : Env) (xs leaves : List (PersonObject P))
      → t.global_id + length dets ≤ 2 ^ 32
      → IdsFresh P t
      → IdsFresh P (finish_frame P t dets frame_id missed env xs leaves).tracker
  unfolding finish_frame
  finish_frame-IdsFresh t dets frame_id missed env xs leaves h f = record {
    unique = λ a. one a (dec_lt a t'.global_id);
    below = λ a k. omega (
      arith,
      occurrences-accumulate P a t' added.0,
      admitted.later_ids a k,
      admitted.grows,
      fresh.below a (omega (arith, admitted.grows)),
    );
  }
    where
      t' : Tracker P
      t' = (update_unmatched_expired P t frame_id leaves).0

      fewer : NoMoreIds P t t'
      fewer = update_unmatched_expired-NoMoreIds P t frame_id leaves

      fresh : IdsFresh P t'
      fresh = NoMoreIds-IdsFresh fewer f

      added : List (PersonObject P) × List (PersonObject P) × ℕ
      added = add_unmatched P t'.tracked dets t'.global_id

      admitted : Admitted t'.tracked t'.global_id (length dets) added
      admitted =
          add_unmatched-Admitted t'.tracked dets t'.global_id (omega (arith, fewer.same_global))

      one :
          (a : ℕ)
          → Dec (a < t'.global_id)
          → occurrences P a (accumulate_duration P t' added.0) + occurrences P a t'.expired ≤ 1
      one a (yes k) =
          omega (arith, occurrences-accumulate P a t' added.0, admitted.old_ids a k, fresh.unique a)
      one a (no k) = omega (
        arith,
        occurrences-accumulate P a t' added.0,
        admitted.one_more a,
        fresh.below a (omega arith),
      )

  -- Over a frame that did not abort, no identity is lost to another object: if the identities of the
  -- tracked and expired objects are distinct and below `global_id`, so they are afterwards, as long
  -- as `global_id` stays within the `int` that it is stored in.
  pub update-IdsFresh :
      (t : Tracker P) (env : Env) (frame : P.Mat) (dets : List (PersonObject P))
      (timestamp frame_id : ℕ) (ms xs leaves : List (PersonObject P)) {u : Updated P}
      → t.global_id + length dets ≤ 2 ^ 32
      → IdsFresh P t
      → update P t env frame dets timestamp frame_id ms xs leaves ≡ some u
      → IdsFresh P u.tracker
  update-IdsFresh t env frame dets timestamp frame_id ms xs leaves {u} h f s =
      subst (λ u. IdsFresh P u.tracker) run.result_is
        (finish_frame-IdsFresh run.returned.0 run.returned.1 frame_id _ run.returned.2 xs leaves
          (omega (arith, whole.same_global, sizes)) (NoMoreIds-IdsFresh whole f))
    where
      run : UpdateRun P t env frame dets timestamp frame_id ms xs leaves u
      run = update-run P t env frame dets timestamp frame_id ms xs leaves s

      matched :
          NoMoreIds P (begin_frame P t frame timestamp frame_id) run.matched.tracker
          × (length run.matched.dets ≡ length dets)
      matched = match_tracked-NoMoreIds P _ dets env run.match_ran

      back :
          NoMoreIds P (update_unmatched_tracked P run.matched.tracker frame_id) run.returned.0
          × (length run.returned.1 ≡ length run.found.dets)
      back = update_matched_expired-NoMoreIds P _ run.found.out _ _ run.return_ran

      sizes : length run.returned.1 ≡ length dets
      sizes = back.1 ∙ (feature_match-length P _ _ body _ _ run.find_ran ∙ matched.1)

      whole : NoMoreIds P t run.returned.0
      whole = NoMoreIds-trans P (begin_frame-NoMoreIds P t frame timestamp frame_id) (
          NoMoreIds-trans P matched.0 (
            NoMoreIds-trans P (update_unmatched_tracked-NoMoreIds P run.matched.tracker frame_id)
              back.0))
