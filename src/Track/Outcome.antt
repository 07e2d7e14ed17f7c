-- ===== src/Track/Outcome.antt =====
-- Where `Tracker::Update`, modules/track/src/tracker.cpp, leaves every object and every detection.
use edge_frame.Prelude.{
  ℕ, Bool, true, false, not, ◌&&◌, ◌||◌, ◌≡◌, refl, ap, ◌∙◌, List, [], ◌∷◌, ◌++◌, some, arith, All,
  if◌then◌else◌, if_cases, Bool-cases, inl, inr, subst, select, append-nil, append_assoc, add_u64,
  to_int,
}
use edge_frame.Platform.{Platform, Env}
use edge_frame.Track.Person.{
  body, unconfirmed, confirmed, ObjectStatus, MatchPair, PersonObject, Tracker,
}
use edge_frame.Track.Match.{feature_match, Scan}
use edge_frame.Track.Refresh.{Work, update_matched_objects}
use edge_frame.Track.Sweep.{sweep, sweep-eq, stay, moved}
use edge_frame.Track.Retire.{
  unseen_for, tracked_verdict, expired_verdict, matched_verdict, check_valid_leave,
  update_unmatched_tracked, update_unmatched_expired, add_unmatched, accumulate, is_resident,
  was_resident, accumulate_duration,
}
use edge_frame.Track.Run.{update-run, update_matched_expired-run}
use edge_frame.Track.Update.{Updated, begin_frame, AfterMatch, match_tracked, finish_frame, update}

module _ (P : Platform) where
  abbrev is_confirmed : ObjectStatus → Bool
  is_confirmed confirmed = true
  is_confirmed unconfirmed = false

  abbrev pub was_matched : PersonObject P → Bool
  was_matched p = p.is_current_frame_matched_or_new

  module _ (t : Tracker P) (frame_id : ℕ) where
    abbrev is_lost : PersonObject P → Bool
    is_lost = unseen_for P frame_id t.thresholds.lost_track_thresh

    abbrev is_due : PersonObject P → Bool
    is_due = unseen_for P frame_id t.thresholds.expired_to_delete_thresh

    -- A tracked object that was matched, or is confirmed and not lost.
    abbrev pub remains : PersonObject P → Bool
    remains p = was_matched p || (is_confirmed p.object_status && not (is_lost p))

    -- A tracked object that was not matched, is confirmed and lost.
    abbrev pub expires : PersonObject P → Bool
    expires p = not (was_matched p) && (is_confirmed p.object_status && is_lost p)

    -- An expired object that was not matched and is not due.
    abbrev pub waits : PersonObject P → Bool
    waits p = not (was_matched p) && not (is_due p)

    -- An expired object that was not matched, is due, and has the history that is asked for.
    abbrev pub leaves : PersonObject P → Bool
    leaves p = not (was_matched p) && (is_due p && check_valid_leave P t p)

    stay-remains :
        (ps : List (PersonObject P)) → stay (tracked_verdict P t frame_id) ps ≡ select remains ps
    unfolding stay tracked_verdict
    stay-remains [] = refl
    stay-remains (p ∷ ps) = ground (arith, stay-remains ps)

    moved-expires :
        (ps : List (PersonObject P)) → moved (tracked_verdict P t frame_id) ps ≡ select expires ps
    unfolding moved tracked_verdict
    moved-expires [] = refl
    moved-expires (p ∷ ps) = ground (arith, moved-expires ps)

    stay-waits :
        (ps : List (PersonObject P))
        → stay (expired_verdict P t frame_id) (stay (matched_verdict P) ps) ≡ select waits ps
    unfolding stay expired_verdict matched_verdict
    stay-waits [] = refl
    stay-waits (p ∷ ps) = ground (arith, stay-waits ps)

    moved-leaves :
        (ps : List (PersonObject P))
        → moved (expired_verdict P t frame_id) (stay (matched_verdict P) ps) ≡ select leaves ps
    unfolding stay moved expired_verdict matched_verdict
    moved-leaves [] = refl
    moved-leaves (p ∷ ps) = ground (arith, moved-leaves ps)

  moved-matched :
      (ps : List (PersonObject P)) → moved (matched_verdict P) ps ≡ select was_matched ps
  unfolding moved matched_verdict
  moved-matched [] = refl
  moved-matched (p ∷ ps) = ground (arith, moved-matched ps)

  -- The new objects: one for each detection that was not matched, in order, numbered from `gid` on.
  abbrev pub new_objects : List (PersonObject P) → ℕ → List (PersonObject P)
  new_objects [] gid = []
  new_objects (d ∷ ds) gid =
      let later = new_objects ds (add_u64 gid 1) in
      let skipped = new_objects ds gid in
      if was_matched d
      then skipped
      else record d { is_current_frame_matched_or_new = true; id = to_int gid } ∷ later

  add_unmatched-eq :
      (ts ds : List (PersonObject P)) (gid : ℕ)
      → (add_unmatched P ts ds gid).0 ≡ ts ++ new_objects ds gid
  unfolding add_unmatched
  add_unmatched-eq ts [] gid = simp append-nil
  add_unmatched-eq ts (d ∷ ds) gid = elim (Bool-cases (was_matched d)) [
    | inl e ↦ rw e (add_unmatched-eq ts ds gid)
    | inr e ↦
        let new = record d { is_current_frame_matched_or_new = true; id = to_int gid } in
        rw (e, add_unmatched-eq (ts ++ (new ∷ [])) ds (add_u64 gid 1))
          (append_assoc ts (new ∷ []) (new_objects ds (add_u64 gid 1)))
  ]

  add_unmatched-marked :
      (ts ds : List (PersonObject P)) (gid : ℕ)
      → All (λ d. was_matched d ≡ true) (add_unmatched P ts ds gid).1
  unfolding add_unmatched
  add_unmatched-marked ts [] gid = tt
  add_unmatched-marked ts (d ∷ ds) gid =
      let new = record d { is_current_frame_matched_or_new = true; id = to_int gid } in
      if_cases {A = List (PersonObject P) × List (PersonObject P) × ℕ}
        (λ r. All (λ d. was_matched d ≡ true) r.1) (was_matched d)
        (λ e. (e, add_unmatched-marked ts ds gid))
        (λ _. (refl, add_unmatched-marked (ts ++ (new ∷ [])) ds (add_u64 gid 1)))

  -- The end of a frame, by its three lists, from the matched tracker and the expired objects after
  -- the second matching.
  module _ (m : Tracker P) (frame_id : ℕ) (objects dets missed : List (PersonObject P))
      (env : Env) where
    abbrev returned : Tracker P
    returned = record (update_unmatched_tracked P m frame_id) {
      tracked =
          (sweep (matched_verdict P) objects (update_unmatched_tracked P m frame_id).tracked).out;
      expired =
          (sweep (matched_verdict P) objects (update_unmatched_tracked P m frame_id).tracked).left;
    }

    kept : (update_unmatched_tracked P m frame_id).tracked ≡ select (remains m frame_id) m.tracked
    unfolding update_unmatched_tracked
    kept =
        ap (λ s. s.left) (sweep-eq (tracked_verdict P m frame_id) m.tracked m.expired)
        ∙ stay-remains m frame_id m.tracked

    came_back :
        returned.tracked ≡ select (remains m frame_id) m.tracked ++ select was_matched objects
    came_back =
        ap (λ ts. (sweep (matched_verdict P) objects ts).out) kept
        ∙ ap (λ s. s.out)
            (sweep-eq (matched_verdict P) objects (select (remains m frame_id) m.tracked))
        ∙ ap (λ xs. select (remains m frame_id) m.tracked ++ xs) (moved-matched objects)

    finish_frame-tracked :
        (finish_frame P returned dets frame_id missed env [] []).tracker.tracked
        ≡ accumulate_duration P m (
            (select (remains m frame_id) m.tracked ++ select was_matched objects)
            ++ new_objects dets m.global_id)
    unfolding finish_frame update_unmatched_expired update_unmatched_tracked accumulate_duration
        accumulate is_resident was_resident
    finish_frame-tracked = ap (accumulate_duration P m) (
        add_unmatched-eq returned.tracked dets m.global_id
        ∙ ap (λ ts. ts ++ new_objects dets m.global_id) came_back)

    -- What the last sweep works on, and what it does.
    last_sweep : sweep (expired_verdict P returned frame_id) returned.expired [] ≡ record {
      left = select (waits m frame_id) objects;
      out = select (leaves m frame_id) objects;
    }
    unfolding expired_verdict check_valid_leave update_unmatched_tracked
    last_sweep =
        ap (λ xs. sweep (expired_verdict P m frame_id) xs [])
          (ap (λ s. s.left) (sweep-eq (matched_verdict P) objects _))
        ∙ sweep-eq (expired_verdict P m frame_id) (stay (matched_verdict P) objects) []
        ∙ λ i. record {
          left = stay-waits m frame_id objects i;
          out = moved-leaves m frame_id objects i;
        }

  module _ (t : Tracker P) (env : Env) (frame : P.Mat) (dets : List (PersonObject P))
      (timestamp frame_id : ℕ) where
    -- The result of a frame, from what its two rounds of matching left.
    pub record Outcome (u : Updated P) : Type 0 where
      pub matched : AfterMatch P
      pub match_ran :
          match_tracked P (begin_frame P t frame timestamp frame_id) dets env ≡ some matched
      pub retired : Tracker P
      pub retired_is : retired ≡ update_unmatched_tracked P matched.tracker frame_id
      pub retired_expired :
          retired.expired
          ≡ matched.tracker.expired
            ++ select (expires matched.tracker frame_id) matched.tracker.tracked
      pub found : Scan P (List MatchPair)
      pub find_ran :
          feature_match P retired retired.expired body matched.dets matched.env ≡ some found
      pub work : Work P
      pub work_ran :
          update_matched_objects P retired found.out
            (record { objects = retired.expired; dets = found.dets; env = found.env })
          ≡ some work
      pub tracked_is :
          u.tracker.tracked
          ≡ accumulate_duration P matched.tracker (
              (select (remains matched.tracker frame_id) matched.tracker.tracked
                ++ select was_matched work.objects)
              ++ new_objects work.dets matched.tracker.global_id)
      pub expired_is : u.tracker.expired ≡ select (waits matched.tracker frame_id) work.objects
      pub leave_is : u.valid_leave ≡ select (leaves matched.tracker frame_id) work.objects
      pub dets_are : All (λ d. was_matched d ≡ true) u.dets

    -- After a frame that did not abort: the expired objects that are compared with the detections are
    -- those of before and, after them, the tracked ones that were not matched, are confirmed and lost.
    -- Then the tracked objects are those that were matched or are confirmed and not lost, those that
    -- came back, and one new object for each detection that was not matched, numbered on from
    -- `global_id`, in this order and with their time accumulated. The expired objects are those that
    -- did not come back and are not due, and those reported as leaving are the ones that did not come
    -- back, are due and pass `CheckValidLeave`, all in their order. Every detection is marked.
    pub update-Outcome :
        {u : Updated P} → update P t env frame dets timestamp frame_id [] [] [] ≡ some u → Outcome u
    unfolding update_unmatched_tracked finish_frame update_unmatched_expired
    update-Outcome {u} s =
        let run = update-run P t env frame dets timestamp frame_id [] [] [] s in
        let m = run.matched.tracker in
        let back = update_matched_expired-run P _ run.found.out _ _ run.return_ran in
        let ended =
          last_sweep m frame_id back.work.objects back.work.dets run.matched.missed back.work.env in
        subst Outcome run.result_is (
          subst (λ r. Outcome (finish_frame P r.0 r.1 frame_id run.matched.missed r.2 [] []))
            back.result_is
            (record {
              matched = run.matched;
              match_ran = run.match_ran;
              retired = update_unmatched_tracked P m frame_id;
              retired_is = refl;
              retired_expired =
                  ap (λ s. s.out) (sweep-eq (tracked_verdict P m frame_id) m.tracked m.expired)
                  ∙ ap (λ xs. m.expired ++ xs) (moved-expires m frame_id m.tracked);
              found = run.found;
              find_ran = run.find_ran;
              work = back.work;
              work_ran = back.ran;
              tracked_is =
                  finish_frame-tracked m frame_id back.work.objects back.work.dets
                    run.matched.missed back.work.env;
              expired_is = ap (λ s. s.left) ended;
              leave_is = ap (λ s. s.out) ended;
              dets_are = add_unmatched-marked _ back.work.dets m.global_id;
            }))
