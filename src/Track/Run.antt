-- ===== src/Track/Run.antt =====
-- The stages of a call of `Tracker::Update` that did not abort, by name: what each produced.
use edge_frame.Prelude.{ℕ, ◌≡◌, true, List, ◌++◌, some, Bool-cases, inl, inr}
use edge_frame.Prelude.{>>=-eq-some, some_eq, none-ne-some}
use edge_frame.Platform.{Platform, Env}
use edge_frame.Track.Person.{body, MatchPair, PersonObject, Tracker}
use edge_frame.Track.Match.{feature_match, Scan}
use edge_frame.Track.Refresh.{Work, update_matched_objects}
use edge_frame.Track.Sweep.{sweep}
use edge_frame.Track.Retire.{update_unmatched_tracked, update_matched_expired, matched_verdict}
use edge_frame.Track.Update.{
  Updated, begin_frame, all_unmatched, AfterMatch, match_tracked, finish_frame, update,
}

module _ (P : Platform) where
  -- `UpdateMatchedExpiredObjects` that ran to its end.
  pub record ReturnRun (t : Tracker P) (pairs : List MatchPair) (dets : List (PersonObject P))
      (env : Env) (r : Tracker P × List (PersonObject P) × Env) : Type 0 where
    pub work : Work P
    pub ran :
        update_matched_objects P t pairs (record { objects = t.expired; dets = dets; env = env })
        ≡ some work
    pub result_is :
        (
          record t {
            tracked = (sweep (matched_verdict P) work.objects t.tracked).out;
            expired = (sweep (matched_verdict P) work.objects t.tracked).left;
          },
          work.dets,
          work.env,
        )
        ≡ r

  pub update_matched_expired-run :
      (t : Tracker P) (pairs : List MatchPair) (dets : List (PersonObject P)) (env : Env)
      {r : Tracker P × List (PersonObject P) × Env}
      → update_matched_expired P t pairs dets env ≡ some r
      → ReturnRun t pairs dets env r
  unfolding update_matched_expired
  update_matched_expired-run t pairs dets env s =
      let (w, ew, s1) = >>=-eq-some (update_matched_objects P t pairs _) _ s in
      record { work = w; ran = ew; result_is = some_eq s1 }

  module _ (t : Tracker P) (env : Env) (frame : P.Mat) (dets : List (PersonObject P))
      (timestamp frame_id : ℕ) (ms xs leaves : List (PersonObject P)) where
    -- `Update` that ran to its end.
    pub record UpdateRun (u : Updated P) : Type 0 where
      pub fresh : all_unmatched P dets ≡ true
      pub matched : AfterMatch P
      pub match_ran :
          match_tracked P (begin_frame P t frame timestamp frame_id) dets env ≡ some matched
      pub found : Scan P (List MatchPair)
      pub find_ran :
          feature_match P
            (update_unmatched_tracked P matched.tracker frame_id)
            (update_unmatched_tracked P matched.tracker frame_id).expired
            body
            matched.dets
            matched.env
          ≡ some found
      pub returned : Tracker P × List (PersonObject P) × Env
      pub return_ran :
          update_matched_expired P
            (update_unmatched_tracked P matched.tracker frame_id)
            found.out
            found.dets
            found.env
          ≡ some returned
      pub result_is :
          finish_frame P returned.0 returned.1 frame_id (ms ++ matched.missed) returned.2 xs leaves
          ≡ u

    pub update-run :
        {u : Updated P}
        → update P t env frame dets timestamp frame_id ms xs leaves ≡ some u
        → UpdateRun u
    unfolding update
    update-run s = elim (Bool-cases (all_unmatched P dets)) [
      | inl fine ↦
          let (m, em, s1) =
            >>=-eq-some (match_tracked P (begin_frame P t frame timestamp frame_id) dets env) _
              (rw fine at s) in
          let (c, ec, s2) = >>=-eq-some (feature_match P _ _ body m.dets m.env) _ s1 in
          let (r, er, s3) = >>=-eq-some (update_matched_expired P _ c.out c.dets c.env) _ s2 in
          record {
            fresh = fine;
            matched = m;
            match_ran = em;
            found = c;
            find_ran = ec;
            returned = r;
            return_ran = er;
            result_is = some_eq s3;
          }
      | inr failed ↦ absurd (none-ne-some (rw failed at s))
    ]
