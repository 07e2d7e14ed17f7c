-- ===== src/Track/Ids.antt =====
-- Identities: `global_id` gives every new object a number of its own, and no step copies one.
pub mod Sizes
pub mod Steps
pub mod Frame
use edge_frame.Prelude.{
  ℕ, suc, ◌+◌, ◌-◌, ◌≤◌, ◌<◌, ◌≡◌, refl, ◌∙◌, Bool, true, false, List, [], ◌∷◌, ◌++◌,
}
use edge_frame.Prelude.{
  some, none, arith, length, All, if◌then◌else◌, if_cases, nat_beq, get_elem?, set, map,
  >>=-eq-some, of_some, some_eq, subst, zero, ap, sym,
}
use edge_frame.Prelude.{count_if, count_if-set, count_if-append, length-append, length-set, Option}
use edge_frame.Platform.{Platform, Env}
use edge_frame.Track.Person.{PersonObject, Tracker, MatchPair, face, body, BBoxType}
use edge_frame.Track.Match.{
  ensure_feature, extract_feature, min_cost, Scan, feature_cell, feature_row, feature_table,
  feature_match,
}
use edge_frame.Track.Refresh.{
  refresh_feature, refresh_body, refresh_face, update_matched_object_status, Matched, mark_matched,
  Work, update_pair, crop_matched, update_matched_objects,
}
use edge_frame.Track.Sweep.{Verdict, stay, moved}
use edge_frame.Track.Retire.{accumulate, accumulate_duration}
use edge_frame.Track.Update.{clear_flags}

module _ (P : Platform) where
  -- How many of the objects have the identity `a`.
  abbrev pub occurrences : ℕ → List (PersonObject P) → ℕ
  occurrences a = count_if (λ p. nat_beq p.id a)

  refresh_feature-id :
      (t : Tracker P) (p d : PersonObject P) (env : Env)
      → (refresh_feature P t p d env).object.id ≡ p.id
  unfolding refresh_feature
  refresh_feature-id t p d env = ground arith

  refresh_face-id : (t : Tracker P) (p d : PersonObject P) → (refresh_face P t p d).id ≡ p.id
  unfolding refresh_face
  refresh_face-id t p d = ground arith

  pub matched-id :
      (t : Tracker P) (p d : PersonObject P) (env : Env)
      → (update_matched_object_status P t p d env).object.id ≡ p.id
  unfolding update_matched_object_status refresh_body
  matched-id t p d env =
      if_cases {A = Matched P} (λ m. m.object.id ≡ p.id) d.is_current_body_detected
        (λ _. refresh_face-id t _ _ ∙ refresh_feature-id t _ _ env) λ _. refresh_face-id t _ _

  pub occurrences-split :
      (a : ℕ) (verdict : PersonObject P → Verdict) (ps : List (PersonObject P))
      → occurrences a (stay verdict ps) + occurrences a (moved verdict ps) ≤ occurrences a ps
  unfolding stay moved
  occurrences-split a verdict [] = omega arith
  occurrences-split a verdict (p ∷ ps) = ground (arith, occurrences-split a verdict ps)

  pub occurrences-clear :
      (a : ℕ) (ps : List (PersonObject P))
      → occurrences a (map (clear_flags P) ps) ≡ occurrences a ps
  occurrences-clear a [] = refl
  occurrences-clear a (p ∷ ps) = omega (arith, occurrences-clear a ps)

  accumulate-id : (t : Tracker P) (p : PersonObject P) → (accumulate P t p).id ≡ p.id
  unfolding accumulate
  accumulate-id t p = ground arith

  pub occurrences-accumulate :
      (a : ℕ) (t : Tracker P) (ps : List (PersonObject P))
      → occurrences a (accumulate_duration P t ps) ≡ occurrences a ps
  unfolding accumulate_duration
  occurrences-accumulate a t [] = refl
  occurrences-accumulate a t (p ∷ ps) =
      rw (accumulate-id t p) (omega (arith, occurrences-accumulate a t ps))

  -- Two states of the work on the pairs that agree on identities and on the number of detections.
  pub record SameWork (w v : Work P) : Type 0 where
    pub same_ids : (a : ℕ) → occurrences a v.objects ≡ occurrences a w.objects
    pub same_dets : length v.dets ≡ length w.dets

  update_pair-SameWork :
      (t : Tracker P) (m : MatchPair) (w : Work P) {v : Work P}
      → update_pair P t m w ≡ some v
      → SameWork w v
  unfolding update_pair
  update_pair-SameWork t m w s =
      let (p, ep, s1) = >>=-eq-some (get_elem? w.objects m.i_index) _ s in
      let (d, ed, s2) = >>=-eq-some (get_elem? w.dets m.j_index) _ s1 in
      let (c, ec, s3) = >>=-eq-some (crop_matched P t p d) _ s2 in
      of_some (SameWork w) s3 (record {
        same_ids = λ a.
            count_if-set _ w.objects m.i_index p _ ep
              (ap (λ i. nat_beq i a) (sym (matched-id t p d w.env)));
        same_dets = length-set w.dets m.j_index _;
      })

  pub update_matched-SameWork :
      (t : Tracker P) (ms : List MatchPair) (w : Work P) {v : Work P}
      → update_matched_objects P t ms w ≡ some v
      → SameWork w v
  unfolding update_matched_objects
  update_matched-SameWork t [] w s =
      of_some (SameWork w) s (record { same_ids = λ a. refl; same_dets = refl })
  update_matched-SameWork t (m ∷ ms) w s =
      let (w', ew, s1) = >>=-eq-some (update_pair P t m w) _ s in
      let one = update_pair-SameWork t m w ew in
      let rest = update_matched-SameWork t ms w' s1 in
      record {
        same_ids = λ a. rest.same_ids a ∙ one.same_ids a;
        same_dets = rest.same_dets ∙ one.same_dets;
      }
