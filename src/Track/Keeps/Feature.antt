-- ===== src/Track/Keeps/Feature.antt =====
-- `FeatureMatch` and the matching of the tracked objects under a rule of `Keeps`.
use edge_frame.Prelude.{ℕ, ◌≡◌, refl, List, [], ◌∷◌, some}
use edge_frame.Prelude.{All, All-set, All-get_elem?, >>=-eq-some, get_elem?}
use edge_frame.Prelude.{All-select, Bool-cases, of_some, ◌||◌, indexes_from, inl, inr}
use edge_frame.Platform.{Platform, Env}
use edge_frame.Track.Person.{body, BBoxType, face, MatchPair, PersonObject, Tracker, Thresholds}
use edge_frame.Track.Match.{
  is_empty, wants_feature, offers_feature, min_cost, wants_iou, iou_match, feature_match,
  feature_cell, feature_row, feature_table, pick_pairs, Scan, crop,
}
use edge_frame.Track.Refresh.{update_matched_objects}
use edge_frame.Track.Update.{AfterMatch, match_tracked}
use edge_frame.Track.Keeps.{Keeps, setting, Sound, update_matched-Sound}

module _ {P : Platform} {st : Thresholds P × P.Mat} {Q R : PersonObject P → Type 0}
    (k : Keeps P st Q R) where
  feature_cell-Sound :
      (t : Tracker P) (objects : List (PersonObject P)) (ti dj : ℕ) (b : BBoxType)
      (dets : List (PersonObject P)) (env : Env) {c : Scan P P.Double}
      → setting t ≡ st
      → All R dets
      → feature_cell P t objects b ti dj dets env ≡ some c
      → All R c.dets
  unfolding feature_cell
  feature_cell-Sound t objects ti dj face dets env e h s = of_some (λ c. All R c.dets) s h
  feature_cell-Sound t objects ti dj body dets env e h s =
      let (d, ed, s1) = >>=-eq-some (get_elem? dets dj) _ s in
      let (_, _, s0) = >>=-eq-some (crop P t d) _ s1 in
      let (p, ep, s2) = >>=-eq-some (get_elem? objects ti) _ s0 in
      let (c, ec, s3) = >>=-eq-some (min_cost P p.feature_messages _ P.d_one) _ s2 in
      of_some (λ c. All R c.dets) s3
        (All-set R dets dj _ h (k.ensure t d env e (All-get_elem? R dets dj h ed)))

  feature_row-Sound :
      (t : Tracker P) (objects : List (PersonObject P)) (ti : ℕ) (b : BBoxType) (djs : List ℕ)
      (dets : List (PersonObject P)) (env : Env) {c : Scan P (List P.Double)}
      → setting t ≡ st
      → All R dets
      → feature_row P t objects b ti djs dets env ≡ some c
      → All R c.dets
  unfolding feature_row
  feature_row-Sound t objects ti b [] dets env e h s = of_some (λ c. All R c.dets) s h
  feature_row-Sound t objects ti b (dj ∷ djs) dets env e h s =
      let (c, ec, s1) = >>=-eq-some (feature_cell P t objects b ti dj dets env) _ s in
      let (r, er, s2) = >>=-eq-some (feature_row P t objects b ti djs c.dets c.env) _ s1 in
      of_some (λ c. All R c.dets) s2
        (feature_row-Sound t objects ti b djs c.dets c.env e
          (feature_cell-Sound t objects ti dj b dets env e h ec) er)

  feature_table-Sound :
      (t : Tracker P) (objects : List (PersonObject P)) (tis : List ℕ) (b : BBoxType) (djs : List ℕ)
      (dets : List (PersonObject P)) (env : Env) {c : Scan P (List (List P.Double))}
      → setting t ≡ st
      → All R dets
      → feature_table P t objects b tis djs dets env ≡ some c
      → All R c.dets
  unfolding feature_table
  feature_table-Sound t objects [] b djs dets env e h s = of_some (λ c. All R c.dets) s h
  feature_table-Sound t objects (ti ∷ tis) b djs dets env e h s =
      let (c, ec, s1) = >>=-eq-some (feature_row P t objects b ti djs dets env) _ s in
      let (r, er, s2) = >>=-eq-some (feature_table P t objects b tis djs c.dets c.env) _ s1 in
      of_some (λ c. All R c.dets) s2
        (feature_table-Sound t objects tis b djs c.dets c.env e
          (feature_row-Sound t objects ti b djs dets env e h ec) er)

  pub feature_match-Sound :
      (t : Tracker P) (objects : List (PersonObject P)) (b : BBoxType)
      (dets : List (PersonObject P)) (env : Env) {c : Scan P (List MatchPair)}
      → setting t ≡ st
      → All R dets
      → feature_match P t objects b dets env ≡ some c
      → All R c.dets
  unfolding feature_match
  feature_match-Sound t objects b dets env e h s =
      elim (Bool-cases (
        is_empty (indexes_from (wants_feature P b) 0 objects)
        || is_empty (indexes_from (offers_feature P t b) 0 dets))) [
          | inl q ↦ of_some (λ c. All R c.dets) (rw q at s) h
          | inr q ↦
              let (c, ec, s1) =
                >>=-eq-some
                  (feature_table P t objects b (indexes_from (wants_feature P b) 0 objects)
                    (indexes_from (offers_feature P t b) 0 dets) dets env)
                  _ (rw q at s) in
              let (r, er, s2) = >>=-eq-some (pick_pairs P _ c.out _ _ 0 (P.solve c.out)) _ s1 in
              of_some (λ c. All R c.dets) s2 (feature_table-Sound t objects _ b _ dets env e h ec)
        ]

  abbrev pub MatchSound : Tracker P → AfterMatch P → Type 0
  MatchSound t m =
      All Q m.tracker.tracked
      × All R m.dets
      × All Q m.missed
      × (m.tracker.expired ≡ t.expired)
      × (setting m.tracker ≡ setting t)

  pub match_tracked-Sound :
      (t : Tracker P) (dets : List (PersonObject P)) (env : Env) {m : AfterMatch P}
      → setting t ≡ st
      → All Q t.tracked
      → All R dets
      → match_tracked P t dets env ≡ some m
      → MatchSound t m
  unfolding match_tracked
  match_tracked-Sound t dets env e hq hr s =
      let (by_box, _, s1) = >>=-eq-some (iou_match P t body t.tracked dets) _ s in
      let (w, ew, s2) = >>=-eq-some (update_matched_objects P t by_box _) _ s1 in
      let (c, ec, s3) = >>=-eq-some (feature_match P t w.objects body w.dets w.env) _ s2 in
      let (w', ew', s4) = >>=-eq-some (update_matched_objects P t c.out _) _ s3 in
      let boxed : Sound k w = update_matched-Sound k t by_box _ e (hq, hr) ew in
      let found = feature_match-Sound t w.objects body w.dets w.env e boxed.1 ec in
      let featured : Sound k w' = update_matched-Sound k t c.out _ e (boxed.0, found) ew' in
      of_some (MatchSound t) s4
        (featured.0, featured.1, All-select Q (wants_iou P) w.objects boxed.0, refl, refl)
