-- ===== src/Track/Ids/Sizes.antt =====
-- `FeatureMatch` changes no number of detections.
use edge_frame.Prelude.{ℕ, ◌≡◌, refl, ◌∙◌, List, [], ◌∷◌}
use edge_frame.Prelude.{some, length, get_elem?, >>=-eq-some, of_some}
use edge_frame.Prelude.{length-set, Bool-cases, inl, inr, ◌||◌, indexes_from}
use edge_frame.Platform.{Platform, Env}
use edge_frame.Track.Person.{PersonObject, Tracker, MatchPair, face, body, BBoxType}
use edge_frame.Track.Match.{
  is_empty, wants_feature, offers_feature, pick_pairs, min_cost, Scan, feature_cell, feature_row,
  feature_table, feature_match, crop,
}

module _ (P : Platform) (t : Tracker P) (objects : List (PersonObject P)) where
  abbrev SameLength : {A : Type 0} → List (PersonObject P) → Scan P A → Type 0
  SameLength dets c = length c.dets ≡ length dets

  feature_cell-length :
      (b : BBoxType) (ti dj : ℕ) (dets : List (PersonObject P)) (env : Env) {c : Scan P P.Double}
      → feature_cell P t objects b ti dj dets env ≡ some c
      → SameLength dets c
  unfolding feature_cell
  feature_cell-length face ti dj dets env s = of_some (SameLength dets) s refl
  feature_cell-length body ti dj dets env s =
      let (d, ed, s1) = >>=-eq-some (get_elem? dets dj) _ s in
      let (_, _, s0) = >>=-eq-some (crop P t d) _ s1 in
      let (p, ep, s2) = >>=-eq-some (get_elem? objects ti) _ s0 in
      let (c, ec, s3) = >>=-eq-some (min_cost P p.feature_messages _ P.d_one) _ s2 in
      of_some (SameLength dets) s3 (length-set dets dj _)

  feature_row-length :
      (b : BBoxType) (ti : ℕ) (djs : List ℕ) (dets : List (PersonObject P)) (env : Env)
      {c : Scan P (List P.Double)}
      → feature_row P t objects b ti djs dets env ≡ some c
      → SameLength dets c
  unfolding feature_row
  feature_row-length b ti [] dets env s = of_some (SameLength dets) s refl
  feature_row-length b ti (dj ∷ djs) dets env s =
      let (c, ec, s1) = >>=-eq-some (feature_cell P t objects b ti dj dets env) _ s in
      let (r, er, s2) = >>=-eq-some (feature_row P t objects b ti djs c.dets c.env) _ s1 in
      of_some (SameLength dets) s2
        (feature_row-length b ti djs c.dets c.env er ∙ feature_cell-length b ti dj dets env ec)

  feature_table-length :
      (b : BBoxType) (tis djs : List ℕ) (dets : List (PersonObject P)) (env : Env)
      {c : Scan P (List (List P.Double))}
      → feature_table P t objects b tis djs dets env ≡ some c
      → SameLength dets c
  unfolding feature_table
  feature_table-length b [] djs dets env s = of_some (SameLength dets) s refl
  feature_table-length b (ti ∷ tis) djs dets env s =
      let (c, ec, s1) = >>=-eq-some (feature_row P t objects b ti djs dets env) _ s in
      let (r, er, s2) = >>=-eq-some (feature_table P t objects b tis djs c.dets c.env) _ s1 in
      of_some (SameLength dets) s2
        (feature_table-length b tis djs c.dets c.env er ∙ feature_row-length b ti djs dets env ec)

  pub feature_match-length :
      (b : BBoxType) (dets : List (PersonObject P)) (env : Env) {c : Scan P (List MatchPair)}
      → feature_match P t objects b dets env ≡ some c
      → SameLength dets c
  unfolding feature_match
  feature_match-length b dets env s =
      elim (Bool-cases (
        is_empty (indexes_from (wants_feature P b) 0 objects)
        || is_empty (indexes_from (offers_feature P t b) 0 dets))) [
          | inl q ↦ of_some (SameLength dets) (rw q at s) refl
          | inr q ↦
              let (c, ec, s1) =
                >>=-eq-some
                  (feature_table P t objects b (indexes_from (wants_feature P b) 0 objects)
                    (indexes_from (offers_feature P t b) 0 dets) dets env)
                  _ (rw q at s) in
              let (r, er, s2) = >>=-eq-some (pick_pairs P _ c.out _ _ 0 (P.solve c.out)) _ s1 in
              of_some (SameLength dets) s2 (feature_table-length b _ _ dets env ec)
        ]
