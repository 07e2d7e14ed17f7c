-- ===== src/Track/Matching/Feature.antt =====
-- `FeatureMatch` as a whole, under the contracts of the solver and of the ReID network.
use edge_frame.Prelude.{
  ℕ, ◌<◌, ◌≡◌, sym, ◌∙◌, subst, some_eq, map, if◌then◌else◌, true, false, ◌||◌, List, [], ◌∷◌, inl,
  inr,
}
use edge_frame.Prelude.{Option, some, length, get_elem?, All}
use edge_frame.Prelude.{arith, Bool-cases, All-get_elem?, All-implies}
use edge_frame.Prelude.{indexes_from, Passes, indexes_from-Passes, indexes_from-Ascending}
use edge_frame.Platform.{Platform, Env}
use edge_frame.Track.Person.{body, MatchPair, PersonObject, Tracker}
use edge_frame.Track.Match.{is_empty, wants_feature, offers_feature, min_cost, Scan, feature_match}
use edge_frame.Prelude.{zero_plus, Passes-lt}
use edge_frame.Track.Matching.{IsTable, SolverLaw, OneToOne, Picked, pick_pairs_total}
use edge_frame.Track.Matching.Cells.{
  ReidLaw, HasDim, IsReady, table-Filled, CostTable, CostTable-get, CostRow-get, feature_of,
  get_elem?-map,
}

module _ (P : Platform) (t : Tracker P) (objects : List (PersonObject P)) where
  -- The pair joins a confirmed object that was not matched yet and has features to a detection
  -- that was not matched yet, shows a body and covers enough of the image; the least cost of the
  -- detection's feature, which it has or gets now, against those of the object is below the limit.
  pub record IsLookalike (dets : List (PersonObject P)) (m : MatchPair) : Type 0 where
    pub object : PersonObject P
    pub det : PersonObject P
    pub of_object : get_elem? objects m.i_index ≡ some object
    pub of_det : get_elem? dets m.j_index ≡ some det
    pub object_is_wanted : wants_feature P body object ≡ true
    pub det_is_offered : offers_feature P t body det ≡ true
    pub cost : P.Double
    pub is_least :
        min_cost P object.feature_messages
          (if is_empty det.last_updated_body_feature_message.tengine_feature
            then P.reid t.cur_process_frame_mat det.last_updated_body_bbox.bbox_rect
            else det.last_updated_body_feature_message.tengine_feature)
          P.d_one
        ≡ some cost
    pub is_under : P.d_lt cost (P.d_sub P.d_one t.thresholds.cos_similarity_thresh) ≡ true

  module _ (n : ℕ) (law : SolverLaw P) (reid_law : ReidLaw P n) where
    pair-IsLookalike :
        (dets : List (PersonObject P)) (table : List (List P.Double)) (cs : List (Option ℕ))
        (m : MatchPair)
        → Picked P
            (P.d_sub P.d_one t.thresholds.cos_similarity_thresh)
            table
            (indexes_from (wants_feature P body) 0 objects)
            (indexes_from (offers_feature P t body) 0 dets)
            0
            cs
            m
        → CostTable P n reid_law t objects
            (map (feature_of P n reid_law t) dets)
            (indexes_from (wants_feature P body) 0 objects)
            (indexes_from (offers_feature P t body) 0 dets)
            table
        → IsLookalike dets m
    pair-IsLookalike dets table cs m k costs =
        let (i, ei, p, ep, wanted) =
          All-get_elem? (Passes (wants_feature P body) 0 objects) _ _
            (indexes_from-Passes _ 0 objects) k.from_row in
        let (j, ej, d, ed, offered) =
          All-get_elem? (Passes (offers_feature P t body) 0 dets) _ _ (indexes_from-Passes _ 0 dets)
            k.from_column in
        let features = map (feature_of P n reid_law t) dets in
        let row =
          CostTable-get P n reid_law t objects features _ _ table _ costs k.from_row k.the_row in
        let cell =
          CostRow-get P n reid_law t objects features m.i_index _ k.row k.column row k.from_column
            k.the_cost in
        let object_here : get_elem? objects m.i_index ≡ some p = rw (zero_plus m.i_index i ei) ep in
        let det_here : get_elem? dets m.j_index ≡ some d = rw (zero_plus m.j_index j ej) ed in
        let same_object = some_eq (sym cell.of_object ∙ object_here) in
        let same_feature =
          some_eq
            (sym cell.of_det ∙ get_elem?-map (feature_of P n reid_law t) dets m.j_index det_here) in
        record {
          object = p;
          det = d;
          of_object = object_here;
          of_det = det_here;
          object_is_wanted = wanted;
          det_is_offered = offered;
          cost = k.cost;
          is_least =
              subst (λ f. min_cost P p.feature_messages f P.d_one ≡ some k.cost) same_feature
                (subst (λ o. min_cost P o.feature_messages cell.feature P.d_one ≡ some k.cost)
                  same_object cell.is_least);
          is_under = k.is_under;
        }

    pub feature_match_total :
        (dets : List (PersonObject P)) (env : Env)
        → All (HasDim P n) objects
        → All (IsReady P n t.cur_process_frame_mat) dets
        → (r : Scan P (List MatchPair)) × (feature_match P t objects body dets env ≡ some r)
          × All (IsLookalike dets) r.out
          × OneToOne r.out
    unfolding feature_match
    feature_match_total dets env ho hd = elim (Bool-cases (is_empty tis || is_empty djs)) [
      | inl q ↦ (record { out = []; dets = dets; env = env }, rw q, tt, tt)
      | inr q ↦
          let filled =
            table-Filled P n reid_law t objects tis djs dets env
              (All-implies _ _ (Passes-lt _ objects) _ (indexes_from-Passes _ 0 objects))
              (All-implies _ _ (Passes-lt _ dets) _ (indexes_from-Passes _ 0 dets)) ho hd in
          let table = filled.result.out in
          let shape : IsTable (length djs) table = record {
            has_column = not_empty djs (ground arith);
            has_row = omega (arith, filled.shape.0, not_empty tis (ground arith));
            even = filled.shape.1;
          } in
          let (ms, run, (all, one)) =
            pick_pairs_total P limit table tis djs
              (record {
                as_rows = sym filled.shape.0;
                width = shape.even;
                rows_ascend = indexes_from-Ascending _ 0 objects;
                columns_ascend = indexes_from-Ascending _ 0 dets;
              })
              0 (P.solve table) (omega (arith, law.one_per_row _ table shape))
              (law.in_range _ table shape) (law.distinct _ table shape) in
          (
            record { out = ms; dets = filled.result.dets; env = filled.result.env },
            rw (q, filled.ran, run),
            All-implies _ _ (λ m k. pair-IsLookalike dets table _ m k filled.shape.2) ms all,
            one,
          )
    ]
      where
        limit : P.Double
        limit = P.d_sub P.d_one t.thresholds.cos_similarity_thresh

        tis : List ℕ
        tis = indexes_from (wants_feature P body) 0 objects

        djs : List ℕ
        djs = indexes_from (offers_feature P t body) 0 dets

        not_empty : (js : List ℕ) → is_empty js ≡ false → 0 < length js
        not_empty [] e = cc
        not_empty (j ∷ js) e = omega arith
