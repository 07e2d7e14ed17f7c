-- ===== src/Tests/Matches.antt =====
-- The matches and the whole frame at concrete values.
use edge_frame.Prelude.{
  ◌≡◌, refl, true, [], ◌∷◌, List, some, All, inl, arith, ◌>>=◌, lookup, insert, sub_u64, to_int,
  add_int,
}
use edge_frame.Demo.{demo, env, idle, walker}
use edge_frame.Track.Person.{body, MatchPair, confirmed, PersonObject, Tracker}
use edge_frame.Metrics.{add_metric}
use edge_frame.Track.Geometry.{area_exceeds, calc_cos_similarity}
use edge_frame.Track.Match.{
  iou_match, feature_match, feature_table, feature_row, feature_cell, crop, in_image, fits_side,
  ensure_feature, extract_feature, min_cost, wants_feature, offers_feature, pick_pairs, add_pair,
}
use edge_frame.Track.Update.{Updated, all_unmatched, update}
use edge_frame.Track.Matching.{OneToOne}
use edge_frame.Track.Matching.Iou.{IsCandidate, iou_match_total}
use edge_frame.Track.Matching.Cells.{ReidLaw, HasDim, IsReady}
use edge_frame.Track.Total.Frame.{update_total}
use edge_frame.Tests.Solver.{demo-SolverLaw}

pub demo-ReidLaw : ReidLaw demo 1
demo-ReidLaw = record { reid_length = λ m r h. refl }

-- A confirmed object that has a feature.
abbrev met : PersonObject demo
met = record (walker 1 0) {
  object_status = confirmed;
  feature_messages =
      record { update_timestamp = 40; update_frame_id = 1; tengine_feature = 100 ∷ [] } ∷ [];
}

ready : All (HasDim demo 1) (walker 1 500 ∷ met ∷ []) × All (IsReady demo 1 2) (walker 2 20 ∷ [])
unfolding walker in_image fits_side
ready = ((tt, ((refl, tt), tt)), ((tt, inl refl, (refl, omega arith, omega arith)), tt))

iou_match_total_example :
    (ms : List MatchPair) × (iou_match demo idle body
        (walker 1 0 ∷ walker 1 500 ∷ [])
        (walker 2 20 ∷ [])
      ≡ some ms)
    × All (IsCandidate demo idle body (walker 1 0 ∷ walker 1 500 ∷ []) (walker 2 20 ∷ [])) ms
    × OneToOne ms
iou_match_total_example =
    iou_match_total demo idle body (walker 1 0 ∷ walker 1 500 ∷ []) (walker 2 20 ∷ [])
      demo-SolverLaw

-- The search finds the object that has a feature.
found_pair :
    (feature_match demo idle (walker 1 500 ∷ met ∷ []) body (walker 2 20 ∷ []) env >>= λ r.
    some r.out)
    ≡ some (record { i_index = 1; j_index = 0 } ∷ [])
unfolding walker feature_match feature_table feature_row feature_cell crop in_image fits_side
    ensure_feature extract_feature min_cost wants_feature offers_feature pick_pairs add_pair
    area_exceeds calc_cos_similarity add_metric lookup insert sub_u64 to_int add_int
found_pair = refl

fresh : all_unmatched demo (walker 2 20 ∷ []) ≡ true
unfolding walker all_unmatched
fresh = refl

-- One object is tracked, and one waits among the expired ones.
abbrev busy : Tracker demo
busy = record idle { tracked = walker 1 500 ∷ []; expired = met ∷ []; global_id = 2 }

update_total_example :
    (u : Updated demo) × (update demo busy env 2 (walker 2 20 ∷ []) 40 2 [] [] [] ≡ some u)
    × All (HasDim demo 1) u.tracker.tracked
    × All (HasDim demo 1) u.tracker.expired
update_total_example =
    update_total demo 1 demo-SolverLaw demo-ReidLaw busy env 2 (walker 2 20 ∷ []) 40 2
      (ready.0.0, tt) ready.0.1 ready.1 fresh
