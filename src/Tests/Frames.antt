-- ===== src/Tests/Frames.antt =====
-- Two frames of the tracker: two walkers come in, then one of them moves on and the other is gone.
use edge_frame.Track.Ids.Steps.{IdsFresh}
use edge_frame.Track.Ids.Frame.{update-IdsFresh}
use edge_frame.Track.Outcome.{Outcome, update-Outcome}
use edge_frame.Prelude.{◌≡◌, refl, [], ◌∷◌, Option, some, length, All, arith}
use edge_frame.Track.Bounds.{IsBounded, update-IsBounded}
use edge_frame.Track.Geometry.{get_iou, calc_cos_similarity, area_exceeds}
use edge_frame.Track.Match.{
  wants_iou, offers_iou, iou_cost, add_pair, pick_pairs, iou_match, extract_feature, ensure_feature,
  min_cost, wants_feature, offers_feature, feature_cell, feature_row, feature_table, feature_match,
  crop, in_image, fits_side,
}
use edge_frame.Track.Refresh.{
  trim, is_object_need_extract_feature, refresh_feature, refresh_body, refresh_face,
  update_matched_object_status, update_pair, crop_matched, update_matched_objects,
}
use edge_frame.Track.Sweep.{sweep}
use edge_frame.Track.Retire.{
  unseen_for, tracked_verdict, update_unmatched_tracked, check_valid_leave, expired_verdict,
  update_unmatched_expired, matched_verdict, update_matched_expired, add_unmatched, is_resident,
  was_resident, accumulate, accumulate_duration,
}
use edge_frame.Metrics.{add_metric}
use edge_frame.Prelude.{sub_u64, add_u64, add_int, to_int, int_lt, lookup, insert}
use edge_frame.Track.Update.{
  Updated, begin_frame, all_unmatched, match_tracked, finish_frame, update,
}
use edge_frame.Demo.{demo, env, idle, walker, outcome, defaults}

first : Option (Updated demo)
unfolding walker update begin_frame all_unmatched match_tracked finish_frame get_iou
    calc_cos_similarity area_exceeds wants_iou offers_iou iou_cost add_pair pick_pairs iou_match
    extract_feature ensure_feature min_cost wants_feature offers_feature feature_cell feature_row
    feature_table feature_match crop in_image fits_side crop_matched trim
    is_object_need_extract_feature refresh_feature refresh_body refresh_face
    update_matched_object_status update_pair update_matched_objects sweep unseen_for tracked_verdict
    update_unmatched_tracked check_valid_leave expired_verdict update_unmatched_expired
    matched_verdict update_matched_expired add_unmatched is_resident was_resident accumulate
    accumulate_duration add_metric sub_u64 add_u64 add_int to_int int_lt lookup insert
first = update demo idle env 2 (walker 1 0 ∷ walker 1 500 ∷ []) 40 1 [] [] []

after_first : Updated demo
unfolding first
after_first = outcome first

second : Option (Updated demo)
unfolding after_first
second = update demo after_first.tracker after_first.env 2 (walker 2 10 ∷ []) 80 2 [] [] []

after_second : Updated demo
unfolding second
after_second = outcome second

first_length : length after_first.tracker.tracked ≡ 2
unfolding after_first
first_length = refl

second_length : length after_second.tracker.tracked ≡ 1
unfolding after_second
second_length = refl

second_ran : second ≡ some after_second
unfolding after_second
second_ran = refl

after_first-IsBounded :
    All (IsBounded demo defaults) after_first.tracker.tracked
    × All (IsBounded demo defaults) (walker 2 10 ∷ [])
unfolding after_first
after_first-IsBounded = omega arith

update-IsBounded_example : All (IsBounded demo defaults) after_second.tracker.tracked
unfolding second
update-IsBounded_example =
    (update-IsBounded demo defaults after_first.tracker after_first.env 2 (walker 2 10 ∷ []) 80 2
      refl after_first-IsBounded.0 tt after_first-IsBounded.1 second_ran).0

first_ran : first ≡ some after_first
unfolding after_first
first_ran = refl

idle-IdsFresh : IdsFresh demo idle
idle-IdsFresh = record { unique = λ a. omega arith; below = λ a h. refl }

update-IdsFresh_example : IdsFresh demo after_first.tracker
unfolding first
update-IdsFresh_example =
    update-IdsFresh demo idle env 2 (walker 1 0 ∷ walker 1 500 ∷ []) 40 1 [] [] [] (omega arith)
      idle-IdsFresh first_ran

update-Outcome_example :
    Outcome demo after_first.tracker after_first.env 2 (walker 2 10 ∷ []) 80 2 after_second
unfolding second
update-Outcome_example =
    update-Outcome demo after_first.tracker after_first.env 2 (walker 2 10 ∷ []) 80 2 second_ran
