-- ===== src/Track/Person.antt =====
-- modules/track/include/tracker.h: the tracker's data.
use edge_frame.Prelude.{ℕ, String, Bool, true, false, List, [], ◌∷◌}
use edge_frame.Prelude.{Option, none, some, minus_one}
use edge_frame.Platform.{Platform}

pub data BBoxType : Type 0 where
  face body : BBoxType

pub data ObjectStatus : Type 0 where
  unconfirmed confirmed : ObjectStatus

pub data ZoneType : Type 0 where
  unclear_zone enter_zone exit_zone : ZoneType

pub data CustmType : Type 0 where
  ped_t_passby ped_t_in ped_t_clerk : CustmType

pub record MatchPair : Type 0 where
  pub i_index : ℕ
  pub j_index : ℕ

pub record BBoxMessage (P : Platform) : Type 0 where
  pub update_timestamp : ℕ
  pub update_frame_id : ℕ
  pub score : P.Float
  pub bbox_rect : P.Rect

pub record FeatureMessage (P : Platform) : Type 0 where
  pub update_timestamp : ℕ
  pub update_frame_id : ℕ
  pub tengine_feature : List P.Float

-- `unsigned long long` and `int` members are bit patterns, `body_hit_num` and `id` included.
pub record PersonObject (P : Platform) : Type 0 where
  pub car_state : List (ℕ × ℕ)
  pub iou_state : List (ℕ × P.Float)
  pub id : ℕ
  pub face_score : P.Float
  pub face_id : String
  pub is_current_frame_matched_or_new : Bool
  pub is_previous_frame_body_bbox_area_bigger_than_thresh : Bool
  pub previous_body_bbox_area_bigger_than_thresh_timestamp : ℕ
  pub previous_body_bbox_area_bigger_than_thresh_frame_id : ℕ
  pub duration : ℕ
  pub occured_face_approach_event : Bool
  pub occured_face_front_event : Bool
  pub is_current_face_detected : Bool
  pub is_current_face_front : Bool
  pub occured_body_approach_event : Bool
  pub occured_body_leave_event : Bool
  pub is_current_body_detected : Bool
  pub first_occured_body_approach_timestamp : ℕ
  pub object_status : ObjectStatus
  pub first_zone_type : ZoneType
  pub cur_zone_type : ZoneType
  pub cur_score : P.Double
  pub body_hit_num : ℕ
  pub body_miss_num : ℕ
  pub first_occured_face_approach_timestamp : ℕ
  pub first_occured_face_front_timestamp : ℕ
  pub last_occured_face_front_timestamp : ℕ
  pub first_updated_face_bbox : BBoxMessage P
  pub first_updated_body_bbox : BBoxMessage P
  pub last_updated_face_bbox : BBoxMessage P
  pub last_updated_body_bbox : BBoxMessage P
  pub last_updated_body_feature_message : FeatureMessage P
  pub face_trajectory : List (BBoxMessage P)
  pub body_trajectory : List (BBoxMessage P)
  pub feature_messages : List (FeatureMessage P)
  pub ped_type : CustmType
  pub in_hsb_t : ℕ
  pub out_hsb_t : ℕ

-- The members that the constructor leaves without a value hold whatever the memory held.
pub record Raw (P : Platform) : Type 0 where
  pub prev_timestamp : ℕ
  pub prev_frame_id : ℕ
  pub first_face : BBoxMessage P
  pub first_body : BBoxMessage P
  pub last_face : BBoxMessage P
  pub last_body : BBoxMessage P
  pub feature_timestamp : ℕ
  pub feature_frame_id : ℕ

module _ (P : Platform) where
  -- `for (int i = 0; i < 10; i++) car_state[i] = -1`
  abbrev car_states : List (ℕ × ℕ)
  car_states =
      (0, minus_one)
      ∷ (1, minus_one)
      ∷ (2, minus_one)
      ∷ (3, minus_one)
      ∷ (4, minus_one)
      ∷ (5, minus_one)
      ∷ (6, minus_one)
      ∷ (7, minus_one)
      ∷ (8, minus_one)
      ∷ (9, minus_one)
      ∷ []

  -- What a given box leaves in `last_updated_..._bbox` and `first_updated_..._bbox`.
  abbrev or_raw : Option (BBoxMessage P) → BBoxMessage P → BBoxMessage P
  or_raw none r = r
  or_raw (some b) r = b

  -- The constructor pushes a given box twice.
  abbrev twice : Option (BBoxMessage P) → List (BBoxMessage P)
  twice none = []
  twice (some b) = b ∷ b ∷ []

  abbrev given : Option (BBoxMessage P) → Bool
  given none = false
  given (some b) = true

  -- `PersonObject(face_bbox, body_bbox, timestamp, frame_id, p_id)`; the code ignores its
  -- `timestamp` and `frame_id`.
  unfoldable pub person_object :
      Raw P → Option (BBoxMessage P) → Option (BBoxMessage P) → ℕ → PersonObject P
  person_object raw face_bbox body_bbox p_id = record {
    car_state = car_states;
    iou_state = [];
    id = p_id;
    face_score = P.f_zero;
    face_id = "";
    is_current_frame_matched_or_new = false;
    is_previous_frame_body_bbox_area_bigger_than_thresh = false;
    previous_body_bbox_area_bigger_than_thresh_timestamp = raw.prev_timestamp;
    previous_body_bbox_area_bigger_than_thresh_frame_id = raw.prev_frame_id;
    duration = 0;
    occured_face_approach_event = false;
    occured_face_front_event = false;
    is_current_face_detected = given face_bbox;
    is_current_face_front = false;
    occured_body_approach_event = false;
    occured_body_leave_event = false;
    is_current_body_detected = given body_bbox;
    first_occured_body_approach_timestamp = 0;
    object_status = unconfirmed;
    first_zone_type = unclear_zone;
    cur_zone_type = unclear_zone;
    cur_score = P.d_zero;
    body_hit_num = 0;
    body_miss_num = 0;
    first_occured_face_approach_timestamp = 0;
    first_occured_face_front_timestamp = 0;
    last_occured_face_front_timestamp = 0;
    first_updated_face_bbox = or_raw face_bbox raw.first_face;
    first_updated_body_bbox = or_raw body_bbox raw.first_body;
    last_updated_face_bbox = or_raw face_bbox raw.last_face;
    last_updated_body_bbox = or_raw body_bbox raw.last_body;
    last_updated_body_feature_message = record {
      update_timestamp = raw.feature_timestamp;
      update_frame_id = raw.feature_frame_id;
      tengine_feature = [];
    };
    face_trajectory = twice face_bbox;
    body_trajectory = twice body_bbox;
    feature_messages = [];
    ped_type = ped_t_passby;
    in_hsb_t = 0;
    out_hsb_t = 0;
  }

-- The thresholds of the tracker. An `int` that the code compares with an unsigned value is held as
-- that value.
pub record Thresholds (P : Platform) : Type 0 where
  pub iou_thresh : P.Double
  pub cos_similarity_thresh : P.Double
  pub hit_num_thresh : ℕ
  pub trajectory_size : ℕ
  pub feature_vec_size : ℕ
  pub body_bbox_area_bigger_than_thresh_frame_interval : ℕ
  pub lost_track_thresh : ℕ
  pub expired_to_delete_thresh : ℕ
  pub feature_extract_thresh : ℕ
  pub bbox_area_extract_feature_thresh : P.Double
  pub body_residence_area_thresh : P.Double
  pub valid_leave_with_reid : Bool

pub record Tracker (P : Platform) : Type 0 where
  pub cur_process_frame_id : ℕ
  pub cur_process_frame_timestamp : ℕ
  pub cur_process_frame_mat : P.Mat
  pub tracked : List (PersonObject P)
  pub expired : List (PersonObject P)
  pub global_id : ℕ
  pub thresholds : Thresholds P
