-- ===== src/Metrics.antt =====
-- modules/interfaces/ServiceMetricManager.h and src/mgr/ServiceMetricManager.cpp: the counters
-- that the processors add to and the monitor events drain. Each operation holds `global_mt` from
-- its first line to its last, so it is one step on the table.
pub mod Laws
pub mod Drains
use edge_frame.Prelude.{ℕ, ◌+◌, ◌≡◌, String, List, [], ◌∷◌, Option, none, some, lookup, insert}
use edge_frame.Prelude.{string_eq, get_elem?, set, add_int}

pub data MetricAction : Type 0 where
  service_version_monitor algo_model_monitor algo_data_monitor flow_status_monitor : MetricAction
  stream_status_monitor image_status_monitor api_status_monitor end_mark : MetricAction

-- `(int)action`
abbrev pub code : MetricAction → ℕ
code service_version_monitor = 1
code algo_model_monitor = 2
code algo_data_monitor = 3
code flow_status_monitor = 4
code stream_status_monitor = 5
code image_status_monitor = 6
code api_status_monitor = 7
code end_mark = 8

-- `std::unordered_map<std::string, int>`, with the values as `int` patterns.
abbrev pub Counters : Type 0
Counters = List (String × ℕ)

-- `metrics_[(int)MetricAction::__END__]`
abbrev pub Metrics : Type 0
Metrics = List Counters

abbrev pub no_metrics : Metrics
no_metrics = [] ∷ [] ∷ [] ∷ [] ∷ [] ∷ [] ∷ [] ∷ [] ∷ []

-- The slot of an action. Only `__END__` lies past the end of the array.
unfoldable pub slot : Metrics → MetricAction → Counters
slot m a = elim (get_elem? m (code a)) [ none ↦ [] | some c ↦ c ]

-- `c[key]` as a value: a missing key reads as 0.
unfoldable pub counter : String → Counters → ℕ
counter k c = elim (lookup k c) [ none ↦ 0 | some v ↦ v ]

-- `metrics_[(int)action][key] = value`
unfoldable pub set_metric : Metrics → MetricAction → String → ℕ → Metrics
unfolding slot
set_metric m a key value = set m (code a) (insert key value (slot m a))

-- `metrics_[(int)action][key] += value`
unfoldable pub add_metric : Metrics → MetricAction → String → ℕ → Metrics
unfolding slot counter
add_metric m a key value =
    set m (code a) (insert key (add_int (counter key (slot m a)) value) (slot m a))

-- `ServiceMetricManager::get`
unfoldable pub get_metrics : Metrics → MetricAction → Counters
unfolding slot
get_metrics m a = slot m a

-- `ServiceMetricManager::getAndClear`
unfoldable pub get_and_clear : Metrics → MetricAction → Counters × Metrics
unfolding slot
get_and_clear m a = (slot m a, set m (code a) [])
