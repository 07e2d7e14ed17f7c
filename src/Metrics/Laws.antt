-- ===== src/Metrics/Laws.antt =====
-- The metric table under its operations, and under any interleaving of them.
use edge_frame.Prelude.{ℕ, ◌<◌, ◌≡◌, refl, ◌&&◌, String, []}
use edge_frame.Prelude.{
  string_eq, arith, if◌then◌else◌, ◌==◌, nat_beq, lookup, insert, lookup-insert, set, length,
  add_int,
}
use edge_frame.Prelude.{get_elem?-set_self, get_elem?-set_ne, Bool-cases, inl, inr, if_cases}
use edge_frame.Metrics.{
  MetricAction, code, Counters, Metrics, slot, counter, set_metric, add_metric, get_and_clear,
}

-- What a counter reads: 0 if it is missing.
abbrev pub reading : MetricAction → String → Metrics → ℕ
reading a k m = counter k (slot m a)

slot-set :
    (m : Metrics) (a b : MetricAction) (c : Counters)
    → code a < length m
    → slot (set m (code a) c) b ≡ (if nat_beq (code a) (code b) then c else slot m b)
unfolding slot
slot-set m a b c h =
    if_cases (λ d. slot (set m (code a) c) b ≡ d) (nat_beq (code a) (code b))
      (λ q.
        let same : code b ≡ code a = ground arith in
        rw (slot, same, get_elem?-set_self m (code a) c h))
      λ q. rw (slot, get_elem?-set_ne m (code a) (code b) c (ground arith))

counter-insert :
    (k j : String) (v : ℕ) (c : Counters)
    → counter j (insert k v c) ≡ (if k == j then v else counter j c)
unfolding counter
counter-insert k j v c = grind (arith, lookup-insert k j v c)

pub slot-code : (m : Metrics) (a b : MetricAction) → code a ≡ code b → slot m a ≡ slot m b
unfolding slot
slot-code m a b e = rw (slot, e)

-- Writing one counter of one action.
reading-set :
    (m : Metrics) (a b : MetricAction) (k j : String) (v : ℕ)
    → code a < length m
    → reading b j (set m (code a) (insert k v (slot m a)))
      ≡ (if nat_beq (code a) (code b) && (k == j) then v else reading b j m)
reading-set m a b k j v h = elim (Bool-cases (nat_beq (code a) (code b))) [
  | inl q ↦
      let same : slot m a ≡ slot m b = slot-code m a b (ground arith) in
      rw (slot-set m a b (insert k v (slot m a)) h, q, counter-insert k j v (slot m a), same)
  | inr q ↦ rw (slot-set m a b (insert k v (slot m a)) h, q)
]

reading-clear :
    (m : Metrics) (a b : MetricAction) (j : String)
    → code a < length m
    → reading b j (set m (code a) []) ≡ (if nat_beq (code a) (code b) then 0 else reading b j m)
unfolding counter lookup
reading-clear m a b j h = elim (Bool-cases (nat_beq (code a) (code b))) [
  | inl q ↦ rw (slot-set m a b [] h, q)
  | inr q ↦ rw (slot-set m a b [] h, q)
]

-- The table has its eight slots, and the action is one that has a slot.
abbrev pub IsTable : Metrics → Type 0
IsTable m = length m ≡ 8

-- On a whole table and an action with a slot: an addition raises one counter and leaves the others,
-- a `set` puts one counter and leaves the others, and draining an action returns what its counters
-- read, leaves them at 0 and the other actions alone.
pub metrics-readings :
    (m : Metrics) (a b : MetricAction) (k j : String) (v : ℕ)
    → IsTable m
    → code a < 8
    → (reading b j (add_metric m a k v) ≡ (
        if nat_beq (code a) (code b) && (k == j) then add_int (reading a k m) v else reading b j m))
      × (reading b j (set_metric m a k v)
          ≡ (if nat_beq (code a) (code b) && (k == j) then v else reading b j m))
      × (counter j (get_and_clear m a).0 ≡ reading a j m)
      × (reading b j (get_and_clear m a).1
          ≡ (if nat_beq (code a) (code b) then 0 else reading b j m))
unfolding add_metric set_metric get_and_clear
metrics-readings m a b k j v t h =
    let within : code a < length m = omega arith in
    (
      reading-set m a b k j (add_int (reading a k m) v) within,
      reading-set m a b k j v within,
      refl,
      reading-clear m a b j within,
    )
