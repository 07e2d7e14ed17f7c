-- ===== src/Metrics/Drains.antt =====
-- Any interleaving of the calls of the processors and of the monitor events.
use edge_frame.Prelude.{ℕ, ◌+◌, ◌%◌, ◌^◌, ◌<◌, ◌≡◌, refl, true, ◌&&◌, String, List, [], ◌∷◌, ◌∙◌}
use edge_frame.Prelude.{
  string_eq, arith, if◌then◌else◌, ◌==◌, nat_beq, length-set, add_int, All, Bool-cases, inl, inr,
}
use edge_frame.Metrics.{MetricAction, code, Metrics, counter, add_metric, get_and_clear}
use edge_frame.Metrics.Laws.{slot-code, reading, IsTable, metrics-readings}

-- One call under `global_mt`: `add(action, key, value)` or `getAndClear(action)`.
pub data Call : Type 0 where
  adding : MetricAction → String → ℕ → Call
  draining : MetricAction → Call

abbrev pub call : Call → Metrics → Metrics
call (adding a k v) m = add_metric m a k v
call (draining a) m = (get_and_clear m a).1

abbrev pub calls : List Call → Metrics → Metrics
calls [] m = m
calls (c ∷ cs) m = calls cs (call c m)

-- The action of a call has a slot.
abbrev pub IsCall : Call → Type 0
IsCall (adding a k v) = code a < 8
IsCall (draining a) = code a < 8

wraps :
    (x y r v : ℕ) → x % 2 ^ 32 ≡ (y + add_int r v) % 2 ^ 32 → x % 2 ^ 32 ≡ ((v + y) + r) % 2 ^ 32
unfolding add_int
wraps x y r v h = omega arith

reading-same :
    (m : Metrics) (b a : MetricAction) (j k : String)
    → (nat_beq (code b) (code a) && (j == k)) ≡ true
    → reading b j m ≡ reading a k m
reading-same m b a j k q =
    let action : code b ≡ code a = ground arith in
    let key : j ≡ k = grind (arith, string_eq.same_iff j k) in rw (slot-code m b a action, key)

module _ (a : MetricAction) (k : String) where
  -- What the calls add to the counter.
  abbrev pub raised : List Call → ℕ
  raised [] = 0
  raised (adding b j v ∷ cs) = (if nat_beq (code b) (code a) && (j == k) then v else 0) + raised cs
  raised (draining b ∷ cs) = raised cs

  -- What the drained tables say of the counter.
  abbrev pub collected : List Call → Metrics → ℕ
  collected [] m = 0
  collected (adding b j v ∷ cs) m = collected cs (add_metric m b j v)
  collected (draining b ∷ cs) m =
      (if nat_beq (code b) (code a) then counter k (get_and_clear m b).0 else 0)
      + collected cs (get_and_clear m b).1

  call-IsTable : (c : Call) (m : Metrics) → IsTable m → IsTable (call c m)
  unfolding add_metric get_and_clear
  call-IsTable (adding b j v) m t = length-set m (code b) _ ∙ t
  call-IsTable (draining b) m t = length-set m (code b) [] ∙ t

  -- No count is lost or counted twice: over any sequence of additions and drains, what the drains
  -- returned and what is left makes what was there and what was added, on `int`.
  pub calls-collected :
      (cs : List Call) (m : Metrics)
      → IsTable m
      → All IsCall cs
      → (collected cs m + reading a k (calls cs m)) % 2 ^ 32 ≡ (raised cs + reading a k m) % 2 ^ 32
  calls-collected [] m t h = refl
  calls-collected (adding b j v ∷ cs) m t h =
      let rest = calls-collected cs (add_metric m b j v) (call-IsTable (adding b j v) m t) h.1 in
      let (after, _, _, _) = metrics-readings m b a j k v t h.0 in
      elim (Bool-cases (nat_beq (code b) (code a) && (j == k))) [
        | inl q ↦ rw q (
            wraps _ (raised cs) (reading a k m) v (rw (after, q, reading-same m b a j k q) at rest))
        | inr q ↦ rw q (omega (arith, (rw (after, q) at rest)))
      ]
  calls-collected (draining b ∷ cs) m t h =
      let rest = calls-collected cs (get_and_clear m b).1 (call-IsTable (draining b) m t) h.1 in
      let (_, _, out, after) = metrics-readings m b a k k 0 t h.0 in
      elim (Bool-cases (nat_beq (code b) (code a))) [
        | inl q ↦
            let same : reading b k m ≡ reading a k m = rw (slot-code m b a (ground arith)) in
            rw (q, out, same) (omega (arith, (rw (after, q) at rest)))
        | inr q ↦ rw q (omega (arith, (rw (after, q) at rest)))
      ]
