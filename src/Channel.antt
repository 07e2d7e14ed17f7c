-- ===== src/Channel.antt =====
-- include/mgr/QueueManager.h: `Queue<boost::any>`, the channel between two processors. The queue of
-- boost::lockfree behind it is an interface with the laws that its documentation gives.
pub mod Fifo
use edge_frame.Prelude.{
  ℕ, ◌<◌, ◌≤◌, ◌≡◌, Bool, true, false, not, List, [], ◌∷◌, ◌++◌, Option, none, some,
}
use edge_frame.Prelude.{if◌then◌else◌, length, nat_beq, to_int, int_lt}

-- `boost::lockfree::spsc_queue<A>` seen from one side at a time: the elements, oldest first, and
-- how many it holds at most.
pub record Spsc (A : Type 0) : Type 1 where
  pub Impl : Type 0
  pub push : A → Impl → Bool × Impl
  pub pop : Impl → Option A × Impl
  pub read_available : Impl → ℕ
  pub empty : Impl → Bool
  pub elements : Impl → List A
  pub capacity : Impl → ℕ
  pub push-room :
      (x : A) (i : Impl)
      → length (elements i) < capacity i
      → ((push x i).0 ≡ true) × (elements (push x i).1 ≡ elements i ++ (x ∷ []))
  pub push-full :
      (x : A) (i : Impl)
      → capacity i ≤ length (elements i)
      → ((push x i).0 ≡ false) × (elements (push x i).1 ≡ elements i)
  pub pop-front :
      (x : A) (xs : List A) (i : Impl)
      → elements i ≡ x ∷ xs
      → ((pop i).0 ≡ some x) × (elements (pop i).1 ≡ xs)
  pub pop-empty : (i : Impl) → elements i ≡ [] → ((pop i).0 ≡ none) × (elements (pop i).1 ≡ [])
  pub empty-eq : (i : Impl) → empty i ≡ nat_beq (length (elements i)) 0
  pub read_available-eq : (i : Impl) → read_available i ≡ length (elements i)
  pub capacity-push : (x : A) (i : Impl) → capacity (push x i).1 ≡ capacity i
  pub capacity-pop : (i : Impl) → capacity (pop i).1 ≡ capacity i

module _ {A : Type 0} (S : Spsc A) where
  -- `Queue<boost::any>`, with `cap_` as an `int` pattern.
  pub record Queue : Type 0 where
    pub queue_impl : S.Impl
    pub cap : ℕ
    pub wait : Bool

  unfoldable pub size : Queue → ℕ
  size q = to_int (S.read_available q.queue_impl)

  -- `block` is not used. The answer, and the queue.
  unfoldable pub push : A → Queue → Bool × Queue
  push t q =
      if not (int_lt (size q) q.cap)
      then (false, q)
      else ((S.push t q.queue_impl).0, record q { queue_impl = (S.push t q.queue_impl).1 })

  -- The answer, the caller's variable after the call, and the queue.
  unfoldable pub pop : A → Queue → Bool × A × Queue
  pop t q =
      let (front, rest) = S.pop q.queue_impl in
      (true, elim front [ none ↦ t | some x ↦ x ], record q { queue_impl = rest })

  unfoldable pub set_wait_status : Bool → Queue → Queue
  set_wait_status wait q = record q { wait = wait }

  unfoldable pub set_capicaty : ℕ → Queue → Queue
  set_capicaty cap q = record q { cap = cap }

  unfoldable pub empty : Queue → Bool
  empty q = S.empty q.queue_impl
