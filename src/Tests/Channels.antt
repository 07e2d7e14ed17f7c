-- ===== src/Tests/Channels.antt =====
-- The channel over a bounded list, at concrete values.
use edge_frame.Prelude.{
  nat_beq, ℕ, ◌<◌, ◌≤◌, ◌≡◌, refl, Bool, true, false, List, [], ◌∷◌, ◌++◌, Option, none, some,
}
use edge_frame.Prelude.{arith, if◌then◌else◌, ltb, length, if_cases}
use edge_frame.Channel.{Spsc, Queue}
use edge_frame.Channel.Fifo.{
  IsQueue, items, Step, sending, taking, steps, accepted, taken, steps-Fifo,
}

-- A list with a bound, as a queue of boost.
record Bounded : Type 0 where
  limit : ℕ
  held : List ℕ

abbrev put : ℕ → Bounded → Bool × Bounded
put x b =
    if ltb (length b.held) b.limit
    then (true, record b { held = b.held ++ (x ∷ []) })
    else (false, b)

abbrev take : Bounded → Option ℕ × Bounded
take b = elim b.held [ [] ↦ (none, b) | x ∷ xs ↦ (some x, record b { held = xs }) ]

not_lt : (a b : ℕ) → b ≤ a → ltb a b ≡ false
not_lt a b h = ground arith

take-front :
    (x : ℕ) (xs : List ℕ) (b : Bounded)
    → b.held ≡ x ∷ xs
    → ((take b).0 ≡ some x) × ((take b).1.held ≡ xs)
take-front x xs b e = ground (arith, e)

take-empty : (b : Bounded) → b.held ≡ [] → ((take b).0 ≡ none) × ((take b).1.held ≡ [])
take-empty b e = ground (arith, e)

limit-take : (b : Bounded) → (take b).1.limit ≡ b.limit
limit-take b = ground arith

put-room :
    (x : ℕ) (b : Bounded)
    → length b.held < b.limit
    → ((put x b).0 ≡ true) × ((put x b).1.held ≡ b.held ++ (x ∷ []))
put-room x b h = ground arith

put-full :
    (x : ℕ) (b : Bounded)
    → b.limit ≤ length b.held
    → ((put x b).0 ≡ false) × ((put x b).1.held ≡ b.held)
put-full x b h = ground arith

abbrev bounded : Spsc ℕ
bounded = record {
  Impl = Bounded;
  push = put;
  pop = take;
  read_available = λ b. length b.held;
  elements = λ b. b.held;
  capacity = λ b. b.limit;
  push-room = put-room;
  push-full = put-full;
  pop-front = take-front;
  pop-empty = take-empty;
  empty = λ b. nat_beq (length b.held) 0;
  empty-eq = λ b. refl;
  read_available-eq = λ b. refl;
  capacity-push = λ x b.
      if_cases {A = Bool × Bounded} (λ r. r.1.limit ≡ b.limit) (ltb (length b.held) b.limit)
        (λ _. refl) λ _. refl;
  capacity-pop = limit-take;
}

abbrev two_left : Queue bounded
two_left = record { queue_impl = record { limit = 4; held = 7 ∷ 8 ∷ [] }; cap = 4; wait = true }

two_left-IsQueue : IsQueue bounded two_left
two_left-IsQueue = record { fits_int = omega arith; as_reserved = refl; within = omega arith }

abbrev schedule : List (Step bounded)
schedule = sending 9 ∷ taking 0 ∷ sending 10 ∷ sending 11 ∷ sending 12 ∷ taking 0 ∷ []

steps-Fifo_example :
    taken bounded schedule two_left ++ items bounded (steps bounded schedule two_left)
    ≡ 7 ∷ 8 ∷ accepted bounded schedule two_left
steps-Fifo_example = steps-Fifo bounded schedule two_left two_left-IsQueue
