-- ===== src/Channel/Fifo.antt =====
-- The channel is a bounded first-in-first-out queue, under any sequence of calls.
use edge_frame.Prelude.{
  ◌^◌, ◌<◌, ◌≤◌, ◌≡◌, refl, ◌∙◌, ap, sym, true, false, List, [], ◌∷◌, ◌++◌, append_assoc,
  append-nil, none, some,
}
use edge_frame.Prelude.{
  ltb→lt, arith, if◌then◌else◌, length, length-append, to_int, int_lt, Bool-cases, inl, inr, ltb,
}
use edge_frame.Channel.{Spsc, Queue, size, push, pop, empty}
use edge_frame.Prelude.{nat_beq}

module _ {A : Type 0} (S : Spsc A) where
  -- The bound fits an `int`, and is what boost reserved, as the constructor sets it.
  pub record IsQueue (q : Queue S) : Type 0 where
    pub fits_int : q.cap < 2 ^ 31
    pub as_reserved : S.capacity q.queue_impl ≡ q.cap
    pub within : length (S.elements q.queue_impl) ≤ q.cap

  abbrev pub items : Queue S → List A
  items q = S.elements q.queue_impl

  -- The comparison of `Size()` and `cap_` on `int`.
  size-lt : (q : Queue S) → IsQueue q → int_lt (size S q) q.cap ≡ ltb (length (items q)) q.cap
  unfolding size int_lt to_int
  size-lt q h = rw (S.read_available-eq q.queue_impl) (ground (arith, h.within, h.fits_int))

  -- What `Pop` leaves in its argument, and what it leaves in the queue.
  abbrev pub first_or : A → List A → A
  first_or t [] = t
  first_or t (x ∷ xs) = x

  abbrev pub rest_of : List A → List A
  rest_of [] = []
  rest_of (x ∷ xs) = xs

  push-items :
      (t : A) (q : Queue S)
      → IsQueue q
      → ((push S t q).0 ≡ ltb (length (items q)) q.cap)
        × (items (push S t q).1
            ≡ (if ltb (length (items q)) q.cap then items q ++ (t ∷ []) else items q))
  unfolding push
  push-items t q h = elim (Bool-cases (ltb (length (items q)) q.cap)) [
    | inl e ↦
        let (sent, grown) =
          S.push-room t q.queue_impl (omega (arith, h.as_reserved, ltb→lt _ _ e)) in
        rw (size-lt q h, e) (sent, grown)
    | inr e ↦ rw (size-lt q h, e) (refl, refl)
  ]

  pop-items :
      (t : A) (q : Queue S)
      → ((pop S t q).0 ≡ true)
        × ((pop S t q).1 ≡ first_or t (items q))
        × (items (pop S t q).2 ≡ rest_of (items q))
  unfolding pop
  pop-items t q = by_items (items q) refl
    where
      by_items :
          (xs : List A)
          → items q ≡ xs
          → (true ≡ true)
            × (elim (S.pop q.queue_impl).0 [ none ↦ t | some x ↦ x ] ≡ first_or t (items q))
            × (S.elements (S.pop q.queue_impl).1 ≡ rest_of (items q))
      by_items [] e =
          let (front, rest) = S.pop-empty q.queue_impl e in (refl, rw (front, e), rw e rest)
      by_items (x ∷ xs) e =
          let (front, rest) = S.pop-front x xs q.queue_impl e in (refl, rw (front, e), rw e rest)

  push-IsQueue : (t : A) (q : Queue S) → IsQueue q → IsQueue (push S t q).1
  unfolding push
  push-IsQueue t q h = elim (Bool-cases (ltb (length (items q)) q.cap)) [
    | inl e ↦
        let room = ltb→lt _ _ e in
        let (_, grown) = S.push-room t q.queue_impl (omega (arith, h.as_reserved, room)) in
        rw (size-lt q h, e)
          (record {
            fits_int = h.fits_int;
            as_reserved = S.capacity-push t q.queue_impl ∙ h.as_reserved;
            within = rw grown (omega (arith, length-append (items q) (t ∷ []), room));
          })
    | inr e ↦ rw (size-lt q h, e) h
  ]

  length-rest_of-le : (xs : List A) → length (rest_of xs) ≤ length xs
  length-rest_of-le [] = omega arith
  length-rest_of-le (x ∷ xs) = omega arith

  pop-IsQueue : (t : A) (q : Queue S) → IsQueue q → IsQueue (pop S t q).2
  unfolding pop
  pop-IsQueue t q h = record {
    fits_int = h.fits_int;
    as_reserved = S.capacity-pop q.queue_impl ∙ h.as_reserved;
    within = rw (pop-items t q).2 (omega (arith, length-rest_of-le (items q), h.within));
  }

  cons-eq : (t : A) (xs : List A) → nat_beq (length xs) 0 ≡ false → xs ≡ first_or t xs ∷ rest_of xs
  cons-eq t [] e = absurd (ground arith)
  cons-eq t (x ∷ xs) e = refl

  -- A call of the producer, or one of the consumer, which looks at `Empty` first.
  pub data Step : Type 0 where
    sending : A → Step
    taking : A → Step

  abbrev pub step : Step → Queue S → Queue S
  step (sending x) q = (push S x q).1
  step (taking t) q = if empty S q then q else (pop S t q).2

  abbrev pub steps : List Step → Queue S → Queue S
  steps [] q = q
  steps (s ∷ ss) q = steps ss (step s q)

  -- What `Push` took, and what `Pop` gave, in order.
  abbrev pub accepted : List Step → Queue S → List A
  accepted [] q = []
  accepted (sending x ∷ ss) q =
      let rest = accepted ss (push S x q).1 in if (push S x q).0 then x ∷ rest else rest
  accepted (taking t ∷ ss) q = accepted ss (step (taking t) q)

  abbrev pub taken : List Step → Queue S → List A
  taken [] q = []
  taken (sending x ∷ ss) q = taken ss (push S x q).1
  taken (taking t ∷ ss) q =
      let rest = taken ss (step (taking t) q) in if empty S q then rest else (pop S t q).1 ∷ rest

  -- The channel neither loses, nor invents, nor reorders what it took: whatever the order of the
  -- calls, what the consumer got, followed by what is still inside, is what was inside, followed
  -- by what `Push` took.
  pub steps-Fifo :
      (ss : List Step) (q : Queue S)
      → IsQueue q
      → taken ss q ++ items (steps ss q) ≡ items q ++ accepted ss q
  unfolding empty
  steps-Fifo [] q h = sym (append-nil (items q))
  steps-Fifo (sending x ∷ ss) q h =
      let rest = steps-Fifo ss (push S x q).1 (push-IsQueue x q h) in
      let (sent, grown) = push-items x q h in
      elim (Bool-cases (ltb (length (items q)) q.cap)) [
        | inl e ↦ rest ∙ rw (grown, sent, e) (append_assoc (items q) (x ∷ []) _)
        | inr e ↦ rest ∙ rw (grown, sent, e)
      ]
  steps-Fifo (taking t ∷ ss) q h = elim (Bool-cases (empty S q)) [
    | inl e ↦ rw e (steps-Fifo ss q h)
    | inr e ↦
        let rest = steps-Fifo ss (pop S t q).2 (pop-IsQueue t q h) in
        let (_, given, left) = pop-items t q in
        let whole : (pop S t q).1 ∷ items (pop S t q).2 ≡ items q =
          rw (given, left) (sym (cons-eq t (items q) (sym (S.empty-eq q.queue_impl) ∙ e))) in
        rw e (ap (λ l. (pop S t q).1 ∷ l) rest ∙ ap (λ l. l ++ accepted ss (pop S t q).2) whole)
  ]
