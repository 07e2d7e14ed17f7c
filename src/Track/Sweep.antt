-- ===== src/Track/Sweep.antt =====
-- The loops of modules/track/src/tracker.cpp that walk a vector by index and erase from it on the
-- way: `for (i = 0; i < v.size(); i++) if (...) { v.erase(v.begin() + i); i--; }`.
use edge_frame.Prelude.{ℕ, zero, suc, ◌+◌, ◌≤◌, ◌≡◌, refl, ap, List, [], ◌∷◌, ◌++◌}
use edge_frame.Prelude.{
  none, some, length, get_elem?, erase_at, append_assoc, append-nil, arith, ◌⊎◌, inl, inr,
  length-append, All,
}

-- What the body of the loop does with an element: nothing, erase it, or push it to another vector
-- and erase it.
pub data Verdict : Type 0 where
  keep drop move : Verdict

pub record Swept {ℓ} (A : Type ℓ) : Type ℓ where
  pub left : List A
  pub out : List A

module _ {ℓ} {A : Type ℓ} (verdict : A → Verdict) where
  -- One round for each element that is looked at; `i--; continue` stays at `i`.
  unfoldable pub sweep_from : ℕ → ℕ → List A → List A → Swept A
  sweep_from zero i xs out = record { left = xs; out = out }
  sweep_from (suc f) i xs out = elim (get_elem? xs i) [
    | none ↦ record { left = xs; out = out }
    | some x ↦ elim (verdict x) [
      | keep ↦ sweep_from f (i + 1) xs out
      | drop ↦ sweep_from f i (erase_at xs i) out
      | move ↦ sweep_from f i (erase_at xs i) (out ++ (x ∷ []))
    ]
  ]

  -- Every round either steps on or shortens the vector, so its length is fuel enough.
  unfoldable pub sweep : List A → List A → Swept A
  unfolding sweep_from
  sweep xs out = sweep_from (length xs) 0 xs out

  -- What stays and what moves, element by element.
  unfoldable pub stay : List A → List A
  stay [] = []
  stay (x ∷ xs) = let rest = stay xs in elim (verdict x) [ keep ↦ x ∷ rest | _ ↦ rest ]

  unfoldable pub moved : List A → List A
  moved [] = []
  moved (x ∷ xs) = let rest = moved xs in elim (verdict x) [ move ↦ x ∷ rest | _ ↦ rest ]

  get_elem?-append :
      (done : List A) (x : A) (xs : List A) → get_elem? (done ++ (x ∷ xs)) (length done) ≡ some x
  get_elem?-append [] x xs = refl
  get_elem?-append (d ∷ done) x xs = get_elem?-append done x xs

  erase_at-append :
      (done : List A) (x : A) (xs : List A) → erase_at (done ++ (x ∷ xs)) (length done) ≡ done ++ xs
  erase_at-append [] x xs = refl
  erase_at-append (d ∷ done) x xs = ap (◌∷◌ d) (erase_at-append done x xs)

  get_elem?-append_end : (done : List A) → get_elem? (done ++ []) (length done) ≡ none
  get_elem?-append_end [] = refl
  get_elem?-append_end (d ∷ done) = get_elem?-append_end done

  length_snoc : (done : List A) (x : A) → length (done ++ (x ∷ [])) ≡ length done + 1
  length_snoc done x = omega (arith, length-append done (x ∷ []))

  Verdict-cases : (v : Verdict) → (v ≡ keep) ⊎ (v ≡ drop) ⊎ (v ≡ move)
  Verdict-cases keep = inl refl
  Verdict-cases drop = inr (inl refl)
  Verdict-cases move = inr (inr refl)

  sweep_from-eq :
      (f : ℕ) (done xs out : List A)
      → length xs ≤ f
      → sweep_from f (length done) (done ++ xs) out
        ≡ record { left = done ++ stay xs; out = out ++ moved xs }
  unfolding sweep_from stay moved
  sweep_from-eq zero done [] out h = simp append-nil
  sweep_from-eq zero done (x ∷ xs) out h = absurd (omega arith)
  sweep_from-eq (suc f) done [] out h = rw (get_elem?-append_end done, sweep_from) (simp append-nil)
  sweep_from-eq (suc f) done (x ∷ xs) out h = elim (Verdict-cases (verdict x)) [
    | inl e ↦
        rw (get_elem?-append done x xs, e, sweep_from, stay, moved)
          (simp (append_assoc, length_snoc done x) at
            (sweep_from-eq f (done ++ (x ∷ [])) xs out (omega arith)))
    | inr (inl e) ↦
        rw (get_elem?-append done x xs, e, erase_at-append done x xs, sweep_from, stay, moved)
          (sweep_from-eq f done xs out (omega arith))
    | inr (inr e) ↦
        rw (get_elem?-append done x xs, e, erase_at-append done x xs, sweep_from, stay, moved)
          (simp append_assoc at (sweep_from-eq f done xs (out ++ (x ∷ [])) (omega arith)))
  ]

  -- The loop keeps exactly the elements it was told to keep and moves exactly those to be moved,
  -- both in their order, whatever it erases on the way.
  pub sweep-eq : (xs out : List A) → sweep xs out ≡ record { left = stay xs; out = out ++ moved xs }
  unfolding sweep
  sweep-eq xs out = sweep_from-eq (length xs) [] xs out (omega arith)

  pub stay-keep : (xs : List A) → All (λ x. verdict x ≡ keep) (stay xs)
  unfolding stay
  stay-keep [] = tt
  stay-keep (x ∷ xs) = ground (arith, stay-keep xs)

  pub moved-move : (xs : List A) → All (λ x. verdict x ≡ move) (moved xs)
  unfolding moved
  moved-move [] = tt
  moved-move (x ∷ xs) = ground (arith, moved-move xs)

  module _ {κ} (Q : A → Type κ) where
    pub All-stay : (xs : List A) → All Q xs → All Q (stay xs)
    unfolding stay
    All-stay [] h = h
    All-stay (x ∷ xs) h = ground (arith, All-stay xs h.1)

    pub All-moved : (xs : List A) → All Q xs → All Q (moved xs)
    unfolding moved
    All-moved [] h = h
    All-moved (x ∷ xs) h = ground (arith, All-moved xs h.1)
