-- ===== src/Split/OnePass.antt =====
-- `split` of src/SysPublicTool.cpp against a single pass over the string.
use edge_frame.Prelude.{
  ℕ, zero, suc, ◌≤◌, ◌≡◌, refl, ◌∙◌, ap, sym, List, [], ◌∷◌, ◌++◌, append_assoc, append-nil, some,
  arith, if◌then◌else◌, length, Bool-cases, inl, inr,
}
use edge_frame.Split.{is_separator, skip, word, after_word, push_word, split_from, split}

-- The pieces in one pass: a separator ends the piece at hand, which counts if it is not empty.
abbrev pub pieces : List ℕ → List ℕ → List ℕ → List (List ℕ)
pieces seperator [] w = push_word w []
pieces seperator (c ∷ cs) w =
    let cut = push_word w (pieces seperator cs []) in
    let grown = pieces seperator cs (w ++ (c ∷ [])) in
    if is_separator seperator c then cut else grown

pieces-skip :
    (seperator s : List ℕ) → pieces seperator (skip seperator s) [] ≡ pieces seperator s []
unfolding skip push_word
pieces-skip seperator [] = refl
pieces-skip seperator (c ∷ cs) = elim (Bool-cases (is_separator seperator c)) [
  | inl e ↦ rw e (pieces-skip seperator cs)
  | inr e ↦ rw (e, e) refl
]

pieces-word :
    (seperator s w : List ℕ)
    → pieces seperator s w
      ≡ push_word (w ++ word seperator s) (pieces seperator (after_word seperator s) [])
unfolding word after_word push_word
pieces-word seperator [] w = rw (append-nil w) refl
pieces-word seperator (c ∷ cs) w = elim (Bool-cases (is_separator seperator c)) [
  | inl e ↦ rw (e, append-nil w, e) refl
  | inr e ↦ rw e (
      pieces-word seperator cs (w ++ (c ∷ []))
      ∙ ap (λ l. push_word l (pieces seperator (after_word seperator cs) []))
          (append_assoc w (c ∷ []) (word seperator cs)))
]

length-after_word-le : (seperator s : List ℕ) → length (after_word seperator s) ≤ length s
unfolding after_word
length-after_word-le seperator [] = omega arith
length-after_word-le seperator (c ∷ cs) = elim (Bool-cases (is_separator seperator c)) [
  | inl e ↦ rw e (omega arith)
  | inr e ↦ rw e (omega (arith, length-after_word-le seperator cs))
]

length-skip-le : (seperator s : List ℕ) → length (skip seperator s) ≤ length s
unfolding skip
length-skip-le seperator [] = omega arith
length-skip-le seperator (c ∷ cs) = elim (Bool-cases (is_separator seperator c)) [
  | inl e ↦ rw e (omega (arith, length-skip-le seperator cs))
  | inr e ↦ rw e (omega arith)
]

-- A round of the outer loop moves on, whether it starts at a separator or not.
round-lt :
    (seperator : List ℕ) (c : ℕ) (cs : List ℕ)
    → length (after_word seperator (skip seperator (c ∷ cs))) ≤ length cs
unfolding skip after_word
round-lt seperator c cs = elim (Bool-cases (is_separator seperator c)) [
  | inl e ↦ rw e (
      omega
        (arith, length-after_word-le seperator (skip seperator cs), length-skip-le seperator cs))
  | inr e ↦ rw (e, e) (length-after_word-le seperator cs)
]

split_from-pieces :
    (n : ℕ) (seperator s : List ℕ)
    → length s ≤ n
    → split_from n seperator s ≡ some (pieces seperator s [])
unfolding split_from push_word
split_from-pieces n seperator [] h = refl
split_from-pieces zero seperator (c ∷ cs) h = absurd (omega (arith, h))
split_from-pieces (suc n) seperator (c ∷ cs) h =
    let s = skip seperator (c ∷ cs) in
    let rest =
      split_from-pieces n seperator (after_word seperator s)
        (omega (arith, round-lt seperator c cs, h)) in
    rw rest (ap some (sym (pieces-word seperator s []) ∙ pieces-skip seperator (c ∷ cs)))

-- `split` ends on every string and every set of separators, and gives the pieces between
-- separators, in order and without the empty ones, that a single pass over the string finds.
pub split-pieces : (s seperator : List ℕ) → split s seperator ≡ some (pieces seperator s [])
unfolding split
split-pieces s seperator = split_from-pieces (length s) seperator s (omega arith)
