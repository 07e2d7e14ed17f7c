-- ===== src/Loader/Camera/Select.antt =====
-- Which resolution `selectResolution` chooses.
use edge_frame.Prelude.{
  ℕ, zero, suc, ◌+◌, ◌≡◌, ◌≤◌, ◌<◌, ◌⊎◌, inl, inr, refl, ap, false, List, [], ◌∷◌, Option, none,
  some, arith, nat_beq, ltb, length, get_elem?, All, All-implies, Bool-cases, if_cases, some_eq,
  ◌∙◌, subst, Option-cases, ltb→lt, nat_beq_iff,
}
use edge_frame.Loader.Camera.{
  Resolution, Choice, diff_960, examine, first_loop, nearest, select_resolution,
}

-- A member of the list.
abbrev pub In : List Resolution → Resolution → Type 0
In rs r = (i : ℕ) × (get_elem? rs i ≡ some r)

All-In : (rs : List Resolution) → All (In rs) rs
All-In [] = tt
All-In (r ∷ rs) =
    ((0, refl), All-implies (In rs) (In (r ∷ rs)) (λ s m. (suc m.0, m.1)) rs (All-In rs))

abbrev OfSome : (Resolution → Type 0) → Option Resolution → Type 0
OfSome Q none = Unit
OfSome Q (some r) = Q r

abbrev IsSome : Option Resolution → Type 0
IsSome none = ⊥
IsSome (some r) = Unit

le_of_not_ltb : (a b : ℕ) → ltb a b ≡ false → b ≤ a
le_of_not_ltb a b h = ground arith

module _ (Q : Resolution → Type 0) where
  -- What the first loop has found.
  record Found (c : Choice) : Type 0 where
    wide : OfSome (λ r. Q r × (r.0 ≡ 960)) c.candidate
    exact : OfSome (λ r. Q r × (r.0 ≡ 960) × (r.1 ≡ 540)) c.selected

  kept_candidate :
      (o : Option Resolution) (r : Resolution)
      → OfSome (λ s. Q s × (s.0 ≡ 960)) o
      → Q r
      → r.0 ≡ 960
      → OfSome (λ s. Q s × (s.0 ≡ 960)) (elim o [ none ↦ some r | some old ↦ some old ])
  kept_candidate none r h q e = (q, e)
  kept_candidate (some s) r h q e = h

  examine-Found : (r : Resolution) (c : Choice) → Q r → Found c → Found (examine r c)
  unfolding examine
  examine-Found r c q h = elim (Bool-cases (nat_beq r.0 960)) [
    | inl e ↦
        let wide : r.0 ≡ 960 = (nat_beq_iff r.0 960).0 e in
        rw e (record {
          wide = kept_candidate c.candidate r h.wide q wide;
          exact =
              if_cases (OfSome (λ r. Q r × (r.0 ≡ 960) × (r.1 ≡ 540))) (nat_beq r.1 540)
                (λ k. (q, wide, (nat_beq_iff r.1 540).0 k)) (λ _. h.exact);
        })
    | inr e ↦ rw e h
  ]

  first_loop-Found :
      (rs : List Resolution) (c : Choice) → All Q rs → Found c → Found (first_loop rs c)
  unfolding first_loop
  first_loop-Found [] c q h = h
  first_loop-Found (r ∷ rs) c q h = first_loop-Found rs (examine r c) q.1 (examine-Found r c q.0 h)

examine_stays : (r : Resolution) (c : Choice) → IsSome c.selected → IsSome (examine r c).selected
unfolding examine
examine_stays r c h =
    if_cases (λ (x : Choice). IsSome x.selected) (nat_beq r.0 960)
      (λ _. if_cases IsSome (nat_beq r.1 540) (λ _. tt) (λ _. h)) (λ _. h)

selected_stays :
    (rs : List Resolution) (c : Choice) → IsSome c.selected → IsSome (first_loop rs c).selected
unfolding first_loop
selected_stays [] c h = h
selected_stays (r ∷ rs) c h = selected_stays rs (examine r c) (examine_stays r c h)

-- The exact resolution is found wherever it stands.
exact_found :
    (rs : List Resolution) (c : Choice) (i : ℕ)
    → get_elem? rs i ≡ some (960, 540)
    → IsSome (first_loop rs c).selected
unfolding first_loop examine
exact_found [] c i e = absurd (cc)
exact_found (r ∷ rs) c zero e = rw (some_eq e) (selected_stays rs _ tt)
exact_found (r ∷ rs) c (suc i) e = exact_found rs (examine r c) i e

-- A member at a place from `i` on, and its distance from 960.
abbrev Stands : List Resolution → ℕ → Option ℕ × ℕ → Type 0
Stands rs i result =
    (k : ℕ) × (r : Resolution) × (get_elem? rs k ≡ some r) × (result ≡ (some (i + k), diff_960 r.0))

-- The second loop leaves what it started with, or the place of a member; either is nearest to 960.
abbrev Nearest : List Resolution → ℕ → Option ℕ × ℕ → Option ℕ × ℕ → Type 0
Nearest rs i best result =
    (result.1 ≤ best.1)
    × All (λ (r : Resolution). result.1 ≤ diff_960 r.0) rs
    × ((result ≡ best) ⊎ Stands rs i result)

Stands-later :
    (r : Resolution) (rs : List Resolution) (i : ℕ) (result : Option ℕ × ℕ)
    → Stands rs (suc i) result
    → Stands (r ∷ rs) i result
Stands-later r rs i result (k, s, e, q) =
    (suc k, s, e, q ∙ ap (λ (m : ℕ). (some m, diff_960 s.0)) (omega arith))

Stands-here :
    (r : Resolution) (rs : List Resolution) (i : ℕ) (result : Option ℕ × ℕ)
    → result ≡ (some i, diff_960 r.0)
    → Stands (r ∷ rs) i result
Stands-here r rs i result e = (0, r, refl, e ∙ ap (λ (m : ℕ). (some m, diff_960 r.0)) (omega arith))

nearest-Nearest :
    (rs : List Resolution) (i : ℕ) (best : Option ℕ × ℕ) → Nearest rs i best (nearest rs i best)
unfolding nearest
nearest-Nearest [] i best = (omega arith, tt, inl refl)
nearest-Nearest (r ∷ rs) i best =
    let here : Option ℕ × ℕ = (some i, diff_960 r.0) in
    let (low, all, which) = nearest-Nearest rs (suc i) here in
    let (low', all', which') = nearest-Nearest rs (suc i) best in
    if_cases (λ x. Nearest (r ∷ rs) i best (nearest rs (suc i) x)) (ltb (diff_960 r.0) best.1)
      (λ e. (
        omega (arith, low, ltb→lt _ _ e),
        (low, all),
        elim which [
          | inl same ↦ inr (Stands-here r rs i _ same)
          | inr later ↦ inr (Stands-later r rs i _ later)
        ],
      ))
      (λ e. (
        low',
        (omega (arith, low', le_of_not_ltb _ _ e), all'),
        elim which' [ inl same ↦ inl same | inr later ↦ inr (Stands-later r rs i _ later) ],
      ))

wide_le :
    (r : Resolution) (found : List Resolution)
    → r.0 ≡ 960
    → All (λ s. diff_960 r.0 ≤ diff_960 s.0) found
unfolding diff_960
wide_le r [] e = tt
wide_le r (s ∷ ss) e = (rw e (omega arith), wide_le r ss e)

pair_eq : (r : Resolution) → r.0 ≡ 960 → r.1 ≡ 540 → r ≡ (960, 540)
pair_eq r e f = ground arith

-- What is said of a chosen resolution.
abbrev pub Best : List Resolution → Resolution → Type 0
Best found r =
    In found r
    × All (λ (s : Resolution). diff_960 r.0 ≤ diff_960 s.0) found
    × (In found (960, 540) → r ≡ (960, 540))

nearest_total :
    (found : List Resolution)
    → 0 < length found
    → All (λ (r : Resolution). diff_960 r.0 < 99999) found
    → (i : ℕ) × (r : Resolution) × ((nearest found 0 (none, 99999)).0 ≡ some i)
      × (get_elem? found i ≡ some r)
      × All (λ (s : Resolution). diff_960 r.0 ≤ diff_960 s.0) found
nearest_total [] h near = absurd (omega arith)
nearest_total (x ∷ xs) h near =
    let (low, all, which) = nearest-Nearest (x ∷ xs) 0 (none, 99999) in
    elim which [
      | inl same ↦
          let far : (nearest (x ∷ xs) 0 (none, 99999)).1 ≡ 99999 = ap (λ p. p.1) same in
          absurd (omega (arith, all.0, near.0))
      | inr (k, r, e, q) ↦
          let d : (nearest (x ∷ xs) 0 (none, 99999)).1 ≡ diff_960 r.0 = ap (λ p. p.1) q in
          (
            k,
            r,
            ap (λ p. p.0) q ∙ ap (λ (m : ℕ). some m) (omega arith),
            e,
            subst (λ m. All (λ (s : Resolution). m ≤ diff_960 s.0) (x ∷ xs)) d all,
          )
    ]

-- On resolutions that are not empty and less than 99999 from 960 in width, `selectResolution`
-- reads nothing out of range. It chooses one of them, of a width that is nearest to 960, and
-- chooses 960 by 540 if that is there.
pub select_resolution-Best :
    (found : List Resolution)
    → 0 < length found
    → All (λ (r : Resolution). diff_960 r.0 < 99999) found
    → (r : Resolution) × (select_resolution found ≡ some r) × Best found r
unfolding select_resolution
select_resolution-Best found h near =
    let start : Choice = record { candidate = none; selected = none } in
    let c = first_loop found start in
    let f =
      first_loop-Found (In found) found start (All-In found) (record { wide = tt; exact = tt }) in
    let missing =
      λ (i : ℕ) (e : get_elem? found i ≡ some (960, 540)). exact_found found start i e in
    elim (Option-cases c.selected) [
      | inr (r, e) ↦
          let (m, w, x) = rw e at f.exact in
          rw e (r, refl, (m, wide_le r found w, λ _. pair_eq r w x))
      | inl e ↦
          let none_exact = λ (m : In found (960, 540)). (rw e at (missing m.0 m.1)) in
          elim (Option-cases c.candidate) [
            | inr (r, k) ↦
                let (m, w) = rw k at f.wide in
                rw (e, k) (r, refl, (m, wide_le r found w, λ x. absurd (none_exact x)))
            | inl k ↦
                let (i, r, ei, er, all) = nearest_total found h near in
                rw (e, k, ei) (r, er, ((i, er), all, λ x. absurd (none_exact x)))
          ]
    ]
