-- ===== src/Detection/Groups.antt =====
-- The loops over `i` and `j` of `Detect::nms`, modules/api/src/Detect.cpp: each member that is not
-- merged yet gathers the later ones that it hits.
use edge_frame.Prelude.{
  ◌+◌, ◌≡◌, refl, Bool, true, false, not, ◌&&◌, ◌||◌, List, [], ◌∷◌, ◌++◌, arith, if◌then◌else◌,
  count_if, count_if-append, All, if_cases, Bool-cases, inl, inr,
}

module _ {ℓ} {A : Type ℓ} where
  -- `std::vector<int> merged(box_num, 0)`
  abbrev pub none_merged : List A → List Bool
  none_merged [] = []
  none_merged (x ∷ xs) = false ∷ none_merged xs

  -- What is not merged yet.
  abbrev pub alive : List A → List Bool → List A
  alive (x ∷ xs) (m ∷ ms) = let rest = alive xs ms in if m then rest else x ∷ rest
  alive _ _ = []

  abbrev pub members : List (A × List A) → List A
  members [] = []
  members ((b, others) ∷ gs) = b ∷ (others ++ members gs)

  pub alive-none_merged : (xs : List A) → alive xs (none_merged xs) ≡ xs
  alive-none_merged [] = refl
  alive-none_merged (x ∷ xs) = rw (alive-none_merged xs)

  -- Each member stands in the relation to all later ones.
  abbrev pub Ordered : (A → A → Type 0) → List A → Type 0
  Ordered R [] = Unit
  Ordered R (x ∷ xs) = All (R x) xs × Ordered R xs

module _ {ℓ} {A : Type ℓ} (hits : A → A → Bool) where
  -- The members of `buf` after the first, and the entries of `merged` after the loop over `j`.
  unfoldable pub absorbed : A → List A → List Bool → List A
  absorbed b (x ∷ xs) (m ∷ ms) =
      let rest = absorbed b xs ms in if not m && hits b x then x ∷ rest else rest
  absorbed b _ _ = []

  unfoldable pub mark : A → List A → List Bool → List Bool
  mark b (x ∷ xs) (m ∷ ms) = (m || hits b x) ∷ mark b xs ms
  mark b _ _ = []

  -- The loop over `i`: the members of `buf` each time, the first and the others.
  unfoldable pub groups : List A → List Bool → List (A × List A)
  groups (b ∷ bs) (m ∷ ms) =
      let skipped = groups bs ms in
      let found = (b, absorbed b bs ms) ∷ groups bs (mark b bs ms) in if m then skipped else found
  groups _ _ = []

  module _ (q : A → Bool) where
    absorbed_and_marked :
        (b : A) (xs : List A) (ms : List Bool)
        → count_if q (absorbed b xs ms) + count_if q (alive xs (mark b xs ms))
          ≡ count_if q (alive xs ms)
    unfolding absorbed mark
    absorbed_and_marked b [] ms = omega arith
    absorbed_and_marked b (x ∷ xs) [] = omega arith
    absorbed_and_marked b (x ∷ xs) (m ∷ ms) = ground (arith, absorbed_and_marked b xs ms)

    count-groups :
        (xs : List A) (ms : List Bool)
        → count_if q (members (groups xs ms)) ≡ count_if q (alive xs ms)
    unfolding groups
    count-groups [] ms = refl
    count-groups (x ∷ xs) [] = refl
    count-groups (x ∷ xs) (true ∷ ms) = count-groups xs ms
    count-groups (x ∷ xs) (false ∷ ms) =
        let others = absorbed x xs ms in
        let rest = members (groups xs (mark x xs ms)) in
        omega (
          arith,
          count-groups xs (mark x xs ms),
          absorbed_and_marked x xs ms,
          count_if-append q others rest,
        )

    -- Every member of the input ends up in one group, as often as it was there.
    pub count-members :
        (xs : List A) → count_if q (members (groups xs (none_merged xs))) ≡ count_if q xs
    count-members xs = rw (count-groups xs (none_merged xs), alive-none_merged xs) refl

  module _ {κ} (Q : A → Type κ) where
    alive-mark-All :
        (b : A) (xs : List A) (ms : List Bool)
        → All Q (alive xs ms)
        → All Q (alive xs (mark b xs ms))
    unfolding mark
    alive-mark-All b [] ms h = h
    alive-mark-All b (x ∷ xs) [] h = h
    alive-mark-All b (x ∷ xs) (true ∷ ms) h = alive-mark-All b xs ms h
    alive-mark-All b (x ∷ xs) (false ∷ ms) h =
        let rest = alive-mark-All b xs ms h.1 in
        if_cases (λ l. All Q l) (hits b x) (λ _. rest) (λ _. (h.0, rest))

    -- What holds of all members that are not merged holds of every group's first.
    firsts-All :
        (xs : List A) (ms : List Bool)
        → All Q (alive xs ms)
        → All (λ (g : A × List A). Q g.0) (groups xs ms)
    unfolding groups
    firsts-All [] ms h = h
    firsts-All (x ∷ xs) [] h = h
    firsts-All (x ∷ xs) (true ∷ ms) h = firsts-All xs ms h
    firsts-All (x ∷ xs) (false ∷ ms) h =
        (h.0, firsts-All xs (mark x xs ms) (alive-mark-All x xs ms h.1))

    absorbed-All :
        (b : A) (xs : List A) (ms : List Bool) → All Q (alive xs ms) → All Q (absorbed b xs ms)
    unfolding absorbed
    absorbed-All b [] ms h = h
    absorbed-All b (x ∷ xs) [] h = tt
    absorbed-All b (x ∷ xs) (true ∷ ms) h = absorbed-All b xs ms h
    absorbed-All b (x ∷ xs) (false ∷ ms) h =
        let rest = absorbed-All b xs ms h.1 in
        if_cases (λ l. All Q l) (hits b x) (λ _. (h.0, rest)) (λ _. rest)

  -- What is left after a round is not hit by its first box.
  alive-mark-clear :
      (b : A) (xs : List A) (ms : List Bool) → All (λ x. hits b x ≡ false) (alive xs (mark b xs ms))
  unfolding mark
  alive-mark-clear b [] ms = tt
  alive-mark-clear b (x ∷ xs) [] = tt
  alive-mark-clear b (x ∷ xs) (true ∷ ms) = alive-mark-clear b xs ms
  alive-mark-clear b (x ∷ xs) (false ∷ ms) =
      let rest = alive-mark-clear b xs ms in
      elim (Bool-cases (hits b x)) [ inl e ↦ rw e rest | inr e ↦ rw e (e, rest) ]

  absorbed-hits :
      (b : A) (xs : List A) (ms : List Bool) → All (λ x. hits b x ≡ true) (absorbed b xs ms)
  unfolding absorbed
  absorbed-hits b [] ms = tt
  absorbed-hits b (x ∷ xs) [] = tt
  absorbed-hits b (x ∷ xs) (true ∷ ms) = absorbed-hits b xs ms
  absorbed-hits b (x ∷ xs) (false ∷ ms) =
      let rest = absorbed-hits b xs ms in
      elim (Bool-cases (hits b x)) [ inl e ↦ rw e (e, rest) | inr e ↦ rw e rest ]

  -- No group's first hits that of a later one.
  abbrev pub Clear : List (A × List A) → Type 0
  Clear [] = Unit
  Clear (g ∷ gs) = All (λ (later : A × List A). hits g.0 later.0 ≡ false) gs × Clear gs

  pub groups-Clear : (xs : List A) (ms : List Bool) → Clear (groups xs ms)
  unfolding groups
  groups-Clear [] ms = tt
  groups-Clear (x ∷ xs) [] = tt
  groups-Clear (x ∷ xs) (true ∷ ms) = groups-Clear xs ms
  groups-Clear (x ∷ xs) (false ∷ ms) = (
    firsts-All (λ y. hits x y ≡ false) xs (mark x xs ms) (alive-mark-clear x xs ms),
    groups-Clear xs (mark x xs ms),
  )

  -- Each member of a group but the first is hit by the first.
  pub groups-hits :
      (xs : List A) (ms : List Bool)
      → All (λ (g : A × List A). All (λ x. hits g.0 x ≡ true) g.1) (groups xs ms)
  unfolding groups
  groups-hits [] ms = tt
  groups-hits (x ∷ xs) [] = tt
  groups-hits (x ∷ xs) (true ∷ ms) = groups-hits xs ms
  groups-hits (x ∷ xs) (false ∷ ms) = (absorbed-hits x xs ms, groups-hits xs (mark x xs ms))

  module _ (R : A → A → Type 0) where
    alive-mark-Ordered :
        (b : A) (xs : List A) (ms : List Bool)
        → Ordered R (alive xs ms)
        → Ordered R (alive xs (mark b xs ms))
    unfolding mark
    alive-mark-Ordered b [] ms h = h
    alive-mark-Ordered b (x ∷ xs) [] h = h
    alive-mark-Ordered b (x ∷ xs) (true ∷ ms) h = alive-mark-Ordered b xs ms h
    alive-mark-Ordered b (x ∷ xs) (false ∷ ms) h =
        let rest = alive-mark-Ordered b xs ms h.1 in
        if_cases (Ordered R) (hits b x) (λ _. rest) (λ _. (alive-mark-All (R x) b xs ms h.0, rest))

    -- In an ordered input, a group's first stands in the relation to the others.
    pub groups-Ordered :
        (xs : List A) (ms : List Bool)
        → Ordered R (alive xs ms)
        → All (λ (g : A × List A). All (R g.0) g.1) (groups xs ms)
    unfolding groups
    groups-Ordered [] ms h = tt
    groups-Ordered (x ∷ xs) [] h = tt
    groups-Ordered (x ∷ xs) (true ∷ ms) h = groups-Ordered xs ms h
    groups-Ordered (x ∷ xs) (false ∷ ms) h = (
      absorbed-All (R x) x xs ms h.0,
      groups-Ordered xs (mark x xs ms) (alive-mark-Ordered x xs ms h.1),
    )
