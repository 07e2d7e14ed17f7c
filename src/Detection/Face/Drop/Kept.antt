-- ===== src/Detection/Face/Drop/Kept.antt =====
-- What the suppression loops of `FaceDetectWithMask::postProcess` keep and drop.
use edge_frame.Prelude.{
  ℕ, zero, suc, ◌≡◌, refl, Bool, true, false, List, [], ◌∷◌, ◌++◌, arith, if◌then◌else◌, All,
  length, Bool-cases, inl, inr, if_cases,
}
use edge_frame.Platform.{Platform}
use edge_frame.Detection.{Maths}
use edge_frame.Detection.Groups.{Ordered}
use edge_frame.Detection.Face.{FaceNet, Row, Mark}
use edge_frame.Detection.Face.Drop.{is_small, ratio, suppress, inner, drop_pass}

module _ {P : Platform} (F : Maths P) (n : FaceNet P) where
  -- The rows that are not dropped.
  abbrev pub kept : List (Row P) → List (Mark P) → List (Row P)
  kept (r ∷ rs) (m ∷ ms) = let rest = kept rs ms in if m.dropped then rest else r ∷ rest
  kept _ _ = []

  -- The first k marks are those of dropped rows.
  abbrev pub FirstDropped : ℕ → List (Mark P) → Type 0
  FirstDropped zero ms = Unit
  FirstDropped (suc k) [] = ⊥
  FirstDropped (suc k) (m ∷ ms) = (m.dropped ≡ true) × FirstDropped k ms

  -- Once `drop_flag[i]` is set, the loop over `j` only skips.
  inner_dropped :
      (ri : Row P) (rs : List (Row P)) (ms : List (Mark P))
      → length ms ≡ length rs
      → inner F n ri true rs ms ≡ (true, ms)
  unfolding inner
  inner_dropped ri [] ms h = refl
  inner_dropped ri (rj ∷ rs) [] h = refl
  inner_dropped ri (rj ∷ rs) (m ∷ ms) h = rw (inner_dropped ri rs ms (omega arith))

  inner_small :
      (ri r : Row P) (rs ts : List (Row P)) (ms : List (Mark P))
      → is_small F n r ≡ true
      → length ms ≡ length (rs ++ (r ∷ ts))
      → (inner F n ri false (rs ++ (r ∷ ts)) ms).0 ≡ true
  unfolding inner
  inner_small ri r [] ts [] e h = absurd (omega arith)
  inner_small ri r [] ts (m ∷ ms) e h = rw (e, inner_dropped ri ts ms (omega arith)) refl
  inner_small ri r (rj ∷ rs) ts [] e h = absurd (omega arith)
  inner_small ri r (rj ∷ rs) ts (m ∷ ms) e h = elim (Bool-cases (is_small F n rj)) [
    | inl k ↦ rw (k, inner_dropped ri (rs ++ (r ∷ ts)) ms (omega arith)) refl
    | inr k ↦ rw k (inner_small ri r rs ts ms e (omega arith))
  ]

  length-inner :
      (ri : Row P) (drop : Bool) (rs : List (Row P)) (ms : List (Mark P))
      → length (inner F n ri drop rs ms).1 ≡ length ms
  unfolding inner
  length-inner ri drop [] ms = refl
  length-inner ri drop (rj ∷ rs) [] = refl
  length-inner ri drop (rj ∷ rs) (m ∷ ms) =
      let a = length-inner ri drop rs ms in
      let b = length-inner ri true rs ms in ground (arith, a, b)

  -- A row that is too small drops every row before it, too, whatever their overlaps: the code sets
  -- `drop_flag[i]` where the row at `j` is small.
  pub drop_pass-FirstDropped :
      (rs : List (Row P)) (r : Row P) (ts : List (Row P)) (ms : List (Mark P))
      → is_small F n r ≡ true
      → length ms ≡ length (rs ++ (r ∷ ts))
      → FirstDropped (suc (length rs)) (drop_pass F n (rs ++ (r ∷ ts)) ms)
  unfolding drop_pass
  drop_pass-FirstDropped [] r ts [] e h = absurd (omega arith)
  drop_pass-FirstDropped [] r ts (m ∷ ms) e h = elim (Bool-cases m.dropped) [
    | inl k ↦ rw k (refl, tt)
    | inr k ↦ rw (k, e) (refl, tt)
  ]
  drop_pass-FirstDropped (x ∷ rs) r ts [] e h = absurd (omega arith)
  drop_pass-FirstDropped (x ∷ rs) r ts (m ∷ ms) e h =
      let all = rs ++ (r ∷ ts) in
      let rest = λ (later : List (Mark P)) (l : length later ≡ length all).
        drop_pass-FirstDropped rs r ts later e l in
      elim (Bool-cases m.dropped) [
        | inl k ↦ rw k (refl, rest ms (omega arith))
        | inr k ↦ elim (Bool-cases (is_small F n x)) [
          | inl s ↦ rw (k, s) (refl, rest ms (omega arith))
          | inr s ↦
              rw (k, s)
                (
                  inner_small x r rs ts ms e (omega arith),
                  rest (inner F n x false all ms).1 (omega (arith, length-inner x false all ms)),
                )
        ]
      ]

  suppress_keeps :
      (ri rj : Row P) (m : Mark P) → (suppress F n ri rj m).dropped ≡ false → m.dropped ≡ false
  unfolding suppress
  suppress_keeps ri rj m h = ground arith

  module _ (Q : Row P → Type 0) where
    kept-head :
        (r : Row P) (rs : List (Row P)) (m : Mark P) (ms : List (Mark P))
        → All Q (kept (r ∷ rs) (m ∷ ms))
        → m.dropped ≡ false
        → Q r
    kept-head r rs m ms h e = (rw e at h).0

    kept-tail :
        (r : Row P) (rs : List (Row P)) (m : Mark P) (ms : List (Mark P))
        → All Q (kept (r ∷ rs) (m ∷ ms))
        → All Q (kept rs ms)
    kept-tail r rs m ms h = elim (Bool-cases m.dropped) [
      | inl e ↦ rw e at h
      | inr e ↦ (rw e at h).1
    ]

    kept-cons :
        (r : Row P) (rs : List (Row P)) (m : Mark P) (ms : List (Mark P))
        → (m.dropped ≡ false → Q r)
        → All Q (kept rs ms)
        → All Q (kept (r ∷ rs) (m ∷ ms))
    kept-cons r rs m ms f h = if_cases (λ l. All Q l) m.dropped (λ _. h) (λ e. (f e, h))

    kept-inner-All :
        (ri : Row P) (drop : Bool) (rs : List (Row P)) (ms : List (Mark P))
        → All Q (kept rs ms)
        → All Q (kept rs (inner F n ri drop rs ms).1)
    unfolding inner
    kept-inner-All ri drop [] ms h = h
    kept-inner-All ri drop (rj ∷ rs) [] h = h
    kept-inner-All ri drop (rj ∷ rs) (m ∷ ms) h =
        let here = kept-head rj rs m ms h in
        let tail = kept-tail rj rs m ms h in
        let rest = λ (d : Bool). kept-inner-All ri d rs ms tail in
        let Goal = λ (x : Bool × List (Mark P)). All Q (kept (rj ∷ rs) x.1) in
        if_cases Goal drop (λ _. kept-cons rj rs m _ here (rest drop))
          (λ _.
            if_cases Goal (is_small F n rj) (λ _. kept-cons rj rs m _ here (rest true))
              (λ _.
                kept-cons rj rs (suppress F n ri rj m) _ (λ e. here (suppress_keeps ri rj m e))
                  (rest drop)))

    kept-drop_pass-All :
        (rs : List (Row P)) (ms : List (Mark P))
        → All Q (kept rs ms)
        → All Q (kept rs (drop_pass F n rs ms))
    unfolding drop_pass
    kept-drop_pass-All [] ms h = h
    kept-drop_pass-All (r ∷ rs) [] h = h
    kept-drop_pass-All (r ∷ rs) (m ∷ ms) h =
        let here = kept-head r rs m ms h in
        let tail = kept-tail r rs m ms h in
        let Goal = λ (x : List (Mark P)). All Q (kept (r ∷ rs) x) in
        if_cases Goal m.dropped (λ _. kept-cons r rs m _ here (kept-drop_pass-All rs ms tail))
          (λ e.
            if_cases Goal (is_small F n r)
              (λ _.
                kept-cons r rs (record m { dropped = true }) _ (λ k. absurd (ground arith))
                  (kept-drop_pass-All rs ms tail))
              (λ _.
                kept-cons r rs (record m { dropped = (inner F n r false rs ms).0 }) _ (λ k. here e)
                  (kept-drop_pass-All rs _ (kept-inner-All r false rs ms tail))))

  -- A row that was compared with all later ones, and not dropped, is clear of those left.
  abbrev Clear : Row P → Row P → Type 0
  Clear ri rj = F.f_le n.nms_threshold (ratio F n ri rj) ≡ false

  suppress-Clear :
      (ri rj : Row P) (m : Mark P)
      → n.soft_nms ≡ false
      → (suppress F n ri rj m).dropped ≡ false
      → Clear ri rj
  unfolding suppress
  suppress-Clear ri rj m hard h = ground arith

  inner-Clear :
      (ri : Row P) (rs : List (Row P)) (ms : List (Mark P))
      → n.soft_nms ≡ false
      → length ms ≡ length rs
      → (inner F n ri false rs ms).0 ≡ false
      → All (Clear ri) (kept rs (inner F n ri false rs ms).1)
  unfolding inner
  inner-Clear ri [] ms hard l h = tt
  inner-Clear ri (rj ∷ rs) [] hard l h = tt
  inner-Clear ri (rj ∷ rs) (m ∷ ms) hard l h = elim (Bool-cases (is_small F n rj)) [
    | inl e ↦
        let both : true ≡ false = rw (e, inner_dropped ri rs ms (omega arith)) at h in absurd (cc)
    | inr e ↦ rw e (
        kept-cons (Clear ri) rj rs (suppress F n ri rj m) _ (suppress-Clear ri rj m hard)
          (inner-Clear ri rs ms hard (omega arith) (rw e at h)))
  ]

  abbrev NotSmall : Row P → Type 0
  NotSmall r = is_small F n r ≡ false

  abbrev Good : List (Row P) → Type 0
  Good rows = Ordered Clear rows × All NotSmall rows

  Good-dropped :
      (r : Row P) (rs : List (Row P)) (m : Mark P) (ms : List (Mark P))
      → m.dropped ≡ true
      → Good (kept rs ms)
      → Good (kept (r ∷ rs) (m ∷ ms))
  Good-dropped r rs m ms e h = rw e h

  Good-compared :
      (r : Row P) (rs : List (Row P)) (m : Mark P) (ms : List (Mark P))
      → NotSmall r
      → (m.dropped ≡ false → All (Clear r) (kept rs ms))
      → Good (kept rs ms)
      → Good (kept (r ∷ rs) (m ∷ ms))
  Good-compared r rs m ms s c h = if_cases Good m.dropped (λ _. h) (λ e. ((c e, h.0), (s, h.1)))

  -- With hard suppression, the rows that are kept are not small, and none of them overlaps a later
  -- one by the threshold or more.
  pub drop_pass-Clear :
      (rs : List (Row P)) (ms : List (Mark P))
      → n.soft_nms ≡ false
      → length ms ≡ length rs
      → Ordered
          (λ ri rj. F.f_le n.nms_threshold (ratio F n ri rj) ≡ false)
          (kept rs (drop_pass F n rs ms))
        × All (λ r. is_small F n r ≡ false) (kept rs (drop_pass F n rs ms))
  unfolding drop_pass
  drop_pass-Clear [] ms hard l = (tt, tt)
  drop_pass-Clear (r ∷ rs) [] hard l = (tt, tt)
  drop_pass-Clear (r ∷ rs) (m ∷ ms) hard l =
      let after = inner F n r false rs ms in
      let rest = drop_pass-Clear rs ms hard (omega arith) in
      let later = drop_pass-Clear rs after.1 hard (omega (arith, length-inner r false rs ms)) in
      let Goal = λ (x : List (Mark P)). Good (kept (r ∷ rs) x) in
      if_cases Goal m.dropped (λ e. Good-dropped r rs m _ e rest)
        (λ _.
          if_cases Goal (is_small F n r)
            (λ _. Good-dropped r rs (record m { dropped = true }) _ refl rest)
            (λ s.
              Good-compared r rs (record m { dropped = after.0 }) _ s
                (λ e.
                  kept-drop_pass-All (Clear r) rs after.1
                    (inner-Clear r rs ms hard (omega arith) e))
                later))
