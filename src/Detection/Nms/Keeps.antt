-- ===== src/Detection/Nms/Keeps.antt =====
-- What `Detect::nms` keeps.
use edge_frame.Prelude.{
  ℕ, zero, suc, ◌+◌, ◌-◌, ◌≡◌, ◌≢◌, ◌≤◌, ◌<◌, refl, sym, subst, ◌∙◌, Bool, true, false, List, [],
  ◌∷◌, ◌++◌, some, arith, get_elem?_total, map, count_if, All, All-append, All-implies, length,
}
use edge_frame.Platform.{Platform}
use edge_frame.Track.Detect.{Box}
use edge_frame.Detection.{Maths}
use edge_frame.Detection.Groups.{
  groups, none_merged, members, Ordered, Clear, groups-Clear, count-members, groups-hits,
  groups-Ordered, alive-none_merged,
}
use edge_frame.Detection.Nms.{
  NotBelow, hard_nms, Sorting, overlaps, hard_box, merge, nms_class, nms_from,
}

module _ {P : Platform} (F : Maths P) (S : Sorting P) (iou : P.Float) where
  -- Hard suppression of one class divides the proposals into groups, and gives the first box of
  -- each: every proposal is in one group, as often as it was proposed; each other box of a group
  -- overlaps the first by more than the threshold and has no higher score; and no first box
  -- overlaps that of a later group.
  pub nms_class-Suppresses :
      (c : ℕ) (proposals : List (Box P))
      → (gs : List (Box P × List (Box P))) × (nms_class F S iou hard_nms c proposals
          ≡ map (hard_box F c) gs)
        × ((q : Box P → Bool) → count_if q (members gs) ≡ count_if q proposals)
        × All (λ (g : Box P × List (Box P)). All (λ x. overlaps F iou g.0 x ≡ true) g.1) gs
        × All (λ (g : Box P × List (Box P)). All (NotBelow P g.0) g.1) gs
        × Clear (overlaps F iou) gs
  unfolding nms_class merge
  nms_class-Suppresses c proposals =
      let hits = overlaps F iou in
      let input = S.sort proposals in
      let flags = none_merged input in
      let gs = groups hits input flags in
      (
        gs,
        refl,
        λ q. count-members hits q input ∙ S.count-sort q proposals,
        groups-hits hits input flags,
        groups-Ordered hits (NotBelow P) input flags (
            subst (Ordered (NotBelow P)) (sym (alive-none_merged input))
              (S.sort-Ordered proposals)),
        groups-Clear hits input flags,
      )

  -- No box overlaps a later one of its class.
  abbrev pub Apart : List (Box P) → Type 0
  Apart [] = Unit
  Apart (b ∷ bs) = All (λ x. x.class_idx ≡ b.class_idx → overlaps F iou b x ≡ false) bs × Apart bs

  abbrev InClass : ℕ → Box P → Type 0
  InClass c b = b.class_idx ≡ c

  Apart-append :
      (c : ℕ) (bs xs : List (Box P))
      → All (InClass c) bs
      → All (λ x. x.class_idx ≢ c) xs
      → Apart bs
      → Apart xs
      → Apart (bs ++ xs)
  Apart-append c [] xs hb hx ab ax = ax
  Apart-append c (b ∷ bs) xs hb hx ab ax =
      let others =
        All-implies (λ x. x.class_idx ≢ c)
          (λ x. x.class_idx ≡ b.class_idx → overlaps F iou b x ≡ false)
          (λ x ne e. absurd (ne (e ∙ hb.0))) xs hx in
      (All-append _ bs xs ab.0 others, Apart-append c bs xs hb.1 hx ab.1 ax)

  hard_boxes-InClass :
      (c : ℕ) (gs : List (Box P × List (Box P))) → All (InClass c) (map (hard_box F c) gs)
  unfolding hard_box
  hard_boxes-InClass c [] = tt
  hard_boxes-InClass c (g ∷ gs) = (refl, hard_boxes-InClass c gs)

  hard_boxes-Apart :
      (c : ℕ) (gs : List (Box P × List (Box P)))
      → Clear (overlaps F iou) gs
      → Apart (map (hard_box F c) gs)
  unfolding hard_box overlaps
  hard_boxes-Apart c [] h = tt
  hard_boxes-Apart c (g ∷ gs) h = (later gs h.0, hard_boxes-Apart c gs h.1)
    where
      later :
          (ls : List (Box P × List (Box P)))
          → All (λ (l : Box P × List (Box P)). overlaps F iou g.0 l.0 ≡ false) ls
          → All
              (λ x. x.class_idx ≡ c → overlaps F iou (hard_box F c g) x ≡ false)
              (map (hard_box F c) ls)
      later [] k = tt
      later (l ∷ ls) k = (λ _. k.0, later ls k.1)

  -- The classes from `c` on.
  abbrev pub Within : ℕ → ℕ → Box P → Type 0
  Within c left b = (c ≤ b.class_idx) × (b.class_idx < c + left)

  pub nms_from-Apart :
      (proposal_boxes : List (List (Box P))) (c left : ℕ)
      → 0 < c
      → c + left ≤ length proposal_boxes + 1
      → (made : List (Box P)) × (nms_from F S iou hard_nms proposal_boxes c left ≡ some made)
        × Apart made
        × All (Within c left) made
  unfolding nms_from
  nms_from-Apart proposal_boxes c zero hc h = ([], refl, tt, tt)
  nms_from-Apart proposal_boxes c (suc left) hc h =
      let (proposals, e) = get_elem?_total proposal_boxes (c - 1) (omega arith) in
      let (made, em, apart, within) =
        nms_from-Apart proposal_boxes (suc c) left (omega arith) (omega arith) in
      let (gs, eg, _, _, _, clear) = nms_class-Suppresses c proposals in
      let here = hard_boxes-InClass c gs in
      (
        map (hard_box F c) gs ++ made,
        rw (e, em, eg) refl,
        Apart-append c _ made here
            (All-implies (Within (suc c) left) (λ x. x.class_idx ≢ c) (λ x w k. omega arith) made
              within)
            (hard_boxes-Apart c gs clear) apart,
        All-append (Within c (suc left)) _ made
            (All-implies (InClass c) (Within c (suc left)) (λ x k. omega arith) _ here)
            (All-implies (Within (suc c) left) (Within c (suc left)) (λ x w. omega arith) made
              within),
      )
