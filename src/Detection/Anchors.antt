-- ===== src/Detection/Anchors.antt =====
-- How many prior boxes `Detect::setJson` makes.
use edge_frame.Prelude.{
  ℕ, zero, suc, ◌+◌, ◌*◌, ◌≡◌, ◌≢◌, refl, List, [], ◌∷◌, some, arith, map, length, length-append,
}
use edge_frame.Platform.{Platform}
use edge_frame.Detection.{Detect, Maths}
use edge_frame.Detection.Params.{
  ModelId, e_ped_v3, e_monitor_v1, e_capture_v2, e_huishoubao_v2, e_vehicle_v1, unknown, row_priors,
  map_priors, all_priors, generate_priors, set_json, set_defaults, select_model, prior,
}

length-map {ℓ κ} :
    {A : Type ℓ} {B : Type κ} (f : A → B) (xs : List A) → length (map f xs) ≡ length xs
length-map f [] = refl
length-map f (x ∷ xs) = omega (arith, length-map f xs)

module _ {P : Platform} (F : Maths P) (d : Detect P) (sw sh : P.Float) where
  length-row_priors :
      (boxes : List (P.Float × P.Float)) (j i cols : ℕ)
      → length (row_priors F d sw sh boxes j i cols) ≡ cols * length boxes
  unfolding row_priors
  length-row_priors boxes j i zero = omega arith
  length-row_priors boxes j i (suc cols) =
      let rest = length-row_priors boxes j (suc i) cols in
      let here = length-map (prior F d sw sh j i) boxes in
      grind (
        arith,
        rest,
        here,
        length-append (map (prior F d sw sh j i) boxes) (row_priors F d sw sh boxes j (suc i) cols),
      )

  length-map_priors :
      (boxes : List (P.Float × P.Float)) (cols j rows : ℕ)
      → length (map_priors F d sw sh boxes cols j rows) ≡ rows * (cols * length boxes)
  unfolding map_priors
  length-map_priors boxes cols j zero = omega arith
  length-map_priors boxes cols j (suc rows) =
      let rest = length-map_priors boxes cols (suc j) rows in
      let here = length-row_priors boxes j 0 cols in
      grind (
        arith,
        rest,
        here,
        length-append (row_priors F d sw sh boxes j 0 cols)
            (map_priors F d sw sh boxes cols (suc j) rows),
      )

ruleset counts = (length-append, length-map_priors)

module _ {P : Platform} (F : Maths P) (score iou : P.Float) where
  -- For every model that the code knows, `setJson` accesses nothing out of range, and adds as many
  -- prior boxes as it sets `num_anchors` to.
  pub set_json-anchors :
      (d : Detect P) (model : ModelId)
      → model ≢ unknown
      → (r : Detect P) × (set_json F model score iou d ≡ some r)
        × (length r.priors ≡ length d.priors + r.num_anchors)
  unfolding set_json set_defaults select_model generate_priors all_priors
  set_json-anchors d e_ped_v3 h = (_, refl, simp counts (omega arith))
  set_json-anchors d e_monitor_v1 h = (_, refl, simp counts (omega arith))
  set_json-anchors d e_capture_v2 h = (_, refl, simp counts (omega arith))
  set_json-anchors d e_huishoubao_v2 h = (_, refl, simp counts (omega arith))
  set_json-anchors d e_vehicle_v1 h = (_, refl, simp counts (omega arith))
  set_json-anchors d unknown h = absurd (h refl)
