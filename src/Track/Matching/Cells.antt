-- ===== src/Track/Matching/Cells.antt =====
-- The table of `FeatureMatch` fills without a failure, under the contract of the ReID network.
use edge_frame.Prelude.{ℕ, ◌<◌, ◌≡◌, refl, sym, ◌∙◌, false, List, [], ◌∷◌, ◌⊎◌, inl, inr}
use edge_frame.Prelude.{Option, some, if◌then◌else◌, nat_beq, length, set, All}
use edge_frame.Prelude.{arith, get_elem?_total, All-get_elem?, All-set, All-implies}
use edge_frame.Prelude.{length-set}
use edge_frame.Prelude.{
  if_cases, subst, true, zero, suc, map, get_elem?, ap, some_eq, Bool, Bool-cases,
}
use edge_frame.Platform.{Platform, Env}
use edge_frame.Track.Person.{body, FeatureMessage, PersonObject, Tracker}
use edge_frame.Track.Geometry.{calc_cos_similarity}
use edge_frame.Track.Match.{
  is_empty, in_image, crop, extract_feature, ensure_feature, min_cost, Scan, feature_cell,
  feature_row, feature_table,
}

module _ {A B : Type 0} (f : A → B) where
  pub get_elem?-map :
      (xs : List A) (i : ℕ) {x : A} → get_elem? xs i ≡ some x → get_elem? (map f xs) i ≡ some (f x)
  get_elem?-map [] i h = absurd (cc)
  get_elem?-map (y ∷ xs) zero h = ap (λ o. some (f o)) (some_eq h)
  get_elem?-map (y ∷ xs) (suc i) h = get_elem?-map xs i h

  -- Exchanging a member for one with the same value changes no values.
  map-set :
      (xs : List A) (i : ℕ) (y : A) {x : A}
      → get_elem? xs i ≡ some x
      → f y ≡ f x
      → map f (set xs i y) ≡ map f xs
  map-set [] i y h e = refl
  map-set (z ∷ xs) zero y h e = ap (λ v. v ∷ map f xs) (e ∙ ap f (sym (some_eq h)))
  map-set (z ∷ xs) (suc i) y h e = ap (λ l. f z ∷ l) (map-set xs i y h e)

module _ (P : Platform) where
  -- The rectangle lies in the image and has pixels.
  abbrev pub HasPixels : P.Mat → P.Rect → Type 0
  HasPixels m r = (in_image P m r ≡ true) × (0 < (P.to_int_rect r).2) × (0 < (P.to_int_rect r).3)

  -- The body of a detection lies in the image.
  abbrev pub IsVisible : P.Mat → PersonObject P → Type 0
  IsVisible frame d = HasPixels frame d.last_updated_body_bbox.bbox_rect

module _ (P : Platform) (n : ℕ) where
  -- The ReID network answers `n` numbers for a part of an image that has pixels.
  pub record ReidLaw : Type 0 where
    pub reid_length : (m : P.Mat) (r : P.Rect) → HasPixels P m r → length (P.reid m r) ≡ n

  -- The features kept of an object have `n` numbers.
  abbrev pub HasDim : PersonObject P → Type 0
  HasDim p = All (λ m. length m.tengine_feature ≡ n) p.feature_messages

  -- And the feature of a detection is missing, or has `n` numbers, and its body lies in the image.
  abbrev pub IsReady : P.Mat → PersonObject P → Type 0
  IsReady frame d =
      HasDim d
      × ((length d.last_updated_body_feature_message.tengine_feature ≡ 0)
          ⊎ (length d.last_updated_body_feature_message.tengine_feature ≡ n))
      × IsVisible P frame d

  cos_total :
      (a b : List P.Float)
      → length a ≡ length b
      → (s : P.Double) × (calc_cos_similarity P a b ≡ some s)
  unfolding calc_cos_similarity
  cos_total a b h =
      if_cases {A = Option P.Double} (λ o. (s : P.Double) × (o ≡ some s))
        (nat_beq (length a) (length b)) (λ _. (_, refl)) λ q. absurd (ground arith)

  min_cost_total :
      (ms : List (FeatureMessage P)) (f : List P.Float) (least : P.Double)
      → All (λ m. length m.tengine_feature ≡ n) ms
      → length f ≡ n
      → (c : P.Double) × (min_cost P ms f least ≡ some c)
  unfolding min_cost
  min_cost_total [] f least h e = (least, refl)
  min_cost_total (m ∷ ms) f least h e =
      let (s, es) = cos_total m.tengine_feature f (h.0 ∙ sym e) in
      let cost = P.d_sub P.d_one s in
      let (c, ec) = min_cost_total ms f (if P.d_lt cost least then cost else least) h.1 e in
      (c, rw es ec)

  module _ (law : ReidLaw) (t : Tracker P) where
    abbrev frame : P.Mat
    frame = t.cur_process_frame_mat

    -- The feature that a detection has, or gets.
    abbrev pub feature_of : PersonObject P → List P.Float
    feature_of d =
        if is_empty d.last_updated_body_feature_message.tengine_feature
        then P.reid frame d.last_updated_body_bbox.bbox_rect
        else d.last_updated_body_feature_message.tengine_feature

    ensure_feature-feature :
        (d : PersonObject P) (env : Env)
        → (feature_of (ensure_feature P t d env).0 ≡ feature_of d)
          × ((ensure_feature P t d env).0.last_updated_body_feature_message.tengine_feature
              ≡ feature_of d)
    unfolding ensure_feature extract_feature
    ensure_feature-feature d env =
        elim (Bool-cases (is_empty d.last_updated_body_feature_message.tengine_feature)) [
          | inl q ↦ rw q (if_same _ _, refl)
          | inr q ↦ rw (q, q) (refl, refl)
        ]
      where
        if_same : (b : Bool) (f : List P.Float) → (if b then f else f) ≡ f
        if_same b f = if_cases (λ g. g ≡ f) b (λ _. refl) (λ _. refl)

    pub crop-IsVisible :
        (d : PersonObject P)
        → IsVisible P frame d
        → crop P t d ≡ some d.last_updated_body_bbox.bbox_rect
    unfolding crop
    crop-IsVisible d h = rw h.0 refl

    ensure_feature-rect :
        (d : PersonObject P) (env : Env)
        → (ensure_feature P t d env).0.last_updated_body_bbox ≡ d.last_updated_body_bbox
    unfolding ensure_feature extract_feature
    ensure_feature-rect d env =
        if_cases {A = PersonObject P × Env}
          (λ r. r.0.last_updated_body_bbox ≡ d.last_updated_body_bbox)
          (is_empty d.last_updated_body_feature_message.tengine_feature) (λ _. refl) (λ _. refl)

    pub ensure_feature-IsVisible :
        (d : PersonObject P) (env : Env)
        → IsVisible P frame d
        → IsVisible P frame (ensure_feature P t d env).0
    ensure_feature-IsVisible d env h =
        subst (λ b. HasPixels P frame b.bbox_rect) (sym (ensure_feature-rect d env)) h

    -- A detection that has been given its feature.
    pub ensure_feature-IsReady :
        (d : PersonObject P) (env : Env)
        → IsReady frame d
        → HasDim (ensure_feature P t d env).0
          × (length (ensure_feature P t d env).0.last_updated_body_feature_message.tengine_feature
              ≡ n)
    unfolding ensure_feature extract_feature
    ensure_feature-IsReady d env h =
        if_cases {A = PersonObject P × Env}
          (λ r. HasDim r.0 × (length r.0.last_updated_body_feature_message.tengine_feature ≡ n))
          (is_empty d.last_updated_body_feature_message.tengine_feature)
          (λ _. (h.0, law.reid_length _ _ h.2)) λ q. (h.0, full _ q h.1)
      where
        full :
            (f : List P.Float) → is_empty f ≡ false → (length f ≡ 0) ⊎ (length f ≡ n) → length f ≡ n
        full f q (inr e) = e
        full [] q (inl e) = absurd (cc)
        full (x ∷ f) q (inl e) = absurd (omega arith)

    module _ (objects : List (PersonObject P)) where
      -- The cost of a cell: the least against the features kept of its object.
      pub record IsCost (features : List (List P.Float)) (ti dj : ℕ) (cost : P.Double)
          : Type 0 where
        pub object : PersonObject P
        pub feature : List P.Float
        pub of_object : get_elem? objects ti ≡ some object
        pub of_det : get_elem? features dj ≡ some feature
        pub is_least : min_cost P object.feature_messages feature P.d_one ≡ some cost

      abbrev pub CostRow : List (List P.Float) → ℕ → List ℕ → List P.Double → Type 0
      CostRow features ti (dj ∷ djs) (cost ∷ row) =
          IsCost features ti dj cost × CostRow features ti djs row
      CostRow features ti _ _ = Unit

      abbrev pub CostTable : List (List P.Float) → List ℕ → List ℕ → List (List P.Double) → Type 0
      CostTable features (ti ∷ tis) djs (row ∷ table) =
          CostRow features ti djs row × CostTable features tis djs table
      CostTable features _ djs _ = Unit

      pub CostRow-get :
          (features : List (List P.Float)) (ti : ℕ) (djs : List ℕ) (row : List P.Double) (c : ℕ)
          {dj : ℕ} {cost : P.Double}
          → CostRow features ti djs row
          → get_elem? djs c ≡ some dj
          → get_elem? row c ≡ some cost
          → IsCost features ti dj cost
      CostRow-get features ti [] row c h e k = absurd (cc)
      CostRow-get features ti (x ∷ djs) [] c h e k = absurd (cc)
      CostRow-get features ti (x ∷ djs) (y ∷ row) zero {dj} {cost} h e k =
          subst (λ j. IsCost features ti j cost) (some_eq e)
            (subst (IsCost features ti x) (some_eq k) h.0)
      CostRow-get features ti (x ∷ djs) (y ∷ row) (suc c) h e k =
          CostRow-get features ti djs row c h.1 e k

      pub CostTable-get :
          (features : List (List P.Float)) (tis djs : List ℕ) (table : List (List P.Double)) (i : ℕ)
          {ti : ℕ} {row : List P.Double}
          → CostTable features tis djs table
          → get_elem? tis i ≡ some ti
          → get_elem? table i ≡ some row
          → CostRow features ti djs row
      CostTable-get features [] djs table i h e k = absurd (cc)
      CostTable-get features (x ∷ tis) djs [] i h e k = absurd (cc)
      CostTable-get features (x ∷ tis) djs (y ∷ table) zero {ti} {row} h e k =
          subst (λ j. CostRow features j djs row) (some_eq e)
            (subst (CostRow features x djs) (some_eq k) h.0)
      CostTable-get features (x ∷ tis) djs (y ∷ table) (suc i) h e k =
          CostTable-get features tis djs table i h.1 e k

      -- A part of the table has been filled, and the detections are ready and as many as before.
      pub record Filled {A : Type 0} (Q : A → Type 0) (dets : List (PersonObject P))
          (run : Option (Scan P A)) : Type 0 where
        pub result : Scan P A
        pub ran : run ≡ some result
        pub shape : Q result.out
        pub same_dets : length result.dets ≡ length dets
        pub ready : All (IsReady frame) result.dets
        pub same_features : map feature_of result.dets ≡ map feature_of dets

      cell-Filled :
          (ti dj : ℕ) (dets : List (PersonObject P)) (env : Env)
          → ti < length objects
          → dj < length dets
          → All HasDim objects
          → All (IsReady frame) dets
          → Filled
              (IsCost (map feature_of dets) ti dj)
              dets
              (feature_cell P t objects body ti dj dets env)
      unfolding feature_cell
      cell-Filled ti dj dets env hi hj ho hd =
          let (d, ed) = get_elem?_total dets dj hj in
          let (p, ep) = get_elem?_total objects ti hi in
          let seen = All-get_elem? (IsReady frame) dets dj hd ed in
          let made = ensure_feature-IsReady d env seen in
          let same = ensure_feature-feature d env in
          let (c, ec) =
            min_cost_total p.feature_messages _ P.d_one (All-get_elem? HasDim objects ti ho ep)
              made.1 in
          record {
            result = record {
              out = c;
              dets = set dets dj (ensure_feature P t d env).0;
              env = (ensure_feature P t d env).1;
            };
            ran = rw (ed, crop-IsVisible d seen.2, ep, ec);
            shape = record {
              object = p;
              feature = feature_of d;
              of_object = ep;
              of_det = get_elem?-map feature_of dets dj ed;
              is_least = ap (λ f. min_cost P p.feature_messages f P.d_one) (sym same.1) ∙ ec;
            };
            same_dets = length-set dets dj _;
            same_features = map-set feature_of dets dj _ ed same.0;
            ready =
                All-set (IsReady frame) dets dj _ hd
                  (made.0, inr made.1, ensure_feature-IsVisible d env seen.2);
          }

      row-Filled :
          (ti : ℕ) (djs : List ℕ) (dets : List (PersonObject P)) (env : Env)
          → ti < length objects
          → All (λ dj. dj < length dets) djs
          → All HasDim objects
          → All (IsReady frame) dets
          → Filled
              (λ row. (length row ≡ length djs) × CostRow (map feature_of dets) ti djs row)
              dets
              (feature_row P t objects body ti djs dets env)
      unfolding feature_row
      row-Filled ti [] dets env hi hj ho hd = record {
        result = record { out = []; dets = dets; env = env };
        ran = refl;
        shape = (refl, tt);
        same_dets = refl;
        same_features = refl;
        ready = hd;
      }
      row-Filled ti (dj ∷ djs) dets env hi hj ho hd =
          let cell = cell-Filled ti dj dets env hi hj.0 ho hd in
          let rest =
            row-Filled ti djs cell.result.dets cell.result.env hi
              (All-implies _ _ (λ j k. rw cell.same_dets k) djs hj.1) ho cell.ready in
          record {
            result = record {
              out = cell.result.out ∷ rest.result.out;
              dets = rest.result.dets;
              env = rest.result.env;
            };
            ran = rw (cell.ran, rest.ran);
            shape = (
              omega (arith, rest.shape.0),
              (
                cell.shape,
                subst (λ f. CostRow f ti djs rest.result.out) cell.same_features rest.shape.1,
              ),
            );
            same_dets = rest.same_dets ∙ cell.same_dets;
            same_features = rest.same_features ∙ cell.same_features;
            ready = rest.ready;
          }

      pub table-Filled :
          (tis djs : List ℕ) (dets : List (PersonObject P)) (env : Env)
          → All (λ ti. ti < length objects) tis
          → All (λ dj. dj < length dets) djs
          → All HasDim objects
          → All (IsReady frame) dets
          → Filled
              (λ table.
                (length table ≡ length tis)
                × All (λ row. length row ≡ length djs) table
                × CostTable (map feature_of dets) tis djs table)
              dets
              (feature_table P t objects body tis djs dets env)
      unfolding feature_table
      table-Filled [] djs dets env hi hj ho hd = record {
        result = record { out = []; dets = dets; env = env };
        ran = refl;
        shape = (refl, tt, tt);
        same_dets = refl;
        same_features = refl;
        ready = hd;
      }
      table-Filled (ti ∷ tis) djs dets env hi hj ho hd =
          let row = row-Filled ti djs dets env hi.0 hj ho hd in
          let rest =
            table-Filled tis djs row.result.dets row.result.env hi.1
              (All-implies _ _ (λ j k. rw row.same_dets k) djs hj) ho row.ready in
          record {
            result = record {
              out = row.result.out ∷ rest.result.out;
              dets = rest.result.dets;
              env = rest.result.env;
            };
            ran = rw (row.ran, rest.ran);
            shape = (
              omega (arith, rest.shape.0),
              (row.shape.0, rest.shape.1),
              (
                row.shape.1,
                subst (λ f. CostTable f tis djs rest.result.out) row.same_features rest.shape.2,
              ),
            );
            same_dets = rest.same_dets ∙ row.same_dets;
            same_features = rest.same_features ∙ row.same_features;
            ready = rest.ready;
          }
