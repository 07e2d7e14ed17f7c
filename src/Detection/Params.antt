-- ===== src/Detection/Params.antt =====
-- `Detect::setJson` of modules/api/src/Detect.cpp: the parameters of each model and its prior boxes.
use edge_frame.Prelude.{
  ℕ, zero, suc, List, [], ◌∷◌, ◌++◌, Option, none, some, ◌>>=◌, get_elem?, map,
}
use edge_frame.Platform.{Platform}
use edge_frame.Detection.{Detect, Maths, Prior, f_clip}

-- `EModelID`, and what `DetectorCommonVmap` makes of a name that it does not know.
pub data ModelId : Type 0 where
  e_ped_v3 e_monitor_v1 e_capture_v2 e_huishoubao_v2 e_vehicle_v1 unknown : ModelId

-- The values of `min_boxes`, in ten-thousandths: the defaults, `e_ped_v3` and `e_vehicle_v1`.
unfoldable pub default_boxes : List (List (ℕ × ℕ))
default_boxes =
    ((113135, 226275)
      ∷ (142545, 285090)
      ∷ (179595, 359190)
      ∷ (160000, 160000)
      ∷ (201585, 201585)
      ∷ (253985, 253985)
      ∷ [])
    ∷ ((226275, 452550)
        ∷ (285090, 570175)
        ∷ (359190, 718375)
        ∷ (320000, 320000)
        ∷ (403175, 403175)
        ∷ (507970, 507970)
        ∷ [])
    ∷ ((452550, 905095)
        ∷ (570175, 1140350)
        ∷ (718375, 1436750)
        ∷ (640000, 640000)
        ∷ (806350, 806350)
        ∷ (1015935, 1015935)
        ∷ [])
    ∷ ((905095, 1810195)
        ∷ (1140350, 2280700)
        ∷ (1436750, 2873505)
        ∷ (1280000, 1280000)
        ∷ (1612700, 1612700)
        ∷ (2031875, 2031875)
        ∷ [])
    ∷ []

unfoldable pub ped_boxes : List (List (ℕ × ℕ))
ped_boxes =
    ((105593, 214542)
      ∷ (133042, 270308)
      ∷ (167622, 340565)
      ∷ (149333, 151704)
      ∷ (188146, 191132)
      ∷ (237053, 240815)
      ∷ [])
    ∷ ((211190, 429084)
        ∷ (266084, 540610)
        ∷ (335244, 681126)
        ∷ (298667, 303407)
        ∷ (376297, 382270)
        ∷ (474105, 481631)
        ∷ [])
    ∷ ((422380, 858164)
        ∷ (532163, 1081221)
        ∷ (670483, 1362252)
        ∷ (597333, 606815)
        ∷ (752593, 764539)
        ∷ (948206, 963257)
        ∷ [])
    ∷ ((844755, 1716333)
        ∷ (1064327, 2162441)
        ∷ (1340967, 2724508)
        ∷ (1194667, 1213630)
        ∷ (1505187, 1529079)
        ∷ (1896417, 1926519)
        ∷ [])
    ∷ []

unfoldable pub vehicle_boxes : List (List (ℕ × ℕ))
vehicle_boxes =
    ((160000, 160000) ∷ [])
    ∷ ((452550, 226270)
        ∷ (570180, 285090)
        ∷ (570180, 285090)
        ∷ (718380, 359190)
        ∷ (320000, 320000)
        ∷ (403170, 403170)
        ∷ (226270, 452550)
        ∷ (285090, 570180)
        ∷ (359190, 718380)
        ∷ [])
    ∷ ((905100, 452550)
        ∷ (1140350, 570180)
        ∷ (1436750, 718380)
        ∷ (640000, 640000)
        ∷ (806350, 806350)
        ∷ (1015940, 1015940)
        ∷ (452550, 905100)
        ∷ (570180, 1140350)
        ∷ (718380, 1436750)
        ∷ [])
    ∷ ((1810190, 905100)
        ∷ (2280700, 1140350)
        ∷ (2873500, 1436750)
        ∷ (1280000, 1280000)
        ∷ (1612700, 1612700)
        ∷ (2031870, 2031870)
        ∷ (905100, 1810190)
        ∷ (1140350, 2280700)
        ∷ (1436750, 2873500)
        ∷ [])
    ∷ []

module _ {P : Platform} (F : Maths P) where
  open P use {f_div, f_of_int, d_add, d_div, to_double, of_double}

  abbrev sizes : List (List (ℕ × ℕ)) → List (List (P.Float × P.Float))
  sizes = map (map (λ s. (F.f_literal s.0, F.f_literal s.1)))

  -- The assignments before the `switch`, on the members as they were.
  unfoldable pub set_defaults : P.Float → P.Float → Detect P → Detect P
  unfolding default_boxes
  set_defaults score_threshold iou_threshold d = record d {
    score_threshold = score_threshold;
    iou_threshold = iou_threshold;
    center_variance = F.f_literal 1000;
    size_variance = F.f_literal 2000;
    num_featuremap = 4;
    input_width = 448;
    input_height = 256;
    num_anchors = 14280;
    featuremap_size = (56 ∷ 28 ∷ 14 ∷ 7 ∷ []) ∷ (32 ∷ 16 ∷ 8 ∷ 4 ∷ []) ∷ [];
    min_boxes = sizes default_boxes;
  }

  -- The `switch`; `none` is its `return`.
  unfoldable pub select_model : ModelId → Detect P → Option (Detect P)
  unfolding ped_boxes vehicle_boxes
  select_model e_ped_v3 d = some (record d { num_of_class = 4; min_boxes = sizes ped_boxes })
  select_model e_monitor_v1 d = some (record d {
    input_width = 640;
    input_height = 360;
    num_anchors = 28920;
    featuremap_size = (80 ∷ 40 ∷ 20 ∷ 10 ∷ []) ∷ (45 ∷ 23 ∷ 12 ∷ 6 ∷ []) ∷ [];
    num_of_class = 2;
  })
  select_model e_capture_v2 d = some (record d { num_of_class = 4 })
  select_model e_huishoubao_v2 d = some (record d { num_of_class = 2 })
  select_model e_vehicle_v1 d =
      some (record d { num_anchors = 7084; num_of_class = 2; min_boxes = sizes vehicle_boxes })
  select_model unknown d = none

  -- One prior box of the cell `(i, j)`.
  unfoldable pub prior : Detect P → P.Float → P.Float → ℕ → ℕ → P.Float × P.Float → Prior P
  prior d scale_w scale_h j i size =
      let at_half = λ (n : ℕ). d_add (to_double (f_of_int n)) (F.d_literal 5000) in
      record {
        x_center = f_clip F (of_double (d_div (at_half i) (to_double scale_w)));
        y_center = f_clip F (of_double (d_div (at_half j) (to_double scale_h)));
        w = f_clip F (f_div size.0 (f_of_int d.input_width));
        h = f_clip F (f_div size.1 (f_of_int d.input_height));
      }

  -- The loops over `k`, `i` and `j`; `cols` and `rows` count the rounds that are left.
  unfoldable pub row_priors :
      Detect P → P.Float → P.Float → List (P.Float × P.Float) → ℕ → ℕ → ℕ → List (Prior P)
  row_priors d scale_w scale_h boxes j i zero = []
  row_priors d scale_w scale_h boxes j i (suc cols) =
      map (prior d scale_w scale_h j i) boxes ++ row_priors d scale_w scale_h boxes j (suc i) cols

  unfoldable pub map_priors :
      Detect P → P.Float → P.Float → List (P.Float × P.Float) → ℕ → ℕ → ℕ → List (Prior P)
  map_priors d scale_w scale_h boxes cols j zero = []
  map_priors d scale_w scale_h boxes cols j (suc rows) =
      row_priors d scale_w scale_h boxes j 0 cols
      ++ map_priors d scale_w scale_h boxes cols (suc j) rows

  -- `input_width_ / (input_width_ / featuremap_size[0][index])`, which `shrinkage_size` holds in part.
  unfoldable pub scale : ℕ → ℕ → P.Float
  scale input cells = f_div (f_of_int input) (f_div (f_of_int input) (f_of_int cells))

  -- The loop over `index`; `none` is an access out of range.
  unfoldable pub all_priors : Detect P → ℕ → ℕ → Option (List (Prior P))
  all_priors d index zero = some []
  all_priors d index (suc left) = do
    widths ← get_elem? d.featuremap_size 0
    heights ← get_elem? d.featuremap_size 1
    cols ← get_elem? widths index
    rows ← get_elem? heights index
    boxes ← get_elem? d.min_boxes index
    let here = map_priors d (scale d.input_width cols) (scale d.input_height rows) boxes cols 0 rows
    rest ← all_priors d (suc index) left
    some (here ++ rest)

  -- The part of `setJson` after the `switch`: `priors` is added to, not replaced.
  unfoldable pub generate_priors : Detect P → Option (Detect P)
  generate_priors d = do
    made ← all_priors d 0 d.num_featuremap
    some (record d { priors = d.priors ++ made })

  -- `setJson` with the values it reads from its JSON; `none` is an access out of range.
  unfoldable pub set_json : ModelId → P.Float → P.Float → Detect P → Option (Detect P)
  set_json model score_threshold iou_threshold d =
      let fresh = set_defaults score_threshold iou_threshold d in
      elim (select_model model fresh) [ none ↦ some fresh | some chosen ↦ generate_priors chosen ]
