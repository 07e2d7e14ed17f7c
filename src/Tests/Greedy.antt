-- ===== src/Tests/Greedy.antt =====
-- The greedy search on a table of two by two.
use edge_frame.Prelude.{ℕ, refl, arith, List, [], ◌∷◌}
use edge_frame.Demo.{demo}
use edge_frame.Track.Greedy.{Best, find_best_match}
use edge_frame.Track.Greedy.Found.{Rounding, Found, find_best_match-Found}

abbrev costs : List (List ℕ)
costs = (80 ∷ 30 ∷ []) ∷ (40 ∷ 90 ∷ []) ∷ []

abbrev start : Best demo
start = record { i_index = 0; j_index = 0; value = 55 }

rounding : Rounding demo
rounding = record {
  rounds_below = λ c f x h k. ground arith;
  rounds_above = λ c f h. h;
  below_rounded = λ c later f h k. ground arith;
  irreflexive = λ x. ground arith;
}

find_best_match-Found_example : Found demo rounding 0 costs start (find_best_match demo costs start)
find_best_match-Found_example = find_best_match-Found demo rounding costs start (refl, (refl, tt))
