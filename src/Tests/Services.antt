-- ===== src/Tests/Services.antt =====
-- The registry, the channel, the metrics and the flow upload at concrete values.
use edge_frame.Prelude.{ℕ, ◌≡◌, refl, true, false, not, [], ◌∷◌, none}
use edge_frame.Prelude.{string_eq, lookup}
use edge_frame.Objects.{Manager, is_some, add, replace, remove}
use edge_frame.Objects.Registry.{view, added, replaced, removed, Shows, registry-Shows}
use edge_frame.Objects.{lock, safe_remove}
use edge_frame.Objects.Laws.{IsMap, SafeOps, safe_ops}

abbrev registry : Manager ℕ
registry = record {
  entries = ("detect", 1) ∷ ("dispatch", 2) ∷ [];
  freed = [];
  locked = false;
  seq_ir = [];
}

registry-IsMap : IsMap registry.entries
unfolding lookup
registry-IsMap = (refl, (refl, tt))

registry-Shows_example :
    Shows
      (added "rtsp" 3 (view registry))
      (not (is_some (view registry "rtsp")))
      (add "rtsp" 3 registry)
    × Shows
        (replaced "rtsp" 3 (view registry))
        (is_some (view registry "rtsp"))
        (replace true "rtsp" 3 registry)
    × Shows
        (removed "rtsp" (view registry))
        (is_some (view registry "rtsp"))
        (remove true "rtsp" registry)
registry-Shows_example = registry-Shows true "rtsp" 3 registry registry-IsMap

-- While another thread holds the mutex, the locked operations wait.
abbrev held : Manager ℕ
held = record registry { locked = true }

safe_remove-held : safe_remove true "detect" held ≡ none
unfolding safe_remove lock
safe_remove-held = refl

registry-SafeOps : SafeOps true "detect" 3 registry
registry-SafeOps = safe_ops true "detect" 3 registry
