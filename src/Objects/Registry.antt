-- ===== src/Objects/Registry.antt =====
-- The registry against its abstract view: a function from names to objects.
use edge_frame.Prelude.{◌≡◌, refl, Bool, not, String, Option, none, some}
use edge_frame.Prelude.{
  string_eq, arith, if◌then◌else◌, ◌==◌, lookup, lookup-insert, Option-cases, inl, inr, if_cases,
}
use edge_frame.Objects.{Manager, is_some, add, replace, remove_from, remove}
use edge_frame.Objects.Laws.{IsMap, insert-IsMap, remove_from-none, remove_from-Removal}

module _ {V : Type 0} where
  abbrev pub view : Manager V → String → Option V
  view m name = lookup name m.entries

  -- What the operations do to a view.
  abbrev pub added : String → V → (String → Option V) → String → Option V
  added name object f j =
      if name == j then (if is_some (f name) then f name else some object) else f j

  abbrev pub replaced : String → V → (String → Option V) → String → Option V
  replaced name object f j =
      if name == j then (if is_some (f name) then some object else none) else f j

  abbrev pub removed : String → (String → Option V) → String → Option V
  removed name f j = if name == j then none else f j

  -- The registry stays a map, shows the view `f`, and the operation answers `b`.
  pub record Shows (f : String → Option V) (b : Bool) (r : Bool × Manager V) : Type 0 where
    pub is_map : IsMap r.1.entries
    pub shown : (j : String) → view r.1 j ≡ f j
    pub answer : r.0 ≡ b

  add-Shows :
      (name : String) (object : V) (m : Manager V)
      → IsMap m.entries
      → Shows (added name object (view m)) (not (is_some (view m name))) (add name object m)
  unfolding add
  add-Shows name object m h =
      if_cases {A = Bool × Manager V} (Shows (added name object (view m)) _) (is_some (view m name))
        (λ q. record {
          is_map = h;
          shown = λ j. grind (arith, string_eq.same_iff name j, q);
          answer = rw q;
        })
        λ q. record {
          is_map = insert-IsMap name object m.entries h;
          shown = λ j. grind (arith, lookup-insert name j object m.entries, q);
          answer = rw q;
        }

  replace-Shows :
      (p : Bool) (name : String) (object : V) (m : Manager V)
      → IsMap m.entries
      → Shows (replaced name object (view m)) (is_some (view m name)) (replace p name object m)
  unfolding replace
  replace-Shows p name object m h = elim (Option-cases (view m name)) [
    | inl q ↦
        rw (replace, q)
          (record {
            is_map = h;
            shown = λ j. grind (arith, string_eq.same_iff name j, q);
            answer = refl;
          })
    | inr (v, q) ↦
        rw (replace, q)
          (record {
            is_map = insert-IsMap name object m.entries h;
            shown = λ j. grind (arith, lookup-insert name j object m.entries, q);
            answer = refl;
          })
  ]

  remove-Shows :
      (p : Bool) (name : String) (m : Manager V)
      → IsMap m.entries
      → Shows (removed name (view m)) (is_some (view m name)) (remove p name m)
  unfolding remove
  remove-Shows p name m h = elim (Option-cases (remove_from p name m.entries)) [
    | inl q ↦
        let absent = remove_from-none p name m.entries q in
        rw (remove, q, absent)
          (record {
            is_map = h;
            shown = λ j. grind (arith, string_eq.same_iff name j, absent);
            answer = refl;
          })
    | inr (found, q) ↦
        let gone = remove_from-Removal p name m.entries h q in
        rw (remove, q, gone.was)
          (record { is_map = gone.still_map; shown = gone.others; answer = refl })
  ]

  -- `Add`, `Replace` and `Remove` do to the view of the registry what they promise, and answer
  -- whether they did anything: an addition keeps what is there, a replacement needs an entry, and a
  -- removal leaves no entry of the name; other names keep theirs, and no name gets two entries.
  pub registry-Shows :
      (p : Bool) (name : String) (object : V) (m : Manager V)
      → IsMap m.entries
      → Shows (added name object (view m)) (not (is_some (view m name))) (add name object m)
        × Shows (replaced name object (view m)) (is_some (view m name)) (replace p name object m)
        × Shows (removed name (view m)) (is_some (view m name)) (remove p name m)
  registry-Shows p name object m h =
      (add-Shows name object m h, replace-Shows p name object m h, remove-Shows p name m h)
