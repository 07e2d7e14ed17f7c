-- ===== src/Objects/Laws.antt =====
-- The registry as a map of names to objects, and its locked operations against the plain ones.
use edge_frame.Prelude.{
  ◌≡◌, refl, sym, Bool, true, false, String, List, [], ◌∷◌, Option, none, some,
}
use edge_frame.Prelude.{
  string_eq, arith, if◌then◌else◌, ◌==◌, lookup, insert, lookup-insert, Option-cases, Bool-cases,
  none-ne-some, subst, of_some, >>=-eq-some, inl, inr,
}
use edge_frame.Objects.{
  Manager, find, get, add, lock, unlock, safe_find, safe_get, safe_add, free_object, remove_from,
  remove, safe_remove,
}

module _ {V : Type 0} where
  -- Each name has at most one entry.
  abbrev pub IsMap : List (String × V) → Type 0
  IsMap [] = Unit
  IsMap ((k, v) ∷ m) = (lookup k m ≡ none) × IsMap m

  pub insert-IsMap : (k : String) (v : V) (m : List (String × V)) → IsMap m → IsMap (insert k v m)
  unfolding insert lookup
  insert-IsMap k v [] h = (refl, tt)
  insert-IsMap k v ((j, w) ∷ m) h = ground (
    arith,
    string_eq.same_iff j k,
    insert-IsMap k v m h.1,
    lookup-insert k j v m,
    string_eq.same_iff k j,
  )

  unlock-eq : (m : Manager V) → m.locked ≡ false → unlock m ≡ m
  unfolding unlock
  unlock-eq m e = λ i. record m { locked = sym e i }

module _ {V : Type 0} (p : Bool) where
  -- What the removal of a name leaves.
  pub record Removal (name : String) (m : List (String × V)) (found : V × List (String × V))
      : Type 0 where
    pub was : lookup name m ≡ some found.0
    pub still_map : IsMap found.1
    pub others : (j : String) → lookup j found.1 ≡ (if name == j then none else lookup j m)

  pub remove_from-none :
      (name : String) (m : List (String × V)) → remove_from p name m ≡ none → lookup name m ≡ none
  unfolding remove_from lookup
  remove_from-none name [] h = refl
  remove_from-none name ((k, v) ∷ m) h = elim (Bool-cases (k == name)) [
    | inl q ↦ absurd (none-ne-some (sym (rw q at h)))
    | inr q ↦ elim (Option-cases (remove_from p name m)) [
      | inl gone ↦ rw q (remove_from-none name m gone)
      | inr (f, ef) ↦ absurd (none-ne-some (sym (rw (q, ef) at h)))
    ]
  ]

  -- Without its first entry, the map has no more entry of that name.
  first :
      (k name : String) (v : V) (m : List (String × V)) (j : String)
      → (k == name) ≡ true
      → lookup k m ≡ none
      → lookup j m ≡ (if name == j then none else (if k == j then some v else lookup j m))
  first k name v m j q h =
      grind (arith, string_eq.same_iff k name, string_eq.same_iff name j, string_eq.same_iff k j)

  later :
      (k name : String) (v : V) (m : List (String × V)) (f : V × List (String × V))
      → (k == name) ≡ false
      → IsMap ((k, v) ∷ m)
      → Removal name m f
      → Removal name ((k, v) ∷ m) (f.0, (k, v) ∷ f.1)
  unfolding lookup
  later k name v m f q h rest = record {
    was = rw q rest.was;
    still_map = (grind (arith, rest.others k, h.0, string_eq.same_iff name k), rest.still_map);
    others = λ j. grind (
      arith,
      rest.others j,
      string_eq.same_iff k name,
      string_eq.same_iff name j,
      string_eq.same_iff k j,
    );
  }

  pub remove_from-Removal :
      (name : String) (m : List (String × V)) {found : V × List (String × V)}
      → IsMap m
      → remove_from p name m ≡ some found
      → Removal name m found
  unfolding remove_from lookup
  remove_from-Removal name [] h e = absurd (cc)
  remove_from-Removal name ((k, v) ∷ m) {found} h e = elim (Bool-cases (k == name)) [
    | inl q ↦
        of_some (Removal name ((k, v) ∷ m)) (rw q at e)
          (record { was = rw q; still_map = h.1; others = λ j. first k name v m j q h.0 })
    | inr q ↦
        let (f, ef, e1) = >>=-eq-some (remove_from p name m) _ (rw q at e) in
        of_some (Removal name ((k, v) ∷ m)) e1
          (later k name v m f q h (remove_from-Removal name m h.1 ef))
  ]

module _ {V : Type 0} where
  -- A call that waits for the mutex when it is held, and otherwise gives a result.
  abbrev pub unless_locked : {A : Type 0} → Manager V → A → Option A
  unless_locked m r = if m.locked then none else some r

  abbrev pub SafeOps : Bool → String → V → Manager V → Type 0
  SafeOps p name object m =
      (safe_find name m ≡ unless_locked m (find name m, m))
      × (safe_get name object m ≡ unless_locked m (get name object m, m))
      × (safe_add name object m ≡ unless_locked m (add name object m))
      × (safe_remove p name m ≡ unless_locked m (remove p name m))

  unlock-SafeOps :
      (p : Bool) (name : String) (object : V) (m : Manager V) → SafeOps p name object (unlock m)
  unfolding safe_find safe_get safe_add safe_remove find get add remove lock unlock free_object
  unlock-SafeOps true name object m = (refl, refl, refl, refl)
  unlock-SafeOps false name object m = (refl, refl, refl, refl)

  -- A locked operation waits while the mutex is held; otherwise it answers what the plain operation
  -- does and leaves the registry that the plain operation leaves, the mutex included.
  pub safe_ops : (p : Bool) (name : String) (object : V) (m : Manager V) → SafeOps p name object m
  unfolding safe_find safe_get safe_add safe_remove lock
  safe_ops p name object m = elim (Bool-cases m.locked) [
    | inl q ↦ rw q (refl, refl, refl, refl)
    | inr q ↦ subst (SafeOps p name object) (unlock-eq m q) (unlock-SafeOps p name object m)
  ]
