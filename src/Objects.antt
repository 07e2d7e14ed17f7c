-- ===== src/Objects.antt =====
-- include/mgr/ObjectManager.h: the registry of named objects that `QueueManager` is, and its locked
-- operations. `none` is a call that does not come back: `Lock` on a mutex that is held.
pub mod Laws
pub mod Registry
use edge_frame.Prelude.{ℕ, Bool, true, false, String, List, [], ◌∷◌, ◌++◌, Option, none, some}
use edge_frame.Prelude.{string_eq, if◌then◌else◌, ◌>>=◌, ◌==◌, lookup, insert, length}

-- The entries, the objects given to `delete`, the mutex, and the entries that `seq_ir_` has ahead.
pub record Manager (V : Type 0) : Type 0 where
  pub entries : List (String × V)
  pub freed : List V
  pub locked : Bool
  pub seq_ir : List (String × V)

abbrev pub is_some {ℓ} : {A : Type ℓ} → Option A → Bool
is_some none = false
is_some (some a) = true

module _ {V : Type 0} where
  unfoldable pub find : String → Manager V → Bool
  find name m = is_some (lookup name m.entries)

  -- `Get(name)`: a missing name gets an entry with a value-initialised object.
  unfoldable pub get_or_make : V → String → Manager V → V × Manager V
  get_or_make made name m = elim (lookup name m.entries) [
    | some v ↦ (v, m)
    | none ↦ (made, record m { entries = insert name made m.entries })
  ]

  -- `Get(name, val)`: the answer, and `val` after the call.
  unfoldable pub get : String → V → Manager V → Bool × V
  get name val m = elim (lookup name m.entries) [ some v ↦ (true, v) | none ↦ (false, val) ]

  unfoldable pub add : String → V → Manager V → Bool × Manager V
  add name object m =
      if is_some (lookup name m.entries)
      then (false, m)
      else (true, record m { entries = insert name object m.entries })

  -- `Lock` and `Unlock`
  unfoldable pub lock : Manager V → Option (Manager V)
  lock m = if m.locked then none else some (record m { locked = true })

  unfoldable pub unlock : Manager V → Manager V
  unlock m = record m { locked = false }

  unfoldable pub get_num : Manager V → ℕ
  get_num m = length m.entries

  unfoldable pub start_seq_access : Manager V → Manager V
  start_seq_access m = record m { seq_ir = m.entries }

  -- `GetSeqObj`; at the end of the entries it reads through the past-the-end iterator.
  unfoldable pub get_seq_obj : Manager V → Option (V × Manager V)
  get_seq_obj m = elim m.seq_ir [ [] ↦ none | e ∷ rest ↦ some (e.1, record m { seq_ir = rest }) ]

  unfoldable pub safe_find : String → Manager V → Option (Bool × Manager V)
  safe_find name m = do held ← lock m; some (is_some (lookup name held.entries), unlock held)

  unfoldable pub safe_get : String → V → Manager V → Option ((Bool × V) × Manager V)
  safe_get name val m = do
    held ← lock m
    some (elim (lookup name held.entries) [ some v ↦ (true, v) | none ↦ (false, val) ], unlock held)

  unfoldable pub safe_add : String → V → Manager V → Option (Bool × Manager V)
  safe_add name object m = do
    held ← lock m
    some (
        if is_some (lookup name held.entries)
        then (false, unlock held)
        else (true, unlock (record held { entries = insert name object held.entries })))

-- Whether `V` is a pointer type, so that `FreeObject` deletes.
module _ {V : Type 0} (is_pointer : Bool) where
  unfoldable pub free_object : V → Manager V → Manager V
  free_object object m = if is_pointer then record m { freed = m.freed ++ (object ∷ []) } else m

  unfoldable pub replace : String → V → Manager V → Bool × Manager V
  replace name object m = elim (lookup name m.entries) [
    | none ↦ (false, m)
    | some old_data ↦
        (true, record (free_object old_data m) { entries = insert name object m.entries })
  ]

  -- The loop of `Remove` and `SafeRemove` over the entries: the entry found, and the others.
  unfoldable pub remove_from : String → List (String × V) → Option (V × List (String × V))
  remove_from name [] = none
  remove_from name ((k, v) ∷ rest) =
      let later = remove_from name rest in
      if k == name then some (v, rest) else (do found ← later; some (found.0, (k, v) ∷ found.1))

  unfoldable pub remove : String → Manager V → Bool × Manager V
  remove name m = elim (remove_from name m.entries) [
    | none ↦ (false, m)
    | some found ↦ (true, record (free_object found.0 m) { entries = found.1 })
  ]

  unfoldable pub safe_remove : String → Manager V → Option (Bool × Manager V)
  safe_remove name m = do
    held ← lock m
    some (elim (remove_from name held.entries) [
      | none ↦ (false, unlock held)
      | some found ↦ (true, unlock (record (free_object found.0 held) { entries = found.1 }))
    ])

  -- `SafeRemoveOnly`: the object is not deleted.
  unfoldable pub safe_remove_only : String → Manager V → Option (Bool × Manager V)
  safe_remove_only name m = do
    held ← lock m
    some (elim (remove_from name held.entries) [
      | none ↦ (false, unlock held)
      | some found ↦ (true, unlock (record held { entries = found.1 }))
    ])
