-- ===== src/Prelude/Eq.antt =====
-- Decided equality of the keys of a map, as an instance.
use Prim.Native.Nat.{ℕ}
use Prim.Native.String.{String}
use mathlib.Core.Path.{◌≡◌}
use mathlib.Core.Logic.{◌↔◌}
use mathlib.Core.Bool.{Bool, true}
use text.Mathlib.Text.{◌==◌ as text_eq}
use text.Mathlib.TextEquality.{eq_iff}
use edge_frame.Prelude.Tests.{nat_beq, nat_beq_iff}

-- A test that answers whether two keys are the same one.
pub record KeyEq {κ} (K : Type κ) : Type κ where
  pub same : K → K → Bool
  pub same_iff : (j k : K) → (same j k ≡ true) ↔ (j ≡ k)

instance abbrev pub string_eq : KeyEq String
string_eq = record { same = text_eq; same_iff = eq_iff }

instance abbrev pub nat_eq : KeyEq ℕ
nat_eq = record { same = nat_beq; same_iff = nat_beq_iff }

infix 50 ◌==◌
abbrev pub ◌==◌ {κ} : {K : Type κ} ⦃keys : KeyEq K⦄ → K → K → Bool
◌==◌ ⦃keys⦄ j k = keys.same j k
