-- ===== src/Prelude/Equality.antt =====
-- Equality tests as an interface: Python's `==` on identifiers, numbers and enum members.
use Prim.Native.Nat.{ℕ}
use Prim.Native.String.{String}
use mathlib.Core.Path.{◌≡◌, refl}
use mathlib.Core.Logic.{◌↔◌}
use mathlib.Core.Bool.{Bool, true, false}
use mathlib.Core.Option.{Option, none, some}
use text.Mathlib.Text.{◌==◌ as text_eq}
use text.Mathlib.TextEquality.{eq_iff}
use jarvis_development.Prelude.Tests.{nat_beq, nat_beq_iff}

-- A test that decides equality.
pub record Equal {ℓ} (A : Type ℓ) : Type ℓ where
  pub same : A → A → Bool
  pub same_iff : (x y : A) → (same x y ≡ true) ↔ (x ≡ y)

instance abbrev pub string_eq : Equal String
string_eq = record { same = text_eq; same_iff = eq_iff }

instance abbrev pub nat_eq : Equal ℕ
nat_eq = record { same = nat_beq; same_iff = nat_beq_iff }

abbrev pub ◌==◌ {ℓ} : {A : Type ℓ} ⦃e : Equal A⦄ → A → A → Bool
◌==◌ ⦃e⦄ x y = e.same x y

infix 50 ◌==◌
pub ==-refl {ℓ} : {A : Type ℓ} ⦃e : Equal A⦄ (x : A) → (x == x) ≡ true
==-refl ⦃e⦄ x = (e.same_iff x x).1 refl

-- `o == some a`, the comparison of a `dict.get` or an optional field with a value.
abbrev pub option_is {ℓ} : {A : Type ℓ} ⦃e : Equal A⦄ → Option A → A → Bool
option_is none a = false
option_is (some b) a = b == a
