-- ===== src/Base/Equality.antt =====
-- HasEquality tests as an interface, with the instances for numbers and texts.
use Prim.Native.Nat.{ℕ}
use Prim.Native.String.{String}
use mathlib.Core.Path.{◌≡◌}
use mathlib.Core.Logic.{◌↔◌}
use mathlib.Core.Bool.{Bool, true, false, ◌||◌}
use mathlib.Core.List.{List, [], ◌∷◌}
use text.Mathlib.Text.{◌==◌ as str_eq}
use text.Mathlib.TextEquality.{eq_iff}
use offline_reels.Base.Tests.{◌=ℕ◌, =ℕ_iff}

-- A test of equality that is right in both directions.
pub record HasEquality {ℓ} (A : Type ℓ) : Type ℓ where
  pub equal : A → A → Bool
  pub equal_iff : (a b : A) → (equal a b ≡ true) ↔ (a ≡ b)

infix 50 ◌==◌
abbrev pub ◌==◌ {ℓ} : {A : Type ℓ} ⦃test : HasEquality A⦄ → A → A → Bool
◌==◌ ⦃test⦄ a b = test.equal a b

instance abbrev pub string_eq : HasEquality String
string_eq = record { equal = str_eq; equal_iff = eq_iff }

instance abbrev pub nat_eq : HasEquality ℕ
nat_eq = record { equal = ◌=ℕ◌; equal_iff = =ℕ_iff }

-- `x in xs`
abbrev pub contains {ℓ} : {A : Type ℓ} ⦃test : HasEquality A⦄ → A → List A → Bool
contains a [] = false
contains a (x ∷ xs) = a == x || contains a xs
