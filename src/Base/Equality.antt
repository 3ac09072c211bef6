-- ===== src/Base/Equality.antt =====
-- Equality tests as instances: one operator for numbers, texts and the enumerations.
use Prim.Native.Nat.{ℕ}
use Prim.Native.String.{String}
use mathlib.Core.Path.{◌≡◌, refl, ap}
use mathlib.Core.Logic.{◌↔◌}
use mathlib.Core.Bool.{Bool, true}
use text.Mathlib.Text.{◌==◌ as str_beq}
use text.Mathlib.TextEquality.{eq_iff as str_beq_iff}
use networkops_ai_agent.Base.Tests.{nat_beq, nat_beq_iff}

pub record Eq {ℓ} (A : Type ℓ) : Type ℓ where
  pub decided : A → A → Bool
  pub reflects : (x y : A) → (decided x y ≡ true) ↔ (x ≡ y)

instance abbrev pub nat_eq : Eq ℕ
nat_eq = record { decided = nat_beq; reflects = nat_beq_iff }

instance abbrev pub string_eq : Eq String
string_eq = record { decided = str_beq; reflects = str_beq_iff }

module _ {ℓ} {A : Type ℓ} ⦃e : Eq A⦄ where
  infix 50 ◌==◌
  abbrev pub ◌==◌ : A → A → Bool
  x == y = e.decided x y

  pub eq_iff : (a b : A) → ((a == b) ≡ true) ↔ (a ≡ b)
  eq_iff a b = e.reflects a b

  pub eq_refl : (a : A) → (a == a) ≡ true
  eq_refl a = (e.reflects a a).1 refl

-- An enumeration is compared by the place of its members.
module _ {ℓ} {A : Type ℓ} (rank : A → ℕ) (injective : (a b : A) → rank a ≡ rank b → a ≡ b) where
  abbrev beq_by_rank : A → A → Bool
  beq_by_rank a b = nat_beq (rank a) (rank b)

  pub beq_by_rank_iff : (a b : A) → (beq_by_rank a b ≡ true) ↔ (a ≡ b)
  beq_by_rank_iff a b = (
    λ h. injective a b ((nat_beq_iff (rank a) (rank b)).0 h),
    λ e. (nat_beq_iff (rank a) (rank b)).1 (ap rank e),
  )

  abbrev pub eq_by_rank : Eq A
  eq_by_rank = record { decided = beq_by_rank; reflects = beq_by_rank_iff }
