-- ===== src/Base/Eq.antt =====
-- Equality tests as an interface, with one operator for every type that has one.
use Prim.Native.Nat.{ℕ}
use mathlib.Core.Path.{◌≡◌}
use mathlib.Core.Logic.{◌↔◌}
use mathlib.Core.Bool.{Bool, true}
use dns_sync.Base.Tests.{nat_beq, nat_beq_iff}
use dns_sync.Base.Bytes.{Str, str_beq, str_beq_iff}

pub record EqTest {ℓ} (A : Type ℓ) : Type ℓ where
  -- the test, and that it decides equality
  pub beq : A → A → Bool
  pub beq_iff : (x y : A) → (beq x y ≡ true) ↔ (x ≡ y)

instance abbrev pub str_eq : EqTest Str
str_eq = record { beq_iff = str_beq_iff; beq = str_beq }

instance abbrev pub nat_eq : EqTest ℕ
nat_eq = record { beq_iff = nat_beq_iff; beq = nat_beq }

infix 50 ◌==◌
abbrev pub ◌==◌ {ℓ} : {K : Type ℓ} ⦃test : EqTest K⦄ → K → K → Bool
◌==◌ ⦃test⦄ x y = test.beq x y
