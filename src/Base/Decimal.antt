-- ===== src/Base/Decimal.antt =====
-- Numbers as decimal texts, and back.
use Prim.Native.Nat.{ℕ, zero, suc, ◌+◌, ◌-◌, ◌*◌, ◌/◌, ◌%◌, ◌≤◌, ◌<◌}
use mathlib.Core.Path.{◌≡◌, refl}
use mathlib.Core.Logic.{inl, inr}
use mathlib.Core.List.{[], ◌∷◌, ◌++◌}
use native.Mathlib.Omega.{arith}
use dns_sync.Base.Tests.{ltb, Bool-cases, if◌then◌else◌}
use dns_sync.Base.Lists.{All, All-snoc}
use dns_sync.Base.Bytes.{Str}

-- The digits from the right; a number has at most as many digits as it counts.
unfoldable pub digits : ℕ → ℕ → Str
digits zero n = []
digits (suc fuel) n =
    let more = digits fuel (n / 10) in (if ltb n 10 then [] else more) ++ (b'0' + n % 10) ∷ []

unfoldable pub decimal : ℕ → Str
decimal n = digits (suc n) n

-- The number that digits stand for, after those before
abbrev pub value_from : ℕ → Str → ℕ
value_from acc [] = acc
value_from acc (c ∷ cs) = value_from (acc * 10 + (c - b'0')) cs

value_from-snoc :
    (acc c : ℕ) (cs : Str) → value_from acc (cs ++ c ∷ []) ≡ value_from acc cs * 10 + (c - b'0')
value_from-snoc acc c [] = refl
value_from-snoc acc c (d ∷ cs) = value_from-snoc (acc * 10 + (d - b'0')) c cs

value_from-digits : (fuel n : ℕ) → n < fuel → value_from 0 (digits fuel n) ≡ n
unfolding digits
value_from-digits zero n h = omega arith
value_from-digits (suc fuel) n h = elim (Bool-cases (ltb n 10)) [
  | inl short ↦ rw short (ground arith)
  | inr long ↦
      let rest = value_from-digits fuel (n / 10) (ground arith) in
      rw (long, value_from-snoc 0 (b'0' + n % 10) (digits fuel (n / 10)), rest) (omega arith)
]

-- The text of a number reads back as the number.
pub value_from-decimal : (n : ℕ) → value_from 0 (decimal n) ≡ n
unfolding decimal
value_from-decimal n = value_from-digits (suc n) n (omega arith)

-- Every byte is a digit.
abbrev pub IsDigit : ℕ → Type 0
IsDigit c = (b'0' ≤ c) × (c ≤ b'9')

digits-All : (fuel n : ℕ) → All IsDigit (digits fuel n)
unfolding digits
digits-All zero n = tt
digits-All (suc fuel) n = elim (Bool-cases (ltb n 10)) [
  | inl short ↦ rw short ((omega arith, omega arith), tt)
  | inr long ↦ rw long (
      All-snoc IsDigit (digits fuel (n / 10)) (b'0' + n % 10) (digits-All fuel (n / 10))
        (omega arith, omega arith))
]

pub decimal-All : (n : ℕ) → All IsDigit (decimal n)
unfolding decimal
decimal-All n = digits-All (suc n) n
