-- ===== src/Base/Bits.antt =====
-- Binary digits of a number, and those of `bit_and`.
pub mod Fields
use Prim.Native.Nat.{
  ℕ, zero, suc, ◌-◌, ◌^◌, ◌*◌, ◌/◌, ◌%◌, ◌≤◌, ◌<◌, min, max, bit_and, bit_or, digits,
  bit_and-bitwise, bit_or-bitwise,
}
use mathlib.Core.Path.{◌≡◌, refl, sym, ap, ◌∙◌}
use mathlib.Core.Bool.{Bool, false, ◌&&◌, ◌||◌}
use native.Mathlib.Omega.{arith}
use akida_dw_edma.Base.Tests.{◌==◌, if◌then◌else◌}

-- The digit of weight 2 ^ p.
abbrev pub digit : ℕ → ℕ → ℕ
digit zero x = x % 2
digit (suc p) x = digit p (x / 2)

-- `x & BIT(p)`
abbrev pub test_bit : ℕ → ℕ → Bool
test_bit p x = digit p x == 1

pub digit-lt : (p x : ℕ) → digit p x < 2
digit-lt zero x = omega arith
digit-lt (suc p) x = digit-lt p (x / 2)

pub digit-zero : (p : ℕ) → digit p 0 ≡ 0
digit-zero zero = refl
digit-zero (suc p) = digit-zero p

-- An operation on single digits acts on the digits of a number one by one.
module _ (z : ℕ → ℕ) (f : ℕ → ℕ → ℕ) (small : (a b : ℕ) → a < 2 → b < 2 → f a b < 2)
    (base : (p b : ℕ) → digit p (z b) ≡ f 0 (digit p b)) where
  digit-digits : (p n a b : ℕ) → a ≤ n → digit p (digits z f n a b) ≡ f (digit p a) (digit p b)
  digit-digits p zero zero b h = base p b ∙ ap (λ (x : ℕ). f x (digit p b)) (sym (digit-zero p))
  digit-digits p zero (suc a) b h = absurd (omega arith)
  digit-digits p (suc n) zero b h = base p b ∙ ap (λ (x : ℕ). f x (digit p b)) (sym (digit-zero p))
  digit-digits zero (suc n) (suc a) b h =
      omega (arith, small (suc a % 2) (b % 2) (omega arith) (omega arith))
  digit-digits (suc p) (suc n) (suc a) b h =
      ap (digit p) (omega (arith, small (suc a % 2) (b % 2) (omega arith) (omega arith)))
      ∙ digit-digits p n (suc a / 2) (b / 2) (omega arith)

digit-bit_and : (p a b : ℕ) → digit p (bit_and a b) ≡ min (digit p a) (digit p b)
digit-bit_and p a b =
    ap (digit p) (bit_and-bitwise a b)
    ∙ digit-digits (λ _. zero) min (λ x y hx hy. omega arith) (λ q c. omega (arith, digit-zero q)) p
        a a b (omega arith)

digit-bit_or : (p a b : ℕ) → digit p (bit_or a b) ≡ max (digit p a) (digit p b)
digit-bit_or p a b =
    ap (digit p) (bit_or-bitwise a b)
    ∙ digit-digits (λ x. x) max (λ x y hx hy. omega arith) (λ q c. omega arith) p a a b
        (omega arith)

pub test_bit-bit_and : (p a b : ℕ) → test_bit p (bit_and a b) ≡ (test_bit p a && test_bit p b)
test_bit-bit_and p a b = ground (arith, digit-bit_and p a b, digit-lt p a, digit-lt p b)

pub test_bit-bit_or : (p a b : ℕ) → test_bit p (bit_or a b) ≡ (test_bit p a || test_bit p b)
test_bit-bit_or p a b = ground (arith, digit-bit_or p a b, digit-lt p a, digit-lt p b)

-- `~x` of a u32
abbrev pub not32 : ℕ → ℕ
not32 x = 4294967295 - x

-- `BIT(n)`
abbrev pub bit : ℕ → ℕ
bit n = 2 ^ n

double : (n : ℕ) → 2 ^ suc n ≡ 2 * 2 ^ n
double n = omega arith

digit-bit : (p n : ℕ) → digit p (bit n) ≡ (if p == n then 1 else 0)
digit-bit zero zero = refl
digit-bit zero (suc n) = ground (arith, double n)
digit-bit (suc p) zero = ground (arith, digit-zero p)
digit-bit (suc p) (suc n) =
    let half : 2 ^ suc n / 2 ≡ 2 ^ n = omega (arith, double n) in
    ap (digit p) half ∙ digit-bit p n ∙ ground arith

-- `BIT(n)` has the bit `n` and no other.
pub test_bit-bit : (p n : ℕ) → test_bit p (bit n) ≡ (p == n)
test_bit-bit p n = ground (arith, digit-bit p n)

pub test_bit-zero : (p : ℕ) → test_bit p 0 ≡ false
test_bit-zero p = ground (arith, digit-zero p)
