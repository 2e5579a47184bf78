-- ===== src/Base/Bits/Fields.antt =====
-- The digits of shifted, reduced and complemented numbers.
use Prim.Native.Nat.{ℕ, zero, suc, ◌-◌, ◌^◌, ◌*◌, ◌/◌, ◌%◌, ◌<◌}
use mathlib.Core.Path.{◌≡◌, sym, ap, ◌∙◌}
use native.Mathlib.Omega.{arith}
use native.Mathlib.Nat.{
  mul_left_comm, mul_assoc, div-div-eq-div-mul, mod-eq-sub-mul-div, mul-div-le,
}
use akida_dw_edma.Base.Tests.{ltb, if◌then◌else◌}
use akida_dw_edma.Base.Bits.{digit, digit-zero}

twice : (n : ℕ) → 2 ^ suc n ≡ 2 * 2 ^ n
twice n = omega arith

power-positive : (n : ℕ) → 0 < 2 ^ n
power-positive zero = omega arith
power-positive (suc n) = omega (arith, power-positive n)

mul-twice : (a b : ℕ) → a * (2 * b) ≡ 2 * (a * b)
mul-twice a b = mul_left_comm a 2 b

half_shift : (n x : ℕ) → x * 2 ^ suc n / 2 ≡ x * 2 ^ n
half_shift n x = omega (arith, ap (λ y. x * y) (twice n), mul-twice x (2 ^ n))

-- The quotient times an even power.
even_part : (n q : ℕ) → 2 ^ suc n * q ≡ 2 * (2 ^ n * q)
even_part n q = ap (λ y. y * q) (twice n) ∙ mul_assoc 2 (2 ^ n) q

half_mod : (n x : ℕ) → x % 2 ^ suc n / 2 ≡ x / 2 % 2 ^ n
half_mod n x =
    let q = x / 2 ^ suc n in
    let same : x / 2 / 2 ^ n ≡ q =
      div-div-eq-div-mul x 2 (2 ^ n) ∙ ap (λ y. x / y) (sym (twice n)) in
    let part : 2 ^ n * (x / 2 / 2 ^ n) ≡ 2 ^ n * q = ap (λ y. 2 ^ n * y) same in
    omega (
      arith,
      mod-eq-sub-mul-div x (2 ^ suc n),
      mod-eq-sub-mul-div (x / 2) (2 ^ n),
      even_part n q,
      part,
    )

-- A shift to the left.
pub digit-shift : (n p x : ℕ) → digit p (x * 2 ^ n) ≡ (if ltb p n then 0 else digit (p - n) x)
digit-shift zero p x =
    let same : x * 2 ^ 0 ≡ x = omega arith in
    let place : p - 0 ≡ p = omega arith in rw (same, place) (ground arith)
digit-shift (suc n) zero x =
    let double : x * 2 ^ suc n ≡ 2 * (x * 2 ^ n) =
      ap (λ y. x * y) (twice n) ∙ mul-twice x (2 ^ n) in
    ground (arith, double)
digit-shift (suc n) (suc p) x = ap (digit p) (half_shift n x) ∙ digit-shift n p x ∙ ground arith

-- A remainder.
pub digit-mod : (n p x : ℕ) → digit p (x % 2 ^ n) ≡ (if ltb p n then digit p x else 0)
digit-mod zero p x = let none : x % 2 ^ 0 ≡ 0 = omega arith in rw none (digit-zero p ∙ ground arith)
digit-mod (suc n) zero x =
    let q = x / 2 ^ suc n in
    let low : x % 2 ^ suc n % 2 ≡ x % 2 =
      omega (arith, mod-eq-sub-mul-div x (2 ^ suc n), mul-div-le x (2 ^ suc n), even_part n q) in
    ground (arith, low)
digit-mod (suc n) (suc p) x = ap (digit p) (half_mod n x) ∙ digit-mod n p (x / 2) ∙ ground arith

-- A complement in `n` digits.
pub digit-complement : (n p x : ℕ) → p < n → x < 2 ^ n → digit p (2 ^ n - 1 - x) ≡ 1 - digit p x
digit-complement zero p x h k = absurd (omega arith)
digit-complement (suc n) zero x h k = omega (arith, twice n, power-positive n)
digit-complement (suc n) (suc p) x h k =
    let half : (2 ^ suc n - 1 - x) / 2 ≡ 2 ^ n - 1 - x / 2 =
      omega (arith, twice n, power-positive n) in
    ap (digit p) half ∙ digit-complement n p (x / 2) (omega arith) (omega (arith, twice n))
