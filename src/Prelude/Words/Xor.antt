-- ===== src/Prelude/Words/Xor.antt =====
-- `^` on words.
use Prim.Native.Nat.{
  ℕ, zero, suc, ◌+◌, ◌*◌, ◌/◌, ◌%◌, ◌^◌, ◌≤◌, ◌<◌, bit_xor, bit_xor-bitwise, differ,
}
use mathlib.Core.Path.{◌≡◌, refl, ap₂, ◌∙◌}
use native.Mathlib.Omega.{arith}
use native.Mathlib.Nat.{pow-suc}
use smply.Prelude.Words.{digits_lowest, shift_twice, zero_of}

differ_bits : (x y : ℕ) → x < 2 → y < 2 → differ x y ≡ (x + y) % 2
differ_bits zero zero h k = refl
differ_bits zero (suc zero) h k = refl
differ_bits zero (suc (suc y)) h k = absurd (omega (arith, k))
differ_bits (suc zero) zero h k = refl
differ_bits (suc zero) (suc zero) h k = refl
differ_bits (suc zero) (suc (suc y)) h k = absurd (omega (arith, k))
differ_bits (suc (suc x)) y h k = absurd (omega (arith, h))

xor_lowest : (a b : ℕ) → bit_xor a b ≡ bit_xor (a / 2) (b / 2) * 2 + (a % 2 + b % 2) % 2
xor_lowest zero b = omega (arith, bit_xor-bitwise 0 b, bit_xor-bitwise 0 (b / 2))
xor_lowest (suc a) b = omega (
  arith,
  bit_xor-bitwise (suc a) b,
  bit_xor-bitwise (suc a / 2) (b / 2),
  digits_lowest (λ d. d) differ a b,
  differ_bits (suc a % 2) (b % 2) (omega arith) (omega arith),
)

xor_self_below : (bound a : ℕ) → a ≤ bound → bit_xor a a ≡ 0
xor_self_below bound zero under = refl
xor_self_below zero (suc a) under = absurd (omega (arith, under))
xor_self_below (suc bound) (suc a) under =
    omega
      (arith, xor_lowest (suc a) (suc a), xor_self_below bound (suc a / 2) (omega (arith, under)))

pub xor_self : (a : ℕ) → bit_xor a a ≡ 0
xor_self a = xor_self_below a a (omega arith)

xor_zero : (a low : ℕ) → low ≡ 0 → bit_xor (a * 2 ^ 0 + low) (a * 2 ^ 0) ≡ 0
xor_zero a low none = ap₂ bit_xor (omega (arith, none)) (omega arith) ∙ xor_self a

-- The bits from `k` on taken out of a number leave those below.
pub xor_high : (k a low : ℕ) → low < 2 ^ k → bit_xor (a * 2 ^ k + low) (a * 2 ^ k) ≡ low
xor_high zero a low h = omega (arith, h, xor_zero a low (omega (arith, h)))
xor_high (suc k) a low h =
    let halved : (a * 2 ^ suc k + low) / 2 ≡ a * 2 ^ k + low / 2 = omega (arith, shift_twice a k) in
    let halved_high : a * 2 ^ suc k / 2 ≡ a * 2 ^ k = omega (arith, shift_twice a k) in
    omega (
      arith,
      xor_lowest (a * 2 ^ suc k + low) (a * 2 ^ suc k),
      shift_twice a k,
      ap₂ bit_xor halved halved_high,
      xor_high k a (low / 2) (omega (arith, h, pow-suc 2 k)),
    )

-- Two numbers of `k` bits give one.
pub xor_within : (k a b : ℕ) → a < 2 ^ k → b < 2 ^ k → bit_xor a b < 2 ^ k
xor_within zero a b h k =
    omega (arith, ap₂ bit_xor (zero_of a (omega (arith, h))) (zero_of b (omega (arith, k))))
xor_within (suc k) a b h l =
    omega (arith, xor_lowest a b, xor_within k (a / 2) (b / 2) (omega arith) (omega arith))
