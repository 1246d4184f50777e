-- ===== src/Prelude/Words.antt =====
-- Bytes and the bit operations of the codecs as arithmetic.
use Prim.Native.Nat.{
  ℕ, zero, suc, ◌+◌, ◌*◌, ◌/◌, ◌%◌, ◌^◌, ◌≤◌, ◌<◌, min, max, bit_and, bit_or, digits,
  bit_and-bitwise, bit_or-bitwise,
}
use mathlib.Core.Path.{◌≡◌, refl, sym, ap, ap₂, ◌∙◌}
use mathlib.Core.Bool.{Bool, true, ◌&&◌}
use mathlib.Core.List.{List, [], ◌∷◌, ◌++◌}
use native.Mathlib.Omega.{arith}
use native.Mathlib.Nat.{pow-suc}
pub mod Xor

abbrev pub IsByte : ℕ → Type 0
IsByte b = b < 256

abbrev pub All {ℓ κ} : {A : Type ℓ} → (A → Type κ) → List A → Type κ
All P [] = Unit
All P (x ∷ xs) = P x × All P xs

pub All-append {ℓ κ} :
    {A : Type ℓ} (P : A → Type κ) (xs ys : List A) → All P xs → All P ys → All P (xs ++ ys)
All-append P [] ys h k = k
All-append P (x ∷ xs) ys h k = (h.0, All-append P xs ys h.1 k)

-- Whether a test holds of each number below a bound, by running it.
unfoldable pub holds_below : (ℕ → Bool) → ℕ → Bool
holds_below test zero = true
holds_below test (suc top) = holds_below test top && test top

pub holds_below_lem :
    (test : ℕ → Bool) (bound v : ℕ) → holds_below test bound ≡ true → v < bound → test v ≡ true
unfolding holds_below
holds_below_lem test zero v all under = absurd (omega arith)
holds_below_lem test (suc top) v all under = ground (arith, all, under, holds_below_lem test top v)

-- A bit operation is computed digit by digit, on fuel for the digits of its first number.
module _ (at_end : ℕ → ℕ) (digit : ℕ → ℕ → ℕ) where
  digits-zero : (fuel b : ℕ) → digits at_end digit fuel zero b ≡ at_end b
  digits-zero zero b = refl
  digits-zero (suc fuel) b = refl

  -- Any two amounts of fuel that are enough give the same number.
  digits_enough :
      (fuel other a b : ℕ)
      → a ≤ fuel
      → a ≤ other
      → digits at_end digit fuel a b ≡ digits at_end digit other a b
  digits_enough fuel other zero b h k = digits-zero fuel b ∙ sym (digits-zero other b)
  digits_enough zero other (suc a) b h k = absurd (omega arith)
  digits_enough (suc fuel) zero (suc a) b h k = absurd (omega arith)
  digits_enough (suc fuel) (suc other) (suc a) b h k =
      omega
        (arith, digits_enough fuel other (suc a / 2) (b / 2) (omega (arith, h)) (omega (arith, k)))

  digits_lowest :
      (a b : ℕ)
      → digits at_end digit (suc a) (suc a) b
        ≡ digits at_end digit (suc a / 2) (suc a / 2) (b / 2) * 2 + digit (suc a % 2) (b % 2)
  digits_lowest a b =
      omega (arith, digits_enough a (suc a / 2) (suc a / 2) (b / 2) (omega arith) (omega arith))

or_lowest : (a b : ℕ) → bit_or a b ≡ bit_or (a / 2) (b / 2) * 2 + max (a % 2) (b % 2)
or_lowest zero b = omega (arith, bit_or-bitwise 0 b, bit_or-bitwise 0 (b / 2))
or_lowest (suc a) b = omega (
  arith,
  bit_or-bitwise (suc a) b,
  bit_or-bitwise (suc a / 2) (b / 2),
  digits_lowest (λ d. d) max a b,
)

and_lowest : (a b : ℕ) → bit_and a b ≡ bit_and (a / 2) (b / 2) * 2 + min (a % 2) (b % 2)
and_lowest zero b = omega (arith, bit_and-bitwise 0 b, bit_and-bitwise 0 (b / 2))
and_lowest (suc a) b = omega (
  arith,
  bit_and-bitwise (suc a) b,
  bit_and-bitwise (suc a / 2) (b / 2),
  digits_lowest (λ d. zero) min a b,
)

-- What no bits do, by halving under a bound.
none_set : (bound a : ℕ) → a ≤ bound → (bit_or a 0 ≡ a) × (bit_and a 0 ≡ 0)
none_set bound zero under = (refl, refl)
none_set zero (suc a) under = absurd (omega (arith, under))
none_set (suc bound) (suc a) under =
    let (or, and) = none_set bound (suc a / 2) (omega (arith, under)) in
    (omega (arith, or, or_lowest (suc a) 0), omega (arith, and, and_lowest (suc a) 0))

shift_twice : (x k : ℕ) → x * 2 ^ suc k ≡ 2 * (x * 2 ^ k)
shift_twice x k = omega (arith, ap (λ (t : ℕ). x * t) (pow-suc 2 k))

-- A field shifted above `k` bits, or'ed with a value of `k` bits, is their sum.
pub or_shifted : (k x low : ℕ) → low < 2 ^ k → bit_or (x * 2 ^ k) low ≡ x * 2 ^ k + low
or_shifted zero x low h = ground (arith, (none_set x x (omega arith)).0)
or_shifted (suc k) x low h =
    ground (
      arith,
      or_lowest (x * 2 ^ suc k) low,
      shift_twice x k,
      or_shifted k x (low / 2) (omega arith),
    )

and_nibble : (a : ℕ) → bit_and a 0x0f ≡ a % 16
and_nibble a =
    let b = a / 2 / 2 / 2 in
    omega (
      arith,
      and_lowest a 15,
      and_lowest (a / 2) 7,
      and_lowest (a / 2 / 2) 3,
      and_lowest b 1,
      (none_set (b / 2) (b / 2) (omega arith)).1,
    )

-- The mask of the lowest byte, at every width.
pub and_byte : (a : ℕ) → bit_and a 0xff ≡ a % 256
and_byte a =
    let high = a / 2 / 2 / 2 / 2 in
    omega (
      arith,
      and_lowest a 255,
      and_lowest (a / 2) 127,
      and_lowest (a / 2 / 2) 63,
      and_lowest (a / 2 / 2 / 2) 31,
      and_nibble high,
    )

zero_of : (a : ℕ) → a ≤ 0 → a ≡ 0
zero_of a h = omega (arith, h)

or_comm_below : (bound a b : ℕ) → a ≤ bound → b ≤ bound → bit_or a b ≡ bit_or b a
or_comm_below zero a b h k = omega (
  arith,
  h,
  k,
  or_lowest a b,
  or_lowest b a,
  ap₂ bit_or (zero_of a h) (zero_of b k),
  ap₂ bit_or (zero_of b k) (zero_of a h),
)
or_comm_below (suc bound) a b h k = omega (
  arith,
  or_lowest a b,
  or_lowest b a,
  or_comm_below bound (a / 2) (b / 2) (omega (arith, h)) (omega (arith, k)),
)

-- The low field first.
pub shifted_or : (k low x : ℕ) → low < 2 ^ k → bit_or low (x * 2 ^ k) ≡ low + x * 2 ^ k
shifted_or k low x h = omega (
  arith,
  or_comm_below (low + x * 2 ^ k) low (x * 2 ^ k) (omega arith) (omega arith),
  or_shifted k x low h,
)
