-- ===== src/Image/Values/Decimal.antt =====
-- Decimal numbers: what `std::to_string` writes and the parser reads.
use smply.Prelude.{
  ℕ, zero, suc, ◌+◌, ◌-◌, ◌*◌, ◌/◌, ◌%◌, ◌≤◌, ◌<◌, ◌≡◌, refl, ◌∙◌, Bool, true, false, List, [], ◌∷◌,
  ◌++◌, length, dec_lt, arith,
}
use smply.Error.{ok}
use smply.Image.Values.{number_from, number, dot, decimal_from, decimal}

abbrev pub ten_to : ℕ → ℕ
ten_to zero = 1
ten_to (suc k) = 10 * ten_to k

decimal_from-append :
    (fuel n : ℕ) (text more : List ℕ)
    → decimal_from fuel n text ++ more ≡ decimal_from fuel n (text ++ more)
unfolding decimal_from
decimal_from-append zero n text more = refl
decimal_from-append (suc fuel) n text more =
    ground (arith, decimal_from-append fuel (n / 10) ((48 + n % 10) ∷ text) more)

decimal_one :
    (fuel n : ℕ) (text : List ℕ) → n < 10 → decimal_from (suc fuel) n text ≡ (48 + n) ∷ text
unfolding decimal_from
decimal_one fuel n text h = ground (arith, h)

decimal_more :
    (fuel n : ℕ) (text : List ℕ)
    → 10 ≤ n
    → decimal_from (suc fuel) n text ≡ decimal_from fuel (n / 10) ((48 + n % 10) ∷ text)
unfolding decimal_from
decimal_more fuel n text h = ground (arith, h)

length-decimal_from :
    (digits fuel n : ℕ) (text : List ℕ)
    → n < ten_to digits
    → 0 < digits
    → length (decimal_from fuel n text) ≤ digits + length text
unfolding decimal_from
length-decimal_from digits zero n text h positive = omega arith
length-decimal_from zero (suc fuel) n text h positive = absurd (omega (arith, positive))
length-decimal_from (suc zero) (suc fuel) n text h positive =
    rw (decimal_one fuel n text (omega (arith, h))) (omega arith)
length-decimal_from (suc (suc digits)) (suc fuel) n text h positive = elim (dec_lt n 10) [
  | yes small ↦ rw (decimal_one fuel n text small) (omega arith)
  | no large ↦ rw (decimal_more fuel n text (omega (arith, large))) (
      omega (
        arith,
        length-decimal_from (suc digits) fuel (n / 10) ((48 + n % 10) ∷ text) (omega (arith, h))
            (omega arith),
      ))
]

number_from_digit :
    (limit value next c : ℕ) (some_read : Bool) (text : List ℕ)
    → 48 ≤ c
    → c ≤ 57
    → value * 10 + (c - 48) ≡ next
    → next ≤ limit
    → number_from limit value some_read (c ∷ text) ≡ number_from limit next true text
unfolding number_from
number_from_digit limit value next c some_read text low high reads fits =
    rw reads (ground (arith, low, high, fits))

-- Reading the digits of a number comes to what follows them with the number as the value.
number_from-decimal_from :
    (fuel limit n : ℕ) (some_read : Bool) (text : List ℕ)
    → n < ten_to fuel
    → 0 < fuel
    → n ≤ limit
    → number_from limit 0 some_read (decimal_from fuel n text) ≡ number_from limit n true text
number_from-decimal_from zero limit n some_read text h positive k = absurd (omega (arith, positive))
number_from-decimal_from (suc zero) limit n some_read text h positive k =
    rw (decimal_one 0 n text (omega (arith, h))) (
      number_from_digit limit 0 n (48 + n) some_read text (omega arith) (omega (arith, h))
        (omega arith) k)
number_from-decimal_from (suc (suc fuel)) limit n some_read text h positive k = elim (dec_lt n 10) [
  | yes small ↦ rw (decimal_one (suc fuel) n text small) (
      number_from_digit limit 0 n (48 + n) some_read text (omega arith) (omega (arith, small))
        (omega arith) k)
  | no large ↦ rw (decimal_more (suc fuel) n text (omega (arith, large))) (
      number_from-decimal_from (suc fuel) limit (n / 10) some_read ((48 + n % 10) ∷ text)
        (omega (arith, h)) (omega arith) (omega (arith, k))
      ∙ number_from_digit limit (n / 10) n (48 + n % 10) true text (omega arith) (omega arith)
          (omega arith) k)
]

-- A number, then a dot or the end.
pub number-dot :
    (limit n : ℕ) (text : List ℕ)
    → n < 10000000000
    → n ≤ limit
    → number limit (decimal n ++ dot ∷ text) ≡ ok (n, dot ∷ text)
unfolding number decimal number_from
number-dot limit n text small fits =
    rw (decimal_from-append 10 n [] (dot ∷ text))
      (number_from-decimal_from 10 limit n false (dot ∷ text) small (omega arith) fits)

pub number_end : (limit n : ℕ) → n < 10000000000 → n ≤ limit → number limit (decimal n) ≡ ok (n, [])
unfolding number decimal number_from
number_end limit n small fits =
    number_from-decimal_from 10 limit n false [] small (omega arith) fits

pub length-decimal : (digits n : ℕ) → n < ten_to digits → 0 < digits → length (decimal n) ≤ digits
unfolding decimal
length-decimal digits n h positive = omega (arith, length-decimal_from digits 10 n [] h positive)

pub decimal_from_nonempty :
    (fuel n : ℕ) (text : List ℕ) → 0 < fuel + length text → 0 < length (decimal_from fuel n text)
unfolding decimal_from
decimal_from_nonempty zero n text h = omega (arith, h)
decimal_from_nonempty (suc fuel) n text h = elim (dec_lt n 10) [
  | yes small ↦ rw (decimal_one fuel n text small) (omega arith)
  | no large ↦
      rw (decimal_more fuel n text (omega (arith, large)))
        (decimal_from_nonempty fuel (n / 10) ((48 + n % 10) ∷ text) (omega arith))
]
