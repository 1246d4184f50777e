-- ===== src/Serial/Crc16/Residue.antt =====
-- src/transports/serial/crc16.hpp: bytes that are followed by their CRC have the CRC zero.
use Prim.Native.Nat.{bit_xor}
use smply.Prelude.{
  ℕ, zero, suc, ◌*◌, ◌/◌, ◌%◌, ◌^◌, ◌<◌, ◌≡◌, refl, List, [], ◌∷◌, ◌++◌, IsByte, All, xor_self,
  xor_high, xor_within, arith, ap, ◌∙◌,
}
use smply.Serial.Crc16.{shift_bit, shift_bits, crc16_xmodem}

shift_bit_within : (crc : ℕ) → shift_bit crc < 2 ^ 16
unfolding shift_bit
shift_bit_within crc =
    ground (arith, xor_within 16 (crc * 2 % 65536) 4129 (omega arith) (omega arith))

shift_bits_within : (n crc : ℕ) → crc < 2 ^ 16 → shift_bits n crc < 2 ^ 16
unfolding shift_bits
shift_bits_within zero crc h = h
shift_bits_within (suc n) crc h = shift_bits_within n (shift_bit crc) (shift_bit_within crc)

crc16_xmodem_within :
    (seed : ℕ) (bytes : List ℕ)
    → seed < 2 ^ 16
    → All IsByte bytes
    → crc16_xmodem seed bytes < 2 ^ 16
unfolding crc16_xmodem
crc16_xmodem_within seed [] h all = h
crc16_xmodem_within seed (value ∷ bytes) h all =
    let mixed = bit_xor seed (value * 256) in
    crc16_xmodem_within (shift_bits 8 mixed) bytes
      (shift_bits_within 8 mixed (xor_within 16 seed (value * 256) h (omega (arith, all.0)))) all.1

crc16_xmodem-append :
    (seed : ℕ) (xs ys : List ℕ)
    → crc16_xmodem seed (xs ++ ys) ≡ crc16_xmodem (crc16_xmodem seed xs) ys
unfolding crc16_xmodem
crc16_xmodem-append seed [] ys = refl
crc16_xmodem-append seed (value ∷ xs) ys =
    crc16_xmodem-append (shift_bits 8 (bit_xor seed (value * 256))) xs ys

-- The low byte reaches the top without meeting the polynomial.
shift_bits_low : (low : ℕ) → IsByte low → shift_bits 8 low ≡ low * 256
unfolding shift_bits shift_bit
shift_bits_low low h = ground arith

own_crc : (crc : ℕ) → crc < 2 ^ 16 → crc16_xmodem crc (crc / 256 ∷ crc % 256 ∷ []) ≡ 0
unfolding crc16_xmodem
own_crc crc h =
    let low = crc % 256 in
    let cleared : bit_xor crc (crc / 256 * 256) ≡ low =
      ap (λ (c : ℕ). bit_xor c (crc / 256 * 256)) (omega arith)
      ∙ xor_high 8 (crc / 256) low (omega arith) in
    let shifted : shift_bits 8 (bit_xor crc (crc / 256 * 256)) ≡ low * 256 =
      ap (shift_bits 8) cleared ∙ shift_bits_low low (omega arith) in
    let gone : bit_xor (shift_bits 8 (bit_xor crc (crc / 256 * 256))) (low * 256) ≡ 0 =
      ap (λ (c : ℕ). bit_xor c (low * 256)) shifted ∙ xor_self (low * 256) in
    ap (shift_bits 8) gone ∙ shift_bits_low 0 (omega arith)

-- Whatever the bytes are, and the 16 bits that the CRC starts from, the CRC over the bytes and their
-- own CRC, high byte first, is zero.
pub crc16_xmodem-own :
    (seed : ℕ) (bytes : List ℕ)
    → seed < 2 ^ 16
    → All IsByte bytes
    → let crc = crc16_xmodem seed bytes in
      crc16_xmodem seed (bytes ++ crc / 256 ∷ crc % 256 ∷ []) ≡ 0
crc16_xmodem-own seed bytes h all =
    let crc = crc16_xmodem seed bytes in
    crc16_xmodem-append seed bytes (crc / 256 ∷ crc % 256 ∷ [])
    ∙ own_crc crc (crc16_xmodem_within seed bytes h all)
