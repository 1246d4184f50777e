-- ===== src/Serial/Crc16.antt =====
-- src/transports/serial/crc16.hpp: CRC-16/XMODEM, bit by bit.
use Prim.Native.Nat.{bit_xor}
pub mod Residue
use smply.Prelude.{ℕ, zero, suc, ◌*◌, ◌%◌, leb, if◌then◌else◌, List, [], ◌∷◌}

-- A shift to the left in 16 bits, with the polynomial for the bit that is shifted out.
unfoldable pub shift_bit : ℕ → ℕ
shift_bit crc =
    let shifted = crc * 2 % 65536 in if leb 32768 crc then bit_xor shifted 4129 else shifted

unfoldable pub shift_bits : ℕ → ℕ → ℕ
shift_bits zero crc = crc
shift_bits (suc count) crc = shift_bits count (shift_bit crc)

unfoldable pub crc16_xmodem : ℕ → List ℕ → ℕ
crc16_xmodem crc [] = crc
crc16_xmodem crc (value ∷ bytes) = crc16_xmodem (shift_bits 8 (bit_xor crc (value * 256))) bytes
