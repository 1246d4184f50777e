-- ===== src/Serial/Deframer/Own.antt =====
-- src/transports/serial/serial_framing.hpp: the body that a sender frames is handed out.
use smply.Prelude.{
  ℕ, ◌+◌, ◌-◌, ◌/◌, ◌%◌, ◌≡◌, List, [], ◌∷◌, ◌++◌, length, length-append, take, take-append, IsByte,
  All, arith, ap, ◌∙◌,
}
use smply.Serial.Crc16.{crc16_xmodem}
use smply.Serial.Crc16.Residue.{crc16_xmodem-own}
use smply.Serial.Deframer.{SerialDeframer, Outcome, finish_packet, judge_body, ready_packet}

-- The body of a packet: the packet and its CRC, high byte first.
abbrev pub with_crc : List ℕ → List ℕ
with_crc packet = let crc = crc16_xmodem 0 packet in packet ++ crc / 256 ∷ crc % 256 ∷ []

-- Whatever bytes a packet is made of, a body that is the packet and its CRC, and that has the
-- declared length, completes the packet, which is handed out as it was sent.
pub judge_body-with_crc :
    (packet : List ℕ) (d : SerialDeframer)
    → All IsByte packet
    → d.buffer ≡ with_crc packet
    → d.declared ≡ length packet + 2
    → let (outcome, after) = judge_body d in
      (outcome ≡ Outcome.packet) × (ready_packet after ≡ packet)
unfolding judge_body finish_packet ready_packet
judge_body-with_crc packet d bytes whole declared =
    let crc = crc16_xmodem 0 packet in
    let tail = crc / 256 ∷ crc % 256 ∷ [] in
    let size : length d.buffer ≡ length packet + 2 = ap length whole ∙ length-append packet tail in
    let residue : crc16_xmodem 0 d.buffer ≡ 0 =
      ap (crc16_xmodem 0) whole ∙ crc16_xmodem-own 0 packet (omega arith) bytes in
    let front : take (length d.buffer - 2) d.buffer ≡ packet =
      ap (take (length d.buffer - 2)) whole ∙ take-append packet tail (omega (arith, size)) in
    ground (arith, declared, size, residue, front)
