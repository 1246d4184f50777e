-- ===== src/Serial/Tests.antt =====
-- Runs of the serial framing.
use smply.Prelude.{◌*◌, ℕ, ◌≤◌, ◌≡◌, refl, true, false, length, some, List, [], ◌∷◌, ◌++◌, arith}
use smply.Serial.Base64.{
  base64_encoded_size, base64_max_decoded_size, alphabet, symbol_at, value_from, base64_value,
  encode_groups, base64_encode, decode_last, decode_third, decode_second, decode_quartet,
  decode_quartets, base64_decode,
}
use smply.Serial.Base64.RoundTrip.{base64_decode-base64_encode}
use smply.Serial.Crc16.{shift_bit, shift_bits, crc16_xmodem}
use smply.Serial.Splitter.{
  LineSplitter, take_byte, without_return, end_line, split_byte, next_line, next_lines,
}
use smply.Serial.Deframer.{
  SerialDeframer, ready_packet, Outcome, drop_ready, decode_into_buffer, take_declared_length,
  finish_packet, judge_body, opening_line, feed_line, new_deframer, feed_lines,
}
use smply.Serial.Deframer.Packets.{Handed, feed_line-Handed}
use smply.Serial.Deframer.Own.{with_crc, judge_body-with_crc}
use smply.Serial.Framer.{
  max_frame, split_budget, plan_frame, new_framer, is_done, encode_group, write_opening,
  write_triplets, encode_tail, open_frame, fill_frame, next_frame, count,
}
use smply.Serial.Framer.Width.{length-next_frame}
use smply.Serial.Link.{run_framer, SerialInbound, feed_chunk}
use smply.Serial.Link.Room.{run_framer_lem}
use smply.Serial.Link.Chunks.{feed_chunk-append}

-- "hello" as base64.
hello :
    base64_encode (104 ∷ 101 ∷ 108 ∷ 108 ∷ 111 ∷ []) 8 ≡ 97 ∷ 71 ∷ 86 ∷ 115 ∷ 98 ∷ 71 ∷ 56 ∷ 61 ∷ []
unfolding base64_encode base64_encoded_size encode_groups symbol_at alphabet
hello = refl

base64_decode-base64_encode_example :
    base64_decode (base64_encode (104 ∷ 101 ∷ 108 ∷ 108 ∷ 111 ∷ []) 8) 6
    ≡ some (104 ∷ 101 ∷ 108 ∷ 108 ∷ 111 ∷ [])
unfolding base64_encode base64_encoded_size encode_groups base64_max_decoded_size
base64_decode-base64_encode_example =
    base64_decode-base64_encode (104 ∷ 101 ∷ 108 ∷ 108 ∷ 111 ∷ []) 8 6 (omega arith) (omega arith)
      (omega arith)

-- The check value that is published for "123456789".
check_value : crc16_xmodem 0 (49 ∷ 50 ∷ 51 ∷ 52 ∷ 53 ∷ 54 ∷ 55 ∷ 56 ∷ 57 ∷ []) ≡ 12739
unfolding crc16_xmodem shift_bits shift_bit
check_value = refl

abbrev fresh : LineSplitter
fresh = record { line = []; max_line = 4; dropped = 0; discarding = false }

-- A line with a carriage return, a line that is too long and one in two pieces.
two_chunks :
    (next_lines 12 (65 ∷ 13 ∷ 10 ∷ 1 ∷ 2 ∷ 3 ∷ 4 ∷ 5 ∷ 10 ∷ 66 ∷ []) fresh).0 ≡ (65 ∷ []) ∷ []
unfolding next_lines next_line split_byte end_line take_byte without_return
two_chunks = refl

-- The packet of the one byte 65 with its length, 3, and its CRC, 0x58e5.
abbrev one_byte_line : List ℕ
one_byte_line = 6 ∷ 9 ∷ 65 ∷ 65 ∷ 78 ∷ 66 ∷ 87 ∷ 79 ∷ 85 ∷ 61 ∷ []

completes : (feed_line one_byte_line (new_deframer 100)).0 ≡ Outcome.packet
unfolding feed_line drop_ready opening_line decode_into_buffer take_declared_length judge_body
    finish_packet new_deframer base64_decode base64_max_decoded_size decode_quartets decode_quartet
    decode_second decode_third decode_last base64_value value_from alphabet crc16_xmodem shift_bits
    shift_bit
completes = refl

feed_line-Handed_example :
    Handed 100 (feed_line one_byte_line (feed_lines (one_byte_line ∷ []) (new_deframer 100)))
feed_line-Handed_example = feed_line-Handed 100 (one_byte_line ∷ []) one_byte_line

-- The framer writes that line.
one_byte_frame : (next_frame 127 (new_framer (65 ∷ []))).0 ≡ one_byte_line ++ 10 ∷ []
unfolding next_frame fill_frame open_frame write_opening write_triplets encode_tail encode_group
    plan_frame split_budget is_done new_framer base64_encode base64_encoded_size encode_groups
    symbol_at alphabet crc16_xmodem shift_bits shift_bit
one_byte_frame = refl

length-next_frame_example : length (next_frame 127 (new_framer (65 ∷ []))).0 ≤ max_frame
length-next_frame_example = length-next_frame 127 (new_framer (65 ∷ []))

run_framer_lem_example :
    let f = new_framer (65 ∷ 66 ∷ 67 ∷ []) in
    let (out, last) = run_framer (65 ∷ 66 ∷ 67 ∷ []) in
    (is_done last ≡ true) × length out ≤ count f * max_frame
run_framer_lem_example = run_framer_lem (65 ∷ 66 ∷ 67 ∷ [])

abbrev idle : SerialInbound
idle = record { splitter = fresh; deframer = new_deframer 100 }

feed_chunk-append_example :
    let (packets, middle) = feed_chunk (6 ∷ 9 ∷ 65 ∷ []) idle in
    let (more, last) = feed_chunk (65 ∷ 10 ∷ []) middle in
    feed_chunk (6 ∷ 9 ∷ 65 ∷ 65 ∷ 10 ∷ []) idle ≡ (packets ++ more, last)
feed_chunk-append_example = feed_chunk-append (6 ∷ 9 ∷ 65 ∷ []) (65 ∷ 10 ∷ []) idle

abbrev one_body : SerialDeframer
one_body = record (new_deframer 100) { buffer = with_crc (65 ∷ []); declared = 3 }

judge_body-with_crc_example :
    let (outcome, after) = judge_body one_body in
    (outcome ≡ Outcome.packet) × (ready_packet after ≡ 65 ∷ [])
judge_body-with_crc_example = judge_body-with_crc (65 ∷ []) one_body (omega arith, tt) refl refl
