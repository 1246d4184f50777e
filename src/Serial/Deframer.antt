-- ===== src/Serial/Deframer.antt =====
-- src/transports/serial/serial_framing.hpp: `SerialDeframer`. Counters are 64-bit and wrap.
use smply.Prelude.{
  ℕ, zero, suc, ◌+◌, ◌-◌, ◌*◌, ◌/◌, ◌%◌, ◌^◌, Bool, true, false, ◌&&◌, ◌||◌, not, Option, none,
  some, List, [], ◌∷◌, ◌++◌, ltb, leb, ◌==◌, if◌then◌else◌, length, take, drop, get_or, max,
}
use smply.Serial.Base64.{base64_decode}
pub mod Packets
pub mod Own
use smply.Serial.Crc16.{crc16_xmodem}

pub record SerialCounters : Type 0 where
  pub ignored : ℕ
  pub crc_failures : ℕ
  pub framing_errors : ℕ
  pub packets : ℕ

pub record SerialDeframer : Type 0 where
  pub buffer : List ℕ
  pub max_packet : ℕ
  pub declared : ℕ
  pub ready : ℕ
  pub peak : ℕ
  pub counters : SerialCounters

pub data Outcome : Type 0 where
  need_more packet ignored error : Outcome

abbrev pub marker_size : ℕ
marker_size = 2

abbrev pub max_base64_per_frame : ℕ
max_base64_per_frame = 124

abbrev pub max_raw_per_frame : ℕ
max_raw_per_frame = 93

abbrev pub count_up : ℕ → ℕ
count_up n = (n + 1) % 2 ^ 64

-- `fail`: a framing error drops the packet in flight.
unfoldable pub fail_frame : SerialDeframer → Outcome × SerialDeframer
fail_frame d = (
  Outcome.error,
  record d {
    counters = record d.counters { framing_errors = count_up d.counters.framing_errors };
    buffer = [];
    declared = 0;
  },
)

unfoldable pub ignore_line : SerialDeframer → Outcome × SerialDeframer
ignore_line d = (
  Outcome.ignored,
  record d { counters = record d.counters { ignored = count_up d.counters.ignored } },
)

-- The previous packet's bytes die with the next line.
unfoldable pub drop_ready : SerialDeframer → SerialDeframer
drop_ready d = if d.ready == 0 then d else record d { buffer = []; ready = 0 }

abbrev pub append_raw : List ℕ → SerialDeframer → SerialDeframer
append_raw raw d = record d {
  buffer = d.buffer ++ raw;
  peak = max d.peak (length (d.buffer ++ raw));
}

-- The deframer with the body's bytes, or none for the source's `false`.
unfoldable pub decode_into_buffer : List ℕ → SerialDeframer → Option SerialDeframer
decode_into_buffer body d =
    if ltb max_base64_per_frame (length body)
    then none
    else elim (base64_decode body max_raw_per_frame) [
      | none ↦ none
      | some raw ↦
          if not (d.declared == 0) && ltb d.declared (length d.buffer + length raw)
          then none
          else some (append_raw raw d)
    ]

abbrev pub big_endian : List ℕ → ℕ
big_endian bytes = get_or bytes 0 0 * 256 + get_or bytes 1 0

-- The length is taken off the front of the buffer; a `false` of the source after that is still the
-- failure of the line, which empties the buffer.
unfoldable pub take_declared_length : SerialDeframer → Option SerialDeframer
take_declared_length d =
    let declared = big_endian d.buffer in
    if ltb (length d.buffer) 2
    then none
    else if leb declared 2 || ltb d.max_packet declared
    then none
    else if leb (length (drop 2 d.buffer)) declared
    then some (record d { buffer = drop 2 d.buffer; declared = declared })
    else none

-- A whole body: its CRC is checked, and stripped.
unfoldable pub finish_packet : SerialDeframer → Outcome × SerialDeframer
finish_packet d =
    if not (crc16_xmodem 0 d.buffer == 0)
    then (
      Outcome.error,
      record d {
        counters = record d.counters { crc_failures = count_up d.counters.crc_failures };
        buffer = [];
        declared = 0;
      },
    )
    else (
      Outcome.packet,
      record d {
        ready = length d.buffer - 2;
        declared = 0;
        counters = record d.counters { packets = count_up d.counters.packets };
      },
    )

unfoldable pub judge_body : SerialDeframer → Outcome × SerialDeframer
judge_body d =
    if ltb (length d.buffer) d.declared
    then (Outcome.need_more, d)
    else if ltb d.declared (length d.buffer)
    then fail_frame d
    else finish_packet d

abbrev pub has_marker : ℕ → ℕ → List ℕ → Bool
has_marker first second line = get_or line 0 0 == first && get_or line 1 0 == second

-- A line that opens a packet, and one that goes on with it. A failure empties the buffer, so what
-- the failing step had written to it does not matter.
unfoldable pub opening_line : List ℕ → SerialDeframer → Outcome × SerialDeframer
opening_line body d =
    let fresh : SerialDeframer = record d { buffer = []; declared = 0 } in
    elim (decode_into_buffer body fresh) [
      | none ↦ fail_frame fresh
      | some filled ↦ elim (take_declared_length filled) [
        | none ↦ fail_frame filled
        | some opened ↦ judge_body opened
      ]
    ]

abbrev pub is_empty : List ℕ → Bool
is_empty [] = true
is_empty (b ∷ bytes) = false

unfoldable pub fragment_line : List ℕ → SerialDeframer → Outcome × SerialDeframer
fragment_line body d =
    if is_empty d.buffer
    then fail_frame d
    else elim (decode_into_buffer body d) [ none ↦ fail_frame d | some filled ↦ judge_body filled ]

unfoldable pub feed_line : List ℕ → SerialDeframer → Outcome × SerialDeframer
feed_line line d =
    let waiting = drop_ready d in
    if ltb (length line) marker_size
    then ignore_line waiting
    else if has_marker 6 9 line
    then opening_line (drop 2 line) waiting
    else if has_marker 4 20 line
    then fragment_line (drop 2 line) waiting
    else ignore_line waiting

-- `packet()`.
unfoldable pub ready_packet : SerialDeframer → List ℕ
ready_packet d = take d.ready d.buffer

unfoldable pub reset_deframer : SerialDeframer → SerialDeframer
reset_deframer d = record d { buffer = []; declared = 0; ready = 0 }

unfoldable pub new_deframer : ℕ → SerialDeframer
new_deframer max_packet = record {
  buffer = [];
  max_packet = max_packet;
  declared = 0;
  ready = 0;
  peak = 0;
  counters = record { ignored = 0; crc_failures = 0; framing_errors = 0; packets = 0 };
}

-- The lines of a stream, one after the other.
unfoldable pub feed_lines : List (List ℕ) → SerialDeframer → SerialDeframer
feed_lines [] d = d
feed_lines (line ∷ lines) d = feed_lines lines (feed_line line d).1
