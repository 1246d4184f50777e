-- ===== src/Serial/Deframer/Packets.antt =====
-- src/transports/serial/serial_framing.hpp: which bytes become a packet.
use smply.Prelude.{
  ℕ, ◌+◌, ◌≤◌, ◌<◌, ◌≡◌, false, some, inl, inr, List, [], ◌∷◌, length, drop, arith, Option-cases,
  Bool-cases,
}
use smply.Serial.Crc16.{crc16_xmodem}
use smply.Serial.Deframer.{
  SerialDeframer, Outcome, fail_frame, ignore_line, drop_ready, decode_into_buffer,
  take_declared_length, finish_packet, judge_body, opening_line, fragment_line, feed_line, is_empty,
  new_deframer, feed_lines,
}

-- The declared length of a packet in flight is one that is accepted.
pub record InFlight (limit : ℕ) (d : SerialDeframer) : Type 0 where
  pub limited : d.max_packet ≡ limit
  pub longer : 0 < d.declared → 2 < d.declared
  pub within : d.declared ≤ d.max_packet
  pub opened : is_empty d.buffer ≡ false → d.ready ≡ 0 → 0 < d.declared
  pub handed : 0 < d.ready → d.declared ≡ 0

-- What holds when a line ends a packet.
abbrev pub Handed : ℕ → Outcome × SerialDeframer → Type 0
Handed limit (outcome, d) =
    outcome ≡ Outcome.packet
    → (crc16_xmodem 0 d.buffer ≡ 0)
      × (2 < length d.buffer)
      × (length d.buffer ≤ limit)
      × (d.ready + 2 ≡ length d.buffer)

fail_frame-InFlight :
    (limit : ℕ) (d : SerialDeframer)
    → d.max_packet ≡ limit
    → d.ready ≡ 0
    → InFlight limit (fail_frame d).1 × Handed limit (fail_frame d)
unfolding fail_frame
fail_frame-InFlight limit d limited idle = ground arith

judge_body-InFlight :
    (limit : ℕ) (d : SerialDeframer)
    → InFlight limit d
    → 0 < d.declared
    → d.ready ≡ 0
    → InFlight limit (judge_body d).1 × Handed limit (judge_body d)
unfolding judge_body finish_packet fail_frame
judge_body-InFlight limit d f opened idle = ground arith

decode_into_buffer_keeps :
    (body : List ℕ) (d e : SerialDeframer)
    → decode_into_buffer body d ≡ some e
    → (e.declared ≡ d.declared) × (e.ready ≡ d.ready) × (e.max_packet ≡ d.max_packet)
unfolding decode_into_buffer
decode_into_buffer_keeps body d e h = ground (arith, h)

take_declared_length_lem :
    (d e : SerialDeframer)
    → take_declared_length d ≡ some e
    → (2 < e.declared)
      × (e.declared ≤ e.max_packet)
      × (e.ready ≡ d.ready)
      × (e.max_packet ≡ d.max_packet)
unfolding take_declared_length
take_declared_length_lem d e h = ground (arith, h)

drop_ready-InFlight :
    (limit : ℕ) (d : SerialDeframer)
    → InFlight limit d
    → InFlight limit (drop_ready d) × ((drop_ready d).ready ≡ 0)
unfolding drop_ready
drop_ready-InFlight limit d f = ground (arith, f)

opening_line-InFlight :
    (limit : ℕ) (body : List ℕ) (d : SerialDeframer)
    → d.max_packet ≡ limit
    → d.ready ≡ 0
    → InFlight limit (opening_line body d).1 × Handed limit (opening_line body d)
unfolding opening_line
opening_line-InFlight limit body d limited idle =
    let fresh : SerialDeframer = record d { buffer = []; declared = 0 } in
    elim (Option-cases (decode_into_buffer body fresh)) [
      | inl bad ↦ rw (bad, opening_line) (fail_frame-InFlight limit fresh limited idle)
      | inr (filled, decoded) ↦
          let kept = decode_into_buffer_keeps body fresh filled decoded in
          elim (Option-cases (take_declared_length filled)) [
            | inl short ↦
                rw (decoded, short, opening_line)
                  (fail_frame-InFlight limit filled (ground (arith, kept, limited))
                    (ground (arith, kept, idle)))
            | inr (opened, taken) ↦
                let fits = take_declared_length_lem filled opened taken in
                let still : opened.ready ≡ 0 = ground (arith, kept, fits, idle) in
                rw (decoded, taken, opening_line)
                  (judge_body-InFlight limit opened (ground (arith, fits, still, kept, limited))
                    (omega (arith, fits)) still)
          ]
    ]

fragment_line-InFlight :
    (limit : ℕ) (body : List ℕ) (d : SerialDeframer)
    → InFlight limit d
    → d.ready ≡ 0
    → InFlight limit (fragment_line body d).1 × Handed limit (fragment_line body d)
unfolding fragment_line
fragment_line-InFlight limit body d f idle = elim (Bool-cases (is_empty d.buffer)) [
  | inl empty ↦ rw (empty, fragment_line) (fail_frame-InFlight limit d f.limited idle)
  | inr going ↦ elim (Option-cases (decode_into_buffer body d)) [
    | inl bad ↦ rw (going, bad, fragment_line) (fail_frame-InFlight limit d f.limited idle)
    | inr (filled, decoded) ↦
        let kept = decode_into_buffer_keeps body d filled decoded in
        let opened : 0 < d.declared = f.opened going idle in
        rw (going, decoded, fragment_line)
          (judge_body-InFlight limit filled (ground (arith, kept, f, opened))
            (ground (arith, kept, opened)) (ground (arith, kept, idle)))
  ]
]

ignore_line-InFlight :
    (limit : ℕ) (d : SerialDeframer)
    → InFlight limit d
    → InFlight limit (ignore_line d).1 × Handed limit (ignore_line d)
unfolding ignore_line
ignore_line-InFlight limit d f = ground (arith, f)

feed_line-InFlight :
    (limit : ℕ) (line : List ℕ) (d : SerialDeframer)
    → InFlight limit d
    → InFlight limit (feed_line line d).1 × Handed limit (feed_line line d)
unfolding feed_line
feed_line-InFlight limit line d f =
    let (waiting, idle) = drop_ready-InFlight limit d f in
    ground (
      arith,
      ignore_line-InFlight limit (drop_ready d) waiting,
      opening_line-InFlight limit (drop 2 line) (drop_ready d) waiting.limited idle,
      fragment_line-InFlight limit (drop 2 line) (drop_ready d) waiting idle,
    )

new_deframer-InFlight : (max_packet : ℕ) → InFlight max_packet (new_deframer max_packet)
unfolding new_deframer
new_deframer-InFlight max_packet = ground arith

feed_lines-InFlight :
    (limit : ℕ) (lines : List (List ℕ)) (d : SerialDeframer)
    → InFlight limit d
    → InFlight limit (feed_lines lines d)
unfolding feed_lines
feed_lines-InFlight limit [] d f = f
feed_lines-InFlight limit (line ∷ lines) d f =
    feed_lines-InFlight limit lines (feed_line line d).1 (feed_line-InFlight limit line d f).0

-- Whatever lines came before, a line completes a packet only when the CRC over the whole body is
-- zero, the body is longer than its CRC and no longer than the limit, and what is handed out is the
-- body without the two bytes of the CRC.
pub feed_line-Handed :
    (max_packet : ℕ) (lines : List (List ℕ)) (line : List ℕ)
    → Handed max_packet (feed_line line (feed_lines lines (new_deframer max_packet)))
feed_line-Handed max_packet lines line =
    (feed_line-InFlight max_packet line (feed_lines lines (new_deframer max_packet)) (
      feed_lines-InFlight max_packet lines (new_deframer max_packet)
        (new_deframer-InFlight max_packet))).1
