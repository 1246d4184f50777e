-- ===== src/Serial/Link.antt =====
-- src/transports/serial_port/serial_link.hpp: `frame_message` and `SerialInbound`. A packet that
-- the callback gets is in the list of packets.
use smply.Prelude.{
  ℕ, zero, suc, ◌+◌, ◌-◌, ◌*◌, Bool, true, false, Option, none, some, List, [], ◌∷◌, ◌++◌,
  if◌then◌else◌, length,
}
use smply.Serial.Splitter.{LineSplitter, next_line, reset}
use smply.Serial.Deframer.{SerialDeframer, Outcome, feed_line, ready_packet, reset_deframer}
use smply.Serial.Framer.{SerialFramer, max_frame, new_framer, is_done, next_frame, count}
pub mod Room
pub mod Chunks

-- The loop that writes each frame into its place of a buffer of the size.
unfoldable pub write_frames : ℕ → ℕ → List ℕ → SerialFramer → List ℕ × SerialFramer
write_frames zero size out f = (out, f)
write_frames (suc fuel) size out f =
    let (frame, after) = next_frame (size - length out) f in
    let rest = write_frames fuel size (out ++ frame) after in if is_done f then (out, f) else rest

-- The bytes written, and the framer after the loop. A round takes a byte of the packet or more.
unfoldable pub run_framer : List ℕ → List ℕ × SerialFramer
run_framer message =
    let f = new_framer message in write_frames (length f.packet) (count f * max_frame) [] f

unfoldable pub frame_message : List ℕ → List ℕ
frame_message message = (run_framer message).0

pub record SerialInbound : Type 0 where
  pub splitter : LineSplitter
  pub deframer : SerialDeframer

abbrev pub is_packet : Outcome → Bool
is_packet Outcome.packet = true
is_packet Outcome.need_more = false
is_packet Outcome.ignored = false
is_packet Outcome.error = false

abbrev pub with_packet : Outcome × SerialDeframer → List (List ℕ) → List (List ℕ)
with_packet (outcome, d) packets = if is_packet outcome then ready_packet d ∷ packets else packets

-- `feed`, on fuel for the lines of the chunk.
unfoldable pub feed_lines_of : ℕ → List ℕ → SerialInbound → List (List ℕ) × SerialInbound
feed_lines_of zero chunk r = ([], r)
feed_lines_of (suc fuel) chunk r =
    let (found, after, rest) = next_line chunk r.splitter in
    elim found [
      | none ↦ ([], record r { splitter = after })
      | some line ↦
          let fed = feed_line line r.deframer in
          let (packets, last) =
            feed_lines_of fuel rest (record { splitter = after; deframer = fed.1 }) in
          (with_packet fed packets, last)
    ]

-- A line takes a byte of the chunk, so there are fewer lines than rounds.
unfoldable pub feed_chunk : List ℕ → SerialInbound → List (List ℕ) × SerialInbound
feed_chunk chunk r = feed_lines_of (suc (length chunk)) chunk r

unfoldable pub reset_inbound : SerialInbound → SerialInbound
reset_inbound r = record { splitter = reset r.splitter; deframer = reset_deframer r.deframer }
