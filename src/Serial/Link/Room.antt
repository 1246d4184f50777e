-- ===== src/Serial/Link/Room.antt =====
-- src/transports/serial_port/serial_link.hpp: the buffer of `frame_message` has room for each frame.
use smply.Prelude.{
  ℕ, zero, suc, ◌+◌, ◌-◌, ◌*◌, ◌≤◌, ◌<◌, ◌≡◌, true, List, [], ◌++◌, length, length-append, arith,
  ltb, inl, inr, Bool-cases,
}
use smply.Serial.Framer.{
  SerialFramer, new_framer, max_frame, is_done, next_frame, count_from, count,
}
use smply.Serial.Framer.Rounds.{next_frame_lem, next_offset_lem}
use smply.Serial.Framer.Width.{length-next_frame}
use smply.Serial.Link.{write_frames, run_framer}

write_frames_lem :
    (fuel size : ℕ) (out : List ℕ) (f : SerialFramer)
    → length f.packet ≤ f.offset + fuel
    → length out + count_from fuel (length f.packet) f.offset f.first * max_frame ≤ size
    → (is_done (write_frames fuel size out f).1 ≡ true)
      × length (write_frames fuel size out f).0 ≤ size
unfolding write_frames count_from is_done
write_frames_lem zero size out f enough room = ground arith
write_frames_lem (suc fuel) size out f enough room =
    elim (Bool-cases (ltb f.offset (length f.packet))) [
      | inr over ↦ ground (arith, over)
      | inl going ↦
          let inside : f.offset < length f.packet = ground (arith, going) in
          let capacity = size - length out in
          let wide : max_frame ≤ capacity = ground (arith, going) in
          let (frame, after) = next_frame capacity f in
          let moved = next_frame_lem capacity f wide inside in
          let further = next_offset_lem (length f.packet) f.offset f.first inside in
          let written = length-append out frame in
          ground (
            arith,
            inside,
            moved,
            write_frames_lem fuel size (out ++ frame) after (ground (arith, moved, further))
                (ground (arith, moved, going, written, length-next_frame capacity f)),
          )
    ]

-- The buffer that `frame_message` reserves, 127 bytes for each frame that `count` tells, has room
-- for whatever message: its loop ends with the framer done, with no more rounds than the packet has
-- bytes, and has then written no more bytes than the buffer has.
pub run_framer_lem :
    (message : List ℕ)
    → let f = new_framer message in
      let (out, last) = run_framer message in
      (is_done last ≡ true) × length out ≤ count f * max_frame
unfolding run_framer new_framer count
run_framer_lem message =
    let f = new_framer message in
    write_frames_lem (length f.packet) (count f * max_frame) [] f (omega arith) (omega arith)
