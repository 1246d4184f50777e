-- ===== src/Serial/Framer/Rounds.antt =====
-- src/transports/serial/serial_framing.hpp: what one frame takes of the packet.
use smply.Prelude.{
  ℕ, zero, suc, ◌+◌, ◌-◌, ◌*◌, ◌≤◌, ◌<◌, ◌≡◌, Bool, true, false, List, length, arith, if◌then◌else◌,
  take, drop, Bool-cases, inl, inr,
}
use smply.Serial.Framer.{
  SerialFramer, FramePlan, encode_group, split_budget, plan_frame, is_done, write_opening,
  write_triplets, encode_tail, open_frame, fill_frame, next_frame, next_offset, max_frame,
}

-- The offset moves by three for a triplet; the rest of the framer stays.
pub write_triplets_lem :
    (n capacity : ℕ) (out : List ℕ) (f : SerialFramer)
    → (write_triplets n capacity (out, f)).1 ≡ record f { offset = f.offset + 3 * n }
unfolding write_triplets
write_triplets_lem zero capacity out f = ground arith
write_triplets_lem (suc n) capacity out f =
    let out_after = encode_group (take 3 (drop f.offset f.packet)) capacity out in
    ground (arith, write_triplets_lem n capacity out_after (record f { offset = f.offset + 3 }))

pub open_frame_lem :
    (capacity : ℕ) (f : SerialFramer)
    → (open_frame capacity f).1 ≡ record f { offset = if f.first then f.offset + 1 else f.offset }
unfolding open_frame write_opening
open_frame_lem capacity f = ground arith

-- A frame with the CRC leaves two bytes at most to its tail, and takes the packet to its end.
encode_tail_lem :
    (capacity : ℕ) (out : List ℕ) (f : SerialFramer)
    → length f.packet - f.offset ≤ 2
    → f.offset ≤ length f.packet
    → (encode_tail capacity (out, f)).1 ≡ record f { offset = length f.packet }
unfolding encode_tail
encode_tail_lem capacity out f short inside = ground arith

-- The CRC is with the last bytes when two or more bytes of the frame are left for it.
pub split_budget_last :
    (budget rest : ℕ)
    → (split_budget budget rest).carries_crc ≡ true
    → (split_budget budget rest).triplets * 3 ≤ rest
      × rest - (split_budget budget rest).triplets * 3 ≤ 2
      × rest + 2 ≤ budget
unfolding split_budget
split_budget_last budget rest last = ground arith

pub split_budget_going :
    (budget rest : ℕ)
    → 90 ≤ budget
    → (split_budget budget rest).carries_crc ≡ false
    → 29 ≤ (split_budget budget rest).triplets
      × (split_budget budget rest).triplets * 3 < rest + 1
      × (split_budget budget rest).triplets * 3 ≤ budget
unfolding split_budget
split_budget_going budget rest wide going = ground arith

-- Where the data of a frame starts: its opening has taken a byte.
abbrev pub data_start : SerialFramer → ℕ
data_start f = if f.first then f.offset + 1 else f.offset

fill_frame-going :
    (plan : FramePlan) (capacity : ℕ) (f : SerialFramer)
    → plan.carries_crc ≡ false
    → (fill_frame plan capacity f).1 ≡ record f { offset = data_start f + 3 * plan.triplets }
unfolding fill_frame
fill_frame-going plan capacity f going =
    let (out, opened) = open_frame capacity f in
    ground (
      arith,
      going,
      open_frame_lem capacity f,
      write_triplets_lem plan.triplets capacity out opened,
    )

fill_frame-last :
    (plan : FramePlan) (capacity : ℕ) (f : SerialFramer)
    → plan.carries_crc ≡ true
    → data_start f + plan.triplets * 3 ≤ length f.packet
    → length f.packet - (data_start f + plan.triplets * 3) ≤ 2
    → (fill_frame plan capacity f).1 ≡ record f { offset = length f.packet }
unfolding fill_frame
fill_frame-last plan capacity f last inside short =
    let (out, opened) = open_frame capacity f in
    let (more, filled) = write_triplets plan.triplets capacity (out, opened) in
    let at_tail : filled ≡ record f { offset = data_start f + 3 * plan.triplets } =
      ground
        (arith, open_frame_lem capacity f, write_triplets_lem plan.triplets capacity out opened) in
    ground (
      arith,
      last,
      at_tail,
      encode_tail_lem capacity more filled (ground (arith, at_tail)) (ground (arith, at_tail)),
    )

-- ... which is further on, and no further than the packet's end.
pub next_offset_lem :
    (size off : ℕ) (first : Bool)
    → off < size
    → off < next_offset size off first × next_offset size off first ≤ size
unfolding next_offset plan_frame
next_offset_lem size off true inside =
    elim (Bool-cases (split_budget 90 (size - (off + 1))).carries_crc) [
      | inl last ↦ ground (arith, last, split_budget_last 90 (size - (off + 1)) last)
      | inr going ↦
          ground (arith, going, split_budget_going 90 (size - (off + 1)) (omega arith) going)
    ]
next_offset_lem size off false inside =
    elim (Bool-cases (split_budget 93 (size - off)).carries_crc) [
      | inl last ↦ ground (arith, last, split_budget_last 93 (size - off) last)
      | inr going ↦ ground (arith, going, split_budget_going 93 (size - off) (omega arith) going)
    ]

-- A frame of a packet that is not at its end ends where a round of `count` does.
fill_frame_lem :
    (capacity : ℕ) (f : SerialFramer)
    → f.offset < length f.packet
    → (fill_frame (plan_frame (length f.packet) f.offset f.first) capacity f).1
      ≡ record f { offset = next_offset (length f.packet) f.offset f.first }
unfolding plan_frame next_offset
fill_frame_lem capacity f inside =
    let budget = if f.first then 90 else 93 in
    let rest = length f.packet - data_start f in
    let plan = split_budget budget rest in
    let planned : plan_frame (length f.packet) f.offset f.first ≡ plan = ground arith in
    elim (Bool-cases plan.carries_crc) [
      | inl last ↦
          let fits = split_budget_last budget rest last in
          ground (
            arith,
            last,
            planned,
            fill_frame-last plan capacity f last (ground (arith, fits)) (ground (arith, fits)),
          )
      | inr going ↦ ground (arith, going, planned, fill_frame-going plan capacity f going)
    ]

-- `next_frame` with room for a frame.
pub next_frame_lem :
    (capacity : ℕ) (f : SerialFramer)
    → max_frame ≤ capacity
    → f.offset < length f.packet
    → (next_frame capacity f).1
      ≡ record f { offset = next_offset (length f.packet) f.offset f.first; first = false }
unfolding next_frame is_done
next_frame_lem capacity f room inside = ground (arith, fill_frame_lem capacity f inside)
