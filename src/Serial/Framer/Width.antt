-- ===== src/Serial/Framer/Width.antt =====
-- src/transports/serial/serial_framing.hpp: no frame is longer than the buffer that is asked for.
use smply.Prelude.{
  ℕ, zero, suc, ◌+◌, ◌-◌, ◌*◌, ◌≤◌, ◌≡◌, List, [], ◌∷◌, length, arith, if◌then◌else◌, take, drop,
  length-take, length-append, get_or, leb, ◌%◌, ◌/◌, ◌^◌, Bool-cases, inl, inr,
}
use smply.Serial.Base64.{base64_encode, encode_groups}
use smply.Serial.Framer.{
  SerialFramer, FramePlan, encode_group, split_budget, plan_frame, write_opening, write_triplets,
  encode_tail, open_frame, fill_frame, next_frame, max_frame,
}
use smply.Serial.Framer.Rounds.{
  split_budget_last, split_budget_going, data_start, open_frame_lem, write_triplets_lem,
}

length-base64_encode :
    (group : List ℕ) (capacity : ℕ) → length group ≤ 3 → length (base64_encode group capacity) ≤ 4
unfolding base64_encode encode_groups
length-base64_encode [] capacity short = ground arith
length-base64_encode (a ∷ []) capacity short = ground arith
length-base64_encode (a ∷ b ∷ []) capacity short = ground arith
length-base64_encode (a ∷ b ∷ c ∷ []) capacity short = ground arith
length-base64_encode (a ∷ b ∷ c ∷ d ∷ group) capacity short = absurd (omega arith)

length-encode_group :
    (group : List ℕ) (capacity : ℕ) (out : List ℕ)
    → length group ≤ 3
    → length (encode_group group capacity out) ≤ length out + 4
unfolding encode_group
length-encode_group group capacity out short =
    let room = capacity - length out in
    omega
      (arith, length-base64_encode group room short, length-append out (base64_encode group room))

length-write_triplets :
    (n capacity : ℕ) (out : List ℕ) (f : SerialFramer)
    → length (write_triplets n capacity (out, f)).0 ≤ length out + 4 * n
unfolding write_triplets
length-write_triplets zero capacity out f = ground arith
length-write_triplets (suc n) capacity out f =
    let group = take 3 (drop f.offset f.packet) in
    let after = encode_group group capacity out in
    let short : length group ≤ 3 = omega (arith, length-take 3 (drop f.offset f.packet)) in
    omega (
      arith,
      length-write_triplets n capacity after (record f { offset = f.offset + 3 }),
      length-encode_group group capacity out short,
    )

-- The characters of a tail of so many bytes, with the CRC.
abbrev tail_width : ℕ → ℕ
tail_width bytes = if leb bytes 1 then 4 else 8

length-encode_tail :
    (capacity : ℕ) (out : List ℕ) (f : SerialFramer)
    → length (encode_tail capacity (out, f)).0
      ≤ length out + tail_width (length f.packet - f.offset)
unfolding encode_tail
length-encode_tail capacity out f =
    let high = f.crc / 256 % 256 in
    let low = f.crc % 256 in
    let b0 = get_or f.packet (f.offset + 0) 0 in
    let b1 = get_or f.packet (f.offset + 1) 0 in
    let three = b0 ∷ b1 ∷ high ∷ [] in
    ground (
      arith,
      length-encode_group (high ∷ low ∷ []) capacity out (omega arith),
      length-encode_group (b0 ∷ high ∷ low ∷ []) capacity out (omega arith),
      length-encode_group three capacity out (omega arith),
      length-encode_group (low ∷ []) capacity (encode_group three capacity out) (omega arith),
    )

length-open_frame :
    (capacity : ℕ) (f : SerialFramer)
    → length (open_frame capacity f).0 ≤ (if f.first then 6 else 2)
unfolding open_frame write_opening
length-open_frame capacity f =
    let declared = (length f.packet + 2) % 2 ^ 16 in
    let group = declared / 256 % 256 ∷ declared % 256 ∷ get_or f.packet 0 0 ∷ [] in
    ground (arith, length-encode_group group capacity (6 ∷ 9 ∷ []) (omega arith))

length-fill_frame :
    (plan : FramePlan) (capacity : ℕ) (f : SerialFramer)
    → length (fill_frame plan capacity f).0
      ≤ (if f.first then 6 else 2)
        + 4 * plan.triplets
        + (if plan.carries_crc
            then tail_width (length f.packet - (data_start f + 3 * plan.triplets))
            else 0)
unfolding fill_frame
length-fill_frame plan capacity f =
    let (out, opened) = open_frame capacity f in
    let (more, filled) = write_triplets plan.triplets capacity (out, opened) in
    ground (
      arith,
      length-open_frame capacity f,
      open_frame_lem capacity f,
      write_triplets_lem plan.triplets capacity out opened,
      length-write_triplets plan.triplets capacity out opened,
      length-encode_tail capacity more filled,
    )

-- The characters of the planned groups and of the tail fit beside the marker and the newline.
planned_width :
    (size : ℕ) (f : SerialFramer)
    → let plan = plan_frame size f.offset f.first in
      (if f.first then 6 else 2)
        + 4 * plan.triplets
        + (if plan.carries_crc then tail_width (size - (data_start f + 3 * plan.triplets)) else 0)
      ≤ 126
unfolding plan_frame
planned_width size f =
    let budget = if f.first then 90 else 93 in
    let rest = size - data_start f in
    let plan = split_budget budget rest in
    let planned : plan_frame size f.offset f.first ≡ plan = ground arith in
    elim (Bool-cases plan.carries_crc) [
      | inl last ↦ ground (arith, planned, last, split_budget_last budget rest last)
      | inr going ↦
          ground (arith, planned, going, split_budget_going budget rest (ground arith) going)
    ]

-- Whatever the framer and the buffer, a call of `next_frame` writes no more than the 127 bytes that
-- it asks the buffer for.
pub length-next_frame :
    (capacity : ℕ) (f : SerialFramer) → length (next_frame capacity f).0 ≤ max_frame
unfolding next_frame
length-next_frame capacity f =
    let plan = plan_frame (length f.packet) f.offset f.first in
    ground (
      arith,
      length-fill_frame plan capacity f,
      planned_width (length f.packet) f,
      length-append (fill_frame plan capacity f).0 (10 ∷ []),
    )
