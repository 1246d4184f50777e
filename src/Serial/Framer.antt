-- ===== src/Serial/Framer.antt =====
-- src/transports/serial/serial_framing.hpp: `plan_frame` and `SerialFramer`. The buffer that a
-- frame is written to is its capacity and the bytes written.
use smply.Prelude.{
  ℕ, zero, suc, ◌+◌, ◌-◌, ◌*◌, ◌/◌, ◌%◌, ◌^◌, Bool, true, false, ◌&&◌, ◌||◌, not, List, [], ◌∷◌,
  ◌++◌, ltb, leb, ◌==◌, if◌then◌else◌, length, take, drop, get_or, min,
}
use smply.Serial.Base64.{base64_encode}
use smply.Serial.Crc16.{crc16_xmodem}
use smply.Serial.Deframer.{max_raw_per_frame}
pub mod Rounds
pub mod Width

pub record FramePlan : Type 0 where
  pub triplets : ℕ
  pub carries_crc : Bool

pub record SerialFramer : Type 0 where
  pub packet : List ℕ
  pub crc : ℕ
  pub offset : ℕ
  pub first : Bool

abbrev pub max_frame : ℕ
max_frame = 127

abbrev pub max_serial_packet : ℕ
max_serial_packet = 65533

abbrev packet_marker : List ℕ
packet_marker = 6 ∷ 9 ∷ []

abbrev fragment_marker : List ℕ
fragment_marker = 4 ∷ 20 ∷ []

-- What is left for a frame of so many raw bytes: one byte stays for the next frame when the CRC
-- would not fit whole.
unfoldable pub split_budget : ℕ → ℕ → FramePlan
split_budget budget rest =
    let to_process = min rest budget in
    if leb rest budget
    then if leb (budget - rest) 1
      then record { triplets = (to_process - 1) / 3; carries_crc = false }
      else record { triplets = to_process / 3; carries_crc = true }
    else record { triplets = to_process / 3; carries_crc = false }

unfoldable pub plan_frame : ℕ → ℕ → Bool → FramePlan
plan_frame packet_size offset first =
    if first
    then split_budget (max_raw_per_frame - 3) (packet_size - (offset + 1))
    else split_budget max_raw_per_frame (packet_size - offset)

unfoldable pub new_framer : List ℕ → SerialFramer
new_framer message =
    let packet = if ltb max_serial_packet (length message) then [] else message in
    record { packet = packet; crc = crc16_xmodem 0 packet; offset = 0; first = true }

unfoldable pub is_done : SerialFramer → Bool
is_done f = leb (length f.packet) f.offset

-- `encode_group` into what is left of the buffer.
unfoldable pub encode_group : List ℕ → ℕ → List ℕ → List ℕ
encode_group group capacity out = out ++ base64_encode group (capacity - length out)

-- The length is in two bytes, with the first byte of the packet.
unfoldable pub write_opening : ℕ → List ℕ × SerialFramer → List ℕ × SerialFramer
write_opening capacity (out, f) =
    let declared = (length f.packet + 2) % 2 ^ 16 in
    (
      encode_group (declared / 256 % 256 ∷ declared % 256 ∷ get_or f.packet 0 0 ∷ []) capacity out,
      record f { offset = f.offset + 1 },
    )

unfoldable pub write_triplets : ℕ → ℕ → List ℕ × SerialFramer → List ℕ × SerialFramer
write_triplets zero capacity (out, f) = (out, f)
write_triplets (suc count) capacity (out, f) = write_triplets count capacity (
  encode_group (take 3 (drop f.offset f.packet)) capacity out,
  record f { offset = f.offset + 3 },
)

abbrev crc_high : SerialFramer → ℕ
crc_high f = f.crc / 256 % 256

abbrev crc_low : SerialFramer → ℕ
crc_low f = f.crc % 256

abbrev byte_ahead : SerialFramer → ℕ → ℕ
byte_ahead f ahead = get_or f.packet (f.offset + ahead) 0

-- The one or two bytes that are left, if any, and the CRC.
unfoldable pub encode_tail : ℕ → List ℕ × SerialFramer → List ℕ × SerialFramer
encode_tail capacity (out, f) =
    let tail = length f.packet - f.offset in
    if tail == 0
    then (encode_group (crc_high f ∷ crc_low f ∷ []) capacity out, f)
    else if tail == 1
    then (
      encode_group (byte_ahead f 0 ∷ crc_high f ∷ crc_low f ∷ []) capacity out,
      record f { offset = f.offset + 1 },
    )
    else (
      encode_group (crc_low f ∷ []) capacity
          (encode_group (byte_ahead f 0 ∷ byte_ahead f 1 ∷ crc_high f ∷ []) capacity out),
      record f { offset = f.offset + 2 },
    )

-- The three parts of a frame between its marker and its newline.
unfoldable pub open_frame : ℕ → SerialFramer → List ℕ × SerialFramer
open_frame capacity f =
    if f.first then write_opening capacity (packet_marker, f) else (fragment_marker, f)

unfoldable pub fill_frame : FramePlan → ℕ → SerialFramer → List ℕ × SerialFramer
fill_frame plan capacity f =
    let filled = write_triplets plan.triplets capacity (open_frame capacity f) in
    if plan.carries_crc then encode_tail capacity filled else filled

unfoldable pub next_frame : ℕ → SerialFramer → List ℕ × SerialFramer
next_frame capacity f =
    let (out, after) = fill_frame (plan_frame (length f.packet) f.offset f.first) capacity f in
    if is_done f || ltb capacity max_frame
    then ([], f)
    else (out ++ 10 ∷ [], record after { first = false })

-- Where a round of `count` ends.
unfoldable pub next_offset : ℕ → ℕ → Bool → ℕ
next_offset packet_size off first =
    let plan = plan_frame packet_size off first in
    if plan.carries_crc then packet_size else (if first then off + 1 else off) + 3 * plan.triplets

unfoldable pub count_from : ℕ → ℕ → ℕ → Bool → ℕ
count_from zero packet_size off first = 0
count_from (suc fuel) packet_size off first =
    let rest = count_from fuel packet_size (next_offset packet_size off first) false in
    if ltb off packet_size then 1 + rest else 0

-- A round takes a byte or more, so there are no more rounds than bytes.
unfoldable pub count : SerialFramer → ℕ
count f = count_from (length f.packet) (length f.packet) 0 true
