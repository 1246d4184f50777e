-- ===== src/Smp/Assembler.antt =====
-- src/smp/assembler.hpp and assembler.cpp: reassembly of SMP messages from a byte stream.
-- The sink's calls are the list of messages that a `feed` hands over, in order.
pub mod Stream
pub mod Agrees
pub mod Fast
pub mod Slow
pub mod Loop
pub mod Fragmentation
pub mod Wire
pub mod Bounds
mod Tests
use smply.Prelude.{
  ℕ, zero, suc, ◌+◌, ◌-◌, ◌<◌, ◌≡◌, refl, Bool, true, false, List, [], ◌∷◌, ◌++◌, ltb, ◌==◌,
  if◌then◌else◌, length, take, drop, min, max,
}
use smply.Error.{
  ErrorCode, message_too_large, invalid_state, Error, error, Result, ok, err, fail, ◌>>=◌,
}
use smply.Smp.Header.{Header, header_size, total_size, decode_header}

pub record AssemblerLimits : Type 0 where
  pub max_payload : ℕ
  pub max_buffer : ℕ

pub record MessageAssembler : Type 0 where
  pub limits : AssemblerLimits
  pub open limits use *
  pub buffer : List ℕ
  pub peak_buffered : ℕ
  pub feeding : Bool

abbrev pub Message : Type 0
Message = Header × List ℕ

-- What a `feed` leaves: the assembler, the messages that the sink got, and the call's result.
-- `stuck` is no C++ value: the loop ran out of fuel.
pub data Fed : Type 0 where
  returned : MessageAssembler → List Message → Result (Unit {0}) → Fed
  stuck : Fed

unfoldable pub new_assembler : AssemblerLimits → MessageAssembler
new_assembler limits = record { limits = limits; buffer = []; peak_buffered = 0; feeding = false }

unfoldable pub reset : MessageAssembler → MessageAssembler
reset a = record a { buffer = [] }

unfoldable pub message_size : AssemblerLimits → Header → Result ℕ
message_size limits h =
    if ltb limits.max_payload h.length
    then fail message_too_large "assembler: payload exceeds limit"
    else if ltb limits.max_buffer (total_size h)
    then fail message_too_large "assembler: message exceeds buffer limit"
    else ok (total_size h)

unfoldable pub stash : MessageAssembler → List ℕ → MessageAssembler
stash a bytes =
    let buffer = a.buffer ++ bytes in
    record a { buffer = buffer; peak_buffered = max a.peak_buffered (length buffer) }

-- `sink.on_message(...)`, then the rest of the loop.
unfoldable pub deliver : Message → Fed → Fed
deliver m (returned a ms r) = returned a (m ∷ ms) r
deliver m stuck = stuck

-- The decoded header with the size of the whole message, or why there is none.
unfoldable pub frame_size : AssemblerLimits → List ℕ → Result (Header × ℕ)
unfolding message_size
frame_size limits bytes = do
  header ← decode_header bytes
  total ← message_size limits header
  ok (header, total)

-- One round of the loop on an empty buffer (the fast path), with the rest of the loop.
unfoldable pub fast_round : MessageAssembler → List ℕ → (MessageAssembler → List ℕ → Fed) → Fed
unfolding reset stash deliver
fast_round a input loop =
    if ltb (length input) header_size
    then returned (stash a input) [] (ok tt)
    else elim (frame_size a.limits input) [
      | err e ↦ returned (reset a) [] (err e)
      | ok (header, total) ↦
          if ltb (length input) total
          then returned (stash a input) [] (ok tt)
          else deliver (header, take header.length (drop header_size input))
              (loop a (drop total input))
    ]

-- `if (buffer_.size() < target)`: move what is missing, as far as the input has it.
unfoldable pub top_up : ℕ → MessageAssembler → List ℕ → MessageAssembler × List ℕ
unfolding stash
top_up target a input =
    let wanted = target - length a.buffer in
    let count = min wanted (length input) in
    if ltb (length a.buffer) target
    then (stash a (take count input), drop count input)
    else (a, input)

-- The buffer holds a whole message: hand it over and go on with an empty buffer.
unfoldable pub slow_message :
    Header → MessageAssembler → List ℕ → (MessageAssembler → List ℕ → Fed) → Fed
unfolding deliver
slow_message header a input loop =
    deliver (header, take header.length (drop header_size a.buffer))
      (loop (record a { buffer = [] }) input)

-- The second stage of the slow path: the buffer holds a header.
unfoldable pub slow_payload : MessageAssembler → List ℕ → (MessageAssembler → List ℕ → Fed) → Fed
unfolding reset
slow_payload a input loop = elim (frame_size a.limits a.buffer) [
  | err e ↦ returned (reset a) [] (err e)
  | ok (header, total) ↦
      let (a', input') = top_up total a input in
      if ltb (length a'.buffer) total
      then returned a' [] (ok tt)
      else slow_message header a' input' loop
]

-- One round on a held partial message (the slow path).
unfoldable pub slow_round : MessageAssembler → List ℕ → (MessageAssembler → List ℕ → Fed) → Fed
unfolding slow_payload
slow_round a input loop =
    let (a', input') = top_up header_size a input in
    if ltb (length a'.buffer) header_size
    then returned a' [] (ok tt)
    else slow_payload a' input' loop

unfoldable pub is_empty : List ℕ → Bool
is_empty [] = true
is_empty (b ∷ bs) = false

-- `while (true)`, on fuel.
unfoldable pub feed_loop : ℕ → MessageAssembler → List ℕ → Fed
feed_loop zero a input = stuck
feed_loop (suc fuel) a input = elim (is_empty a.buffer) [
  | true ↦ fast_round a input (feed_loop fuel)
  | false ↦ slow_round a input (feed_loop fuel)
]

-- The guard's destructor clears `feeding` on every path out of the loop.
unfoldable pub finish_feeding : Fed → Fed
finish_feeding (returned a ms r) = returned (record a { feeding = false }) ms r
finish_feeding stuck = stuck

-- Each round but the last takes a message off the stream: `length input + 2` rounds are enough.
unfoldable pub feed : MessageAssembler → List ℕ → Fed
unfolding is_empty
feed a input =
    if a.feeding
    then returned a [] (fail invalid_state "assembler: reentrant feed")
    else finish_feeding (feed_loop (length input + 2) (record a { feeding = true }) input)
