-- ===== src/Image/Source.antt =====
-- include/smply/image_source.hpp, src/image/image_source.cpp and source_reader.hpp: bytes of an
-- image by offset, and the little-endian fields in them.
use smply.Prelude.{
  ℕ, ◌+◌, ◌-◌, ◌*◌, ◌^◌, ◌||◌, List, [], ltb, leb, ◌==◌, not, if◌then◌else◌, length, get_or, take,
  drop, min, bit_or,
}
use smply.Error.{Result, ok, err, fail, malformed_message, invalid_argument}

-- `read` gives the bytes that it wrote to the front of the caller's span; their number is what
-- the C++ function returns.
pub record ImageSource : Type 0 where
  pub size : ℕ
  pub read : ℕ → ℕ → Result (List ℕ)

unfoldable pub memory_read : List ℕ → ℕ → ℕ → Result (List ℕ)
memory_read bytes offset wanted =
    if leb (length bytes) offset
    then ok []
    else ok (take (min (length bytes - offset) wanted) (drop offset bytes))

abbrev pub memory_source : List ℕ → ImageSource
memory_source bytes = record { size = length bytes; read = memory_read bytes }

unfoldable pub read_exact : ImageSource → ℕ → ℕ → Result (List ℕ)
read_exact source offset wanted =
    if ltb source.size offset || ltb (source.size - offset) wanted
    then fail malformed_message "image: read past the end of the image"
    else elim (source.read offset wanted) [
      | err e ↦ err e
      | ok bytes ↦
          if not (length bytes == wanted)
          then fail invalid_argument "image: source returned a short read"
          else ok bytes
    ]

abbrev pub byte_at : List ℕ → ℕ → ℕ
byte_at bytes at = get_or bytes at 0

unfoldable pub load_le16 : List ℕ → ℕ → ℕ
load_le16 from at = bit_or (byte_at from at) (byte_at from (at + 1) * 2 ^ 8)

unfoldable pub load_le32 : List ℕ → ℕ → ℕ
load_le32 from at =
    bit_or
      (bit_or (bit_or (byte_at from at) (byte_at from (at + 1) * 2 ^ 8))
        (byte_at from (at + 2) * 2 ^ 16))
      (byte_at from (at + 3) * 2 ^ 24)
