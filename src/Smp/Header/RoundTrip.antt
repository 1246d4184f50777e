-- ===== src/Smp/Header/RoundTrip.antt =====
-- The header codec against plain arithmetic on the eight bytes, and the two round trips.
use smply.Prelude.{
  ℕ, ◌+◌, ◌*◌, ◌/◌, ◌%◌, ◌^◌, ◌<◌, ◌≡◌, refl, ◌∙◌, ◌||◌, not, List, [], ◌∷◌, ◌++◌, ltb, leb, ◌==◌,
  ==_iff, if◌then◌else◌, length, length-append, take-append, take, bit_and, bit_or, IsByte, All,
  holds_below, holds_below_lem, or_shifted, and_byte, arith,
}
use smply.Error.{malformed_message, unsupported_smp_version, ok, fail}
use smply.Smp.Header.{
  Header, IsValid, op_value, version_value, read_be16, high_byte, low_byte, encode, decode_fixed,
  decode_header, op_of_value, version_of_value,
}

-- Masks on one byte, checked at every value.
mask_reserved : (b : ℕ) → IsByte b → bit_and b 0xe0 ≡ b / 32 * 32
unfolding holds_below
mask_reserved b h =
    (==_iff _ _).0 (holds_below_lem (λ x. bit_and x 0xe0 == x / 32 * 32) 256 b refl h)

mask_version : (b : ℕ) → IsByte b → bit_and (b / 2 ^ 3) 0x03 ≡ b / 8 % 4
unfolding holds_below
mask_version b h =
    (==_iff _ _).0 (holds_below_lem (λ x. bit_and (x / 2 ^ 3) 0x03 == x / 8 % 4) 256 b refl h)

mask_operation : (b : ℕ) → IsByte b → bit_and b 0x07 ≡ b % 8
unfolding holds_below
mask_operation b h = (==_iff _ _).0 (holds_below_lem (λ x. bit_and x 0x07 == x % 8) 256 b refl h)

read_be16-eq : (high low : ℕ) → IsByte high → IsByte low → read_be16 high low ≡ high * 256 + low
unfolding read_be16
read_be16-eq high low hh hl = omega (arith, or_shifted 8 high low (omega arith))

high_byte-eq : (v : ℕ) → v < 2 ^ 16 → high_byte v ≡ v / 256
unfolding high_byte
high_byte-eq v h = omega (arith, and_byte (v / 2 ^ 8))

low_byte-eq : (v : ℕ) → low_byte v ≡ v % 256
unfolding low_byte
low_byte-eq v = omega (arith, and_byte v)

read_be16-bytes : (v : ℕ) → v < 2 ^ 16 → read_be16 (high_byte v) (low_byte v) ≡ v
read_be16-bytes v h = omega (
  arith,
  high_byte-eq v h,
  low_byte-eq v,
  read_be16-eq (high_byte v) (low_byte v) (omega (arith, high_byte-eq v h))
      (omega (arith, low_byte-eq v)),
)

high_byte_of_pair : (high low : ℕ) → IsByte high → IsByte low → high_byte (high * 256 + low) ≡ high
high_byte_of_pair high low hh hl = omega (arith, high_byte-eq (high * 256 + low) (omega arith))

low_byte_of_pair : (high low : ℕ) → IsByte low → low_byte (high * 256 + low) ≡ low
low_byte_of_pair high low hl = omega (arith, low_byte-eq (high * 256 + low))

decode_fixed-encode : (h : Header) → IsValid h → decode_fixed (encode h) ≡ ok h
unfolding decode_fixed encode
decode_fixed-encode h v =
    ground (arith, read_be16-bytes h.length v.length_word, read_be16-bytes h.group v.group_word)

pub length-encode : (h : Header) → length (encode h) ≡ 8
unfolding encode
length-encode h = refl

decode_header-append :
    (bs rest : List ℕ) → length bs ≡ 8 → decode_header (bs ++ rest) ≡ decode_fixed bs
unfolding decode_header
decode_header-append bs rest e = rw (length-append bs rest, e, take-append bs rest e) (ground arith)

-- Decoding an encoded header, whatever follows it, gives the header back.
pub decode_header-encode :
    (h : Header) (rest : List ℕ) → IsValid h → decode_header (encode h ++ rest) ≡ ok h
decode_header-encode h rest v =
    decode_header-append (encode h) rest (length-encode h) ∙ decode_fixed-encode h v

-- What a header of eight bytes is decoded to, in arithmetic: the first byte below 32 has no
-- reserved bit, below 16 a known version, and its remainder by 8 is the operation.
pub decode_verdict :
    (b0 b1 b2 b3 b4 b5 b6 b7 : ℕ)
    → IsByte b0
    → decode_fixed (b0 ∷ b1 ∷ b2 ∷ b3 ∷ b4 ∷ b5 ∷ b6 ∷ b7 ∷ []) ≡ (
        if leb 32 b0
        then fail malformed_message "smp header: reserved bits set"
        else if leb 16 b0
        then fail unsupported_smp_version "smp header: reserved version"
        else if leb 4 (b0 % 8)
        then fail malformed_message "smp header: unknown operation"
        else ok (record {
          op = op_of_value (b0 % 8);
          version = version_of_value (b0 / 8);
          flags = b1;
          length = read_be16 b2 b3;
          group = read_be16 b4 b5;
          seq = b6;
          command = b7;
        }))
unfolding decode_fixed
decode_verdict b0 b1 b2 b3 b4 b5 b6 b7 h =
    ground (arith, mask_reserved b0 h, mask_version b0 h, mask_operation b0 h)

-- The first byte is put together again from the two fields that it was taken apart into.
encode_first :
    (b : ℕ)
    → b < 16
    → b % 8 < 4
    → bit_or
          (bit_and (version_value (version_of_value (b / 8))) 0x03 * 2 ^ 3)
          (bit_and (op_value (op_of_value (b % 8))) 0x07)
        % 2 ^ 8
      ≡ b
unfolding holds_below
encode_first b h k = ground (
  arith,
  holds_below_lem
      (λ x.
        not (ltb (x % 8) 4)
        || (bit_or (bit_and (version_value (version_of_value (x / 8))) 0x03 * 2 ^ 3)
                (bit_and (op_value (op_of_value (x % 8))) 0x07)
              % 2 ^ 8
            == x))
      16 b refl h,
)

decoded_fields :
    (b0 b1 b2 b3 b4 b5 b6 b7 : ℕ) (h : Header)
    → IsByte b0
    → decode_fixed (b0 ∷ b1 ∷ b2 ∷ b3 ∷ b4 ∷ b5 ∷ b6 ∷ b7 ∷ []) ≡ ok h
    → (b0 < 16)
      × (b0 % 8 < 4)
      × (h ≡ record {
        op = op_of_value (b0 % 8);
        version = version_of_value (b0 / 8);
        flags = b1;
        length = read_be16 b2 b3;
        group = read_be16 b4 b5;
        seq = b6;
        command = b7;
      })
decoded_fields b0 b1 b2 b3 b4 b5 b6 b7 h hb e =
    ground (arith, decode_verdict b0 b1 b2 b3 b4 b5 b6 b7 hb)

encode-decode_fixed :
    (b0 b1 b2 b3 b4 b5 b6 b7 : ℕ) (h : Header)
    → All IsByte (b0 ∷ b1 ∷ b2 ∷ b3 ∷ b4 ∷ b5 ∷ b6 ∷ b7 ∷ [])
    → decode_fixed (b0 ∷ b1 ∷ b2 ∷ b3 ∷ b4 ∷ b5 ∷ b6 ∷ b7 ∷ []) ≡ ok h
    → (encode h ≡ b0 ∷ b1 ∷ b2 ∷ b3 ∷ b4 ∷ b5 ∷ b6 ∷ b7 ∷ []) × IsValid h
unfolding encode
encode-decode_fixed b0 b1 b2 b3 b4 b5 b6 b7 h bs e =
    let (low, op_known, fields) = decoded_fields b0 b1 b2 b3 b4 b5 b6 b7 h bs.0 e in
    ground (
      arith,
      encode_first b0 low op_known,
      read_be16-eq b2 b3,
      read_be16-eq b4 b5,
      high_byte_of_pair b2 b3,
      low_byte_of_pair b2 b3,
      high_byte_of_pair b4 b5,
      low_byte_of_pair b4 b5,
    )

-- Whatever eight bytes are accepted, the header that they decode to has fields of their widths
-- and encodes to the same eight bytes.
pub encode-decode_header :
    (bytes : List ℕ) (h : Header)
    → All IsByte bytes
    → decode_header bytes ≡ ok h
    → (encode h ≡ take 8 bytes) × IsValid h
unfolding decode_header
encode-decode_header (b0 ∷ b1 ∷ b2 ∷ b3 ∷ b4 ∷ b5 ∷ b6 ∷ b7 ∷ rest) h bs e =
    encode-decode_fixed b0 b1 b2 b3 b4 b5 b6 b7 h
      (let (x0, (x1, (x2, (x3, (x4, (x5, (x6, (x7, _)))))))) = bs in
        (x0, (x1, (x2, (x3, (x4, (x5, (x6, (x7, tt)))))))))
      (ground (arith, e))
encode-decode_header _ h bs e = ground arith
