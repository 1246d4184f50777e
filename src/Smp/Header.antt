-- ===== src/Smp/Header.antt =====
-- include/smply/smp/header.hpp and src/smp/codec.cpp: the 8-byte SMP header and its codec.
pub mod RoundTrip
mod Tests
use smply.Prelude.{
  ℕ, zero, suc, ◌+◌, ◌*◌, ◌/◌, ◌%◌, ◌^◌, ◌<◌, ◌≡◌, refl, Bool, true, false, ◌||◌, not, List, [],
  ◌∷◌, ltb, ◌==◌, if◌then◌else◌, length, get_or, take, bit_and, bit_or, IsByte,
}
use smply.Error.{
  ErrorCode, malformed_message, unsupported_smp_version, Group, Result, ok, err, fail,
}

pub data Operation : Type 0 where
  read read_response write write_response : Operation

pub data Version : Type 0 where
  v1 v2 : Version

abbrev pub header_size : ℕ
header_size = 8

abbrev pub max_encodable_length : ℕ
max_encodable_length = 0xffff

pub record Header : Type 0 where
  pub op : Operation
  pub version : Version
  pub flags : ℕ
  pub length : ℕ
  pub group : Group
  pub seq : ℕ
  pub command : ℕ

-- The widths of the fields.
pub record IsValid (h : Header) : Type 0 where
  pub flags_byte : IsByte h.flags
  pub length_word : h.length < 2 ^ 16
  pub group_word : h.group < 2 ^ 16
  pub seq_byte : IsByte h.seq
  pub command_byte : IsByte h.command

abbrev pub total_size : Header → ℕ
total_size h = header_size + h.length

-- The underlying values of the two enumerations.
abbrev pub op_value : Operation → ℕ
op_value read = 0
op_value read_response = 1
op_value write = 2
op_value write_response = 3

abbrev pub version_value : Version → ℕ
version_value v1 = 0
version_value v2 = 1

abbrev reserved_mask : ℕ
reserved_mask = 0xe0

abbrev version_mask : ℕ
version_mask = 0x03

abbrev operation_mask : ℕ
operation_mask = 0x07

-- `static_cast<Operation>` of a number that the caller has checked to be at most 3.
abbrev pub op_of_value : ℕ → Operation
op_of_value v =
    if v == 0
    then read
    else if v == 1
    then read_response
    else if v == 2
    then write
    else write_response

-- `static_cast<Version>` of a number that the caller has checked to be at most 1.
abbrev pub version_of_value : ℕ → Version
version_of_value v = if v == 0 then v1 else v2

unfoldable pub read_be16 : ℕ → ℕ → ℕ
read_be16 high low = bit_or (high * 2 ^ 8) low % 2 ^ 16

unfoldable pub high_byte : ℕ → ℕ
high_byte value = bit_and (value / 2 ^ 8) 0xff

unfoldable pub low_byte : ℕ → ℕ
low_byte value = bit_and value 0xff

unfoldable pub encode : Header → List ℕ
unfolding high_byte low_byte
encode h =
    let version_bits = bit_and (version_value h.version) version_mask in
    let op_bits = bit_and (op_value h.op) operation_mask in
    let byte0 = bit_or (version_bits * 2 ^ 3) op_bits % 2 ^ 8 in
    byte0
    ∷ h.flags
    ∷ high_byte h.length
    ∷ low_byte h.length
    ∷ high_byte h.group
    ∷ low_byte h.group
    ∷ h.seq
    ∷ h.command
    ∷ []

-- The overload on exactly eight bytes; `get_or` reads no index past the end there.
unfoldable pub decode_fixed : List ℕ → Result Header
unfolding read_be16
decode_fixed bytes =
    let byte0 = get_or bytes 0 0 in
    let version_bits = bit_and (byte0 / 2 ^ 3) version_mask in
    let op_bits = bit_and byte0 operation_mask in
    if not (bit_and byte0 reserved_mask == 0)
    then fail malformed_message "smp header: reserved bits set"
    else if ltb 1 version_bits
    then fail unsupported_smp_version "smp header: reserved version"
    else if ltb 3 op_bits
    then fail malformed_message "smp header: unknown operation"
    else ok (record {
      op = op_of_value op_bits;
      version = version_of_value version_bits;
      flags = get_or bytes 1 0;
      length = read_be16 (get_or bytes 2 0) (get_or bytes 3 0);
      group = read_be16 (get_or bytes 4 0) (get_or bytes 5 0);
      seq = get_or bytes 6 0;
      command = get_or bytes 7 0;
    })

-- The overload on a span of any size.
unfoldable pub decode_header : List ℕ → Result Header
unfolding decode_fixed
decode_header bytes =
    if ltb (length bytes) header_size
    then fail malformed_message "smp header: truncated"
    else decode_fixed (take header_size bytes)

unfoldable pub is_response : Operation → Bool
is_response read = false
is_response read_response = true
is_response write = false
is_response write_response = true

unfoldable pub response_to : Operation → Operation
response_to read = read_response
response_to write = write_response
response_to read_response = read_response
response_to write_response = write_response
