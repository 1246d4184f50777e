-- ===== src/Smp/Header/Tests.antt =====
-- Runs of the header codec, and its theorems at concrete inputs.
use smply.Prelude.{◌≡◌, refl, [], ◌∷◌, ◌++◌, arith, take}
use smply.Error.{malformed_message, unsupported_smp_version, ok, fail}
use smply.Smp.Header.{write, v2, Header, IsValid, encode, decode_fixed, decode_header}
use smply.Smp.Header.RoundTrip.{decode_header-encode, encode-decode_header, decode_verdict}

-- An image upload request of 300 bytes in version 2.
abbrev upload_header : Header
upload_header = record {
  op = write;
  version = v2;
  flags = 0;
  length = 300;
  group = 1;
  seq = 7;
  command = 1;
}

encode_upload : encode upload_header ≡ 0x0a ∷ 0 ∷ 1 ∷ 0x2c ∷ 0 ∷ 1 ∷ 7 ∷ 1 ∷ []
unfolding encode
encode_upload = refl

decode_reserved :
    decode_header (0x28 ∷ 0 ∷ 0 ∷ 0 ∷ 0 ∷ 0 ∷ 0 ∷ 0 ∷ [])
    ≡ fail malformed_message "smp header: reserved bits set"
unfolding decode_header
decode_reserved = refl

decode_short : decode_header (0x08 ∷ 0 ∷ []) ≡ fail malformed_message "smp header: truncated"
unfolding decode_header
decode_short = refl

upload_header-IsValid : IsValid upload_header
upload_header-IsValid = omega arith

decode_header-encode_example : decode_header (encode upload_header ++ 1 ∷ 2 ∷ []) ≡ ok upload_header
decode_header-encode_example = decode_header-encode upload_header (1 ∷ 2 ∷ []) upload_header-IsValid

decode_upload : decode_header (0x0a ∷ 0 ∷ 1 ∷ 0x2c ∷ 0 ∷ 1 ∷ 7 ∷ 1 ∷ 9 ∷ []) ≡ ok upload_header
unfolding decode_header
decode_upload = refl

encode-decode_header_example :
    (encode upload_header ≡ take 8 (0x0a ∷ 0 ∷ 1 ∷ 0x2c ∷ 0 ∷ 1 ∷ 7 ∷ 1 ∷ 9 ∷ []))
    × IsValid upload_header
encode-decode_header_example =
    encode-decode_header (0x0a ∷ 0 ∷ 1 ∷ 0x2c ∷ 0 ∷ 1 ∷ 7 ∷ 1 ∷ 9 ∷ []) upload_header (omega arith)
      decode_upload

decode_verdict_example :
    decode_fixed (0x12 ∷ 0 ∷ 0 ∷ 0 ∷ 0 ∷ 0 ∷ 0 ∷ 0 ∷ [])
    ≡ fail unsupported_smp_version "smp header: reserved version"
decode_verdict_example = decode_verdict 0x12 0 0 0 0 0 0 0 (omega arith)
