-- ===== src/Image/Header/Fields.antt =====
-- The header of an image, field by field, against the layout of MCUboot's `struct image_header`.
use smply.Prelude.{
  ℕ, ◌+◌, ◌*◌, ◌/◌, ◌%◌, ◌^◌, ◌≤◌, ◌<◌, ◌≡◌, refl, sym, ap, subst, ◌∙◌, ◌↔◌, Bool, not, List, ◌∷◌,
  ◌==◌, length, bit_or, bit_and, shifted_or, arith,
}
use smply.Error.{ok}
use smply.Image.Source.{load_le16, load_le32}
use smply.Image.Header.{McubootImageInfo, mcuboot_image_magic, read_fields, parse_mcuboot_header}

-- A byte of a number, lowest first.
abbrev byte : ℕ → ℕ → ℕ
byte n i = n / 256 ^ i % 256

-- The 32 bytes: magic, load address, sizes, flags, version and padding.
abbrev pub header_bytes : McubootImageInfo → ℕ → ℕ → List ℕ → List ℕ
header_bytes info load_address padding rest =
    0x3d
    ∷ 0xb8
    ∷ 0xf3
    ∷ 0x96
    ∷ byte load_address 0
    ∷ byte load_address 1
    ∷ byte load_address 2
    ∷ byte load_address 3
    ∷ byte info.header_size 0
    ∷ byte info.header_size 1
    ∷ byte info.protected_tlv_size 0
    ∷ byte info.protected_tlv_size 1
    ∷ byte info.image_size 0
    ∷ byte info.image_size 1
    ∷ byte info.image_size 2
    ∷ byte info.image_size 3
    ∷ byte info.flags 0
    ∷ byte info.flags 1
    ∷ byte info.flags 2
    ∷ byte info.flags 3
    ∷ info.version.major
    ∷ info.version.minor
    ∷ byte info.version.revision 0
    ∷ byte info.version.revision 1
    ∷ byte info.version.build 0
    ∷ byte info.version.build 1
    ∷ byte info.version.build 2
    ∷ byte info.version.build 3
    ∷ byte padding 0
    ∷ byte padding 1
    ∷ byte padding 2
    ∷ byte padding 3
    ∷ rest

le16 : (n : ℕ) → n < 65536 → bit_or (byte n 0) (byte n 1 * 2 ^ 8) ≡ n
le16 n h = omega (arith, h, shifted_or 8 (byte n 0) (byte n 1) (omega arith))

le32 :
    (n : ℕ)
    → n < 4294967296
    → bit_or (bit_or (bit_or (byte n 0) (byte n 1 * 2 ^ 8)) (byte n 2 * 2 ^ 16)) (byte n 3 * 2 ^ 24)
      ≡ n
le32 n h =
    let low = shifted_or 8 (byte n 0) (byte n 1) (omega arith) in
    let middle = shifted_or 16 (byte n 0 + byte n 1 * 2 ^ 8) (byte n 2) (omega arith) in
    let high =
      shifted_or 24 (byte n 0 + byte n 1 * 2 ^ 8 + byte n 2 * 2 ^ 16) (byte n 3) (omega arith) in
    rw (low, middle, high) (omega (arith, h))

-- The fields have their widths, the sizes are plausible, and the flag for encryption is read off.
pub record IsValid (info : McubootImageInfo) : Type 0 where
  pub header_bounds : (32 ≤ info.header_size) × (info.header_size < 65536)
  pub tlv_word : info.protected_tlv_size < 65536
  pub plausible : info.header_size + info.image_size ≤ 16777216
  pub flags_word : info.flags < 4294967296
  pub revision_word : info.version.revision < 65536
  pub build_word : info.version.build < 4294967296
  pub flagged : info.encrypted ≡ not (bit_and info.flags 0x0c == 0)

read_fields-header_bytes :
    (info : McubootImageInfo) (load_address padding : ℕ) (rest : List ℕ)
    → IsValid info
    → read_fields (header_bytes info load_address padding rest) ≡ info
unfolding read_fields load_le16 load_le32
read_fields-header_bytes info load_address padding rest v =
    rw
      (
        le16 info.header_size v.header_bounds.1,
        le16 info.protected_tlv_size v.tlv_word,
        le32 info.image_size (omega (arith, v.plausible)),
        le32 info.flags v.flags_word,
        le16 info.version.revision v.revision_word,
        le32 info.version.build v.build_word,
      )
      (ap (λ (e : Bool). record info { encrypted = e }) (sym v.flagged))

load_magic :
    (info : McubootImageInfo) (load_address padding : ℕ) (rest : List ℕ)
    → load_le32 (header_bytes info load_address padding rest) 0 ≡ mcuboot_image_magic
unfolding load_le32
load_magic info load_address padding rest = refl

-- A header that is laid out as MCUboot does, whatever follows it, is parsed to the fields that it
-- was laid out from, if these have their widths, the header is at least 32 bytes and the declared
-- image at most 16 MiB.
pub parse_mcuboot_header-header_bytes :
    (info : McubootImageInfo) (load_address padding : ℕ) (rest : List ℕ)
    → IsValid info
    → parse_mcuboot_header (header_bytes info load_address padding rest) ≡ ok info
unfolding parse_mcuboot_header
parse_mcuboot_header-header_bytes info load_address padding rest v = ground (
  arith,
  read_fields-header_bytes info load_address padding rest v,
  load_magic info load_address padding rest,
  v.header_bounds,
  v.plausible,
)

-- What is accepted: exactly the bytes that are at least 32, start with the magic, and whose fields
-- give a header of at least 32 bytes and, with the body, at most 16 MiB. The result is those fields.
pub parse_mcuboot_header_lem :
    (bytes : List ℕ) (info : McubootImageInfo)
    → (parse_mcuboot_header bytes ≡ ok info) ↔ (
        (info ≡ read_fields bytes)
        × (32 ≤ length bytes)
        × (load_le32 bytes 0 ≡ 0x96f3b83d)
        × (32 ≤ info.header_size)
        × (info.header_size + info.image_size ≤ 16777216))
unfolding parse_mcuboot_header
parse_mcuboot_header_lem bytes info = (
  λ h. ground (arith, h),
  λ (fields, enough, magic, low, high).
      let bounds : (32 ≤ (read_fields bytes).header_size)
          × ((read_fields bytes).header_size + (read_fields bytes).image_size ≤ 16777216) =
        subst
          (λ (i : McubootImageInfo).
            (32 ≤ i.header_size) × (i.header_size + i.image_size ≤ 16777216))
          fields (low, high) in
      ground (arith, enough, magic, bounds) ∙ ap (λ (i : McubootImageInfo). ok i) (sym fields),
)
