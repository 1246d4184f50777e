-- ===== src/Image/Tlv.antt =====
-- src/image/tlv.cpp: the areas of type-length-value entries after the body, and the hash in them.
use smply.Prelude.{
  ℕ, zero, suc, ◌+◌, ◌-◌, Bool, true, false, ◌&&◌, not, Option, none, some, List, ltb, ◌==◌,
  if◌then◌else◌,
}
use smply.Error.{Result, ok, err, fail, ◌>>=◌, malformed_message}
use smply.Image.Source.{ImageSource, read_exact, load_le16}
use smply.Image.Values.{ImageHash, hash_from}
use smply.Image.Header.{McubootImageInfo}
pub mod Local
pub mod Scan

abbrev pub tlv_info_magic : ℕ
tlv_info_magic = 0x6907

abbrev pub tlv_prot_info_magic : ℕ
tlv_prot_info_magic = 0x6908

abbrev pub tlv_header_size : ℕ
tlv_header_size = 4

abbrev pub max_image_tlvs : ℕ
max_image_tlvs = 256

-- The length that a hash of the type has.
unfoldable pub hash_tlv_for : ℕ → Option ℕ
hash_tlv_for type =
    if type == 0x10
    then some 32
    else if type == 0x11
    then some 48
    else if type == 0x12
    then some 64
    else none

pub record TlvAreaHeader : Type 0 where
  pub magic : ℕ
  pub total : ℕ

unfoldable pub read_area_header : ImageSource → ℕ → Result TlvAreaHeader
read_area_header source at = do
  raw ← read_exact source at tlv_header_size
  ok (record { magic = load_le16 raw 0; total = load_le16 raw 2 })

pub record TlvLayout : Type 0 where
  pub first : ℕ
  pub protected_end : ℕ
  pub end : ℕ

unfoldable pub second_total : ImageSource → ℕ → Result ℕ
second_total source at = do
  header ← read_area_header source at
  if not (header.magic == tlv_info_magic)
      then fail malformed_message "image: no unprotected TLV area after the protected one"
      else ok header.total

-- The total of the unprotected area, which may follow a protected one.
unfoldable pub unprotected_total : ImageSource → McubootImageInfo → ℕ → TlvAreaHeader → Result ℕ
unprotected_total source info base first =
    if first.magic == tlv_prot_info_magic
    then if not (info.protected_tlv_size == first.total)
      then fail malformed_message "image: protected TLV size disagrees with the header"
      else if ltb first.total tlv_header_size
      then fail malformed_message "image: protected TLV area smaller than its own header"
      else second_total source (base + first.total)
    else if not (info.protected_tlv_size == 0)
    then fail malformed_message "image: protected TLV size set but no protected area"
    else if not (first.magic == tlv_info_magic)
    then fail malformed_message "image: no TLV area after the image body"
    else ok first.total

unfoldable pub layout_within : ImageSource → McubootImageInfo → ℕ → ℕ → Result TlvLayout
layout_within source info base total =
    let protected_end = base + info.protected_tlv_size in
    let end = protected_end + total in
    if ltb total tlv_header_size
    then fail malformed_message "image: TLV area smaller than its own header"
    else if ltb source.size end
    then fail malformed_message "image: TLV area extends past the end of the image"
    else ok (record { first = base + tlv_header_size; protected_end = protected_end; end = end })

unfoldable pub resolve_layout : ImageSource → McubootImageInfo → Result TlvLayout
resolve_layout source info = do
  let base = info.header_size + info.image_size
  first ← read_area_header source base
  total ← unprotected_total source info base first
  layout_within source info base total

unfoldable pub digest_at : ImageSource → ℕ → ℕ → Result (Option ImageHash)
digest_at source at length = do
  bytes ← read_exact source at length
  hash ← hash_from bytes
  ok (some hash)

-- What an entry does to the hash found so far.
unfoldable pub visit_entry : ImageSource → ℕ → ℕ → ℕ → Option ImageHash → Result (Option ImageHash)
visit_entry source offset type length found = elim (hash_tlv_for type) [
  | none ↦ ok found
  | some expected ↦
      if not (length == expected)
      then fail malformed_message "image: hash TLV has the wrong length for its type"
      else elim found [
        | some _ ↦ fail malformed_message "image: more than one hash TLV"
        | none ↦ digest_at source (offset + tlv_header_size) length
      ]
]

-- An entry, then the rest of the loop.
unfoldable pub scan_entry :
    ImageSource
    → TlvLayout
    → ℕ
    → Option ImageHash
    → (ℕ → Option ImageHash → Result (Option ImageHash))
    → Result (Option ImageHash)
scan_entry source layout offset found rest = do
  raw ← read_exact source offset tlv_header_size
  let length = load_le16 raw 2
  if ltb (layout.end - offset - tlv_header_size) length
      then fail malformed_message "image: TLV entry overruns the TLV area"
      else visit_entry source offset (load_le16 raw 0) length found
        >>= rest (offset + (tlv_header_size + length))

-- The loop, with the entries that it may still visit. It is bounded as the code's is.
unfoldable pub scan :
    ℕ
    → ImageSource
    → McubootImageInfo
    → TlvLayout
    → ℕ
    → Option ImageHash
    → Result (Option ImageHash)
scan zero source info layout offset found =
    if ltb offset layout.end then fail malformed_message "image: too many TLV entries" else ok found
scan (suc left) source info layout offset found =
    let rest = scan left source info layout in
    if not (ltb offset layout.end)
    then ok found
    else if not (info.protected_tlv_size == 0) && offset == layout.protected_end
    then rest (offset + tlv_header_size) found
    else if ltb (layout.end - offset) tlv_header_size
    then fail malformed_message "image: TLV entry header overruns the TLV area"
    else scan_entry source layout offset found rest

unfoldable pub find_image_tlv_hash : ImageSource → McubootImageInfo → Result (Option ImageHash)
find_image_tlv_hash source info = if info.encrypted then ok none else do
  layout ← resolve_layout source info
  scan max_image_tlvs source info layout layout.first none
