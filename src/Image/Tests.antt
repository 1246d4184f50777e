-- ===== src/Image/Tests.antt =====
-- The theorems on images at small examples.
use smply.Prelude.{
  ℕ, ◌+◌, ◌≤◌, ◌≡◌, refl, ◌↔◌, length, false, none, List, [], ◌∷◌, ◌++◌, leb, if◌then◌else◌,
  replicate, arith,
}
use smply.Error.{ok}
use smply.Image.Source.{ImageSource, memory_source, memory_read, read_exact, load_le16, load_le32}
use smply.Image.Values.{ImageHash, ImageVersion, hash_from, parse_version, version_to_string}
use smply.Image.Values.RoundTrip.{parse_version-version_to_string}
use smply.Image.Header.{McubootImageInfo, read_fields, parse_mcuboot_header}
use smply.Image.Header.Fields.{
  header_bytes, parse_mcuboot_header-header_bytes, parse_mcuboot_header_lem,
}
use smply.Image.Tlv.{
  TlvLayout, resolve_layout, read_area_header, unprotected_total, second_total, layout_within,
  hash_tlv_for, digest_at, visit_entry, scan_entry, scan, find_image_tlv_hash,
}
use smply.Image.Tlv.Local.{scan_local}
use smply.Image.Tlv.Scan.{HoldsHash, find_image_tlv_hash_sound}

abbrev version_two : ImageVersion
version_two = record { major = 2; minor = 10; revision = 305; build = 70000 }

parse_version-version_to_string_example :
    parse_version (version_to_string version_two) ≡ ok version_two
parse_version-version_to_string_example = parse_version-version_to_string version_two (record {
  major_byte = omega arith;
  minor_byte = omega arith;
  revision_word = omega arith;
  build_word = omega arith;
})

-- A body of two bytes.
abbrev tiny : McubootImageInfo
tiny = record {
  header_size = 32;
  image_size = 2;
  protected_tlv_size = 0;
  flags = 0x10;
  version = version_two;
  encrypted = false;
}

parse_mcuboot_header-header_bytes_example :
    parse_mcuboot_header (header_bytes tiny 0 0 (1 ∷ 2 ∷ [])) ≡ ok tiny
parse_mcuboot_header-header_bytes_example =
    parse_mcuboot_header-header_bytes tiny 0 0 (1 ∷ 2 ∷ []) (record {
      header_bounds = (omega arith, omega arith);
      tlv_word = omega arith;
      plausible = omega arith;
      flags_word = omega arith;
      revision_word = omega arith;
      build_word = omega arith;
      flagged = refl;
    })

abbrev tiny_bytes : List ℕ
tiny_bytes = header_bytes tiny 0 0 []

parse_mcuboot_header_lem_example : (parse_mcuboot_header tiny_bytes ≡ ok tiny) ↔ (
    (tiny ≡ read_fields tiny_bytes)
    × (32 ≤ length tiny_bytes)
    × (load_le32 tiny_bytes 0 ≡ 0x96f3b83d)
    × (32 ≤ tiny.header_size)
    × (tiny.header_size + tiny.image_size ≤ 16777216))
parse_mcuboot_header_lem_example = parse_mcuboot_header_lem tiny_bytes tiny

-- Its areas: one entry with a SHA-256 of zeros.
abbrev tiny_image : ImageSource
tiny_image =
    memory_source
      (header_bytes tiny 0 0 (1 ∷ 2 ∷ 0x07 ∷ 0x69 ∷ 40 ∷ 0 ∷ 0x10 ∷ 0 ∷ 32 ∷ 0 ∷ replicate 32 7))

abbrev sevens : ImageHash
sevens = record { contents = replicate 32 7 ++ replicate 32 0; size = 32 }

find_image_tlv_hash_sound_example :
    (tiny.encrypted ≡ false)
    × ((layout : TlvLayout) × (resolve_layout tiny_image tiny ≡ ok layout)
        × HoldsHash tiny_image tiny layout sevens)
unfolding memory_read read_exact load_le16 hash_from resolve_layout read_area_header
    unprotected_total second_total layout_within hash_tlv_for digest_at visit_entry scan_entry scan
    find_image_tlv_hash
find_image_tlv_hash_sound_example = find_image_tlv_hash_sound tiny_image tiny sevens refl

-- Two files that differ beyond their areas.
abbrev zeros : ImageSource
zeros = record { size = 90; read = λ offset wanted. ok (replicate wanted 0) }

abbrev changed : ImageSource
changed = record {
  size = 90;
  read = λ offset wanted. ok (replicate wanted (if leb (offset + wanted) 80 then 0 else 1));
}

abbrev areas : TlvLayout
areas = record { first = 38; protected_end = 34; end = 80 }

scan_local_example : scan 256 zeros tiny areas 38 none ≡ scan 256 changed tiny areas 38 none
scan_local_example =
    scan_local 80 zeros changed (refl, λ offset wanted inside. ground (arith, inside)) 256 tiny
      areas 38 none refl
