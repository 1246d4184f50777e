-- ===== src/Image/Header.antt =====
-- src/image/mcuboot_header.cpp: the header at the front of a signed image.
use smply.Prelude.{ℕ, ◌+◌, Bool, not, List, ltb, ◌==◌, if◌then◌else◌, length, bit_and}
use smply.Error.{Result, ok, fail, invalid_argument}
use smply.Image.Source.{load_le16, load_le32, byte_at}
use smply.Image.Values.{ImageVersion}
pub mod Fields

abbrev pub mcuboot_header_size : ℕ
mcuboot_header_size = 32

abbrev pub mcuboot_image_magic : ℕ
mcuboot_image_magic = 0x96f3b83d

abbrev pub mcuboot_image_magic_v1 : ℕ
mcuboot_image_magic_v1 = 0x96f3b83c

abbrev pub flag_encrypted : ℕ
flag_encrypted = 0x0c

abbrev pub max_image_size : ℕ
max_image_size = 16777216

pub record McubootImageInfo : Type 0 where
  pub header_size : ℕ
  pub image_size : ℕ
  pub protected_tlv_size : ℕ
  pub flags : ℕ
  pub version : ImageVersion
  pub encrypted : Bool

-- The fields at their offsets.
unfoldable pub read_fields : List ℕ → McubootImageInfo
read_fields bytes =
    let flags = load_le32 bytes 16 in
    record {
      header_size = load_le16 bytes 8;
      image_size = load_le32 bytes 12;
      protected_tlv_size = load_le16 bytes 10;
      flags = flags;
      version = record {
        major = byte_at bytes 20;
        minor = byte_at bytes 21;
        revision = load_le16 bytes 22;
        build = load_le32 bytes 24;
      };
      encrypted = not (bit_and flags flag_encrypted == 0);
    }

unfoldable pub parse_mcuboot_header : List ℕ → Result McubootImageInfo
parse_mcuboot_header bytes =
    let magic = load_le32 bytes 0 in
    let info = read_fields bytes in
    if ltb (length bytes) mcuboot_header_size
    then fail invalid_argument "image: header shorter than 32 bytes"
    else if not (magic == mcuboot_image_magic)
    then if magic == mcuboot_image_magic_v1
      then fail invalid_argument "image: MCUboot v1 image format, too old"
      else fail invalid_argument "image: not an MCUboot image (wrong magic; unsigned binary?)"
    else if ltb info.header_size mcuboot_header_size
    then fail invalid_argument "image: header size below 32 bytes"
    else if ltb max_image_size (info.header_size + info.image_size)
    then fail invalid_argument "image: declared size implausibly large"
    else ok info
