-- ===== src/Image/Values.antt =====
-- src/image/image_values.cpp: hashes and versions of images. Text is a list of character codes.
use smply.Prelude.{
  ℕ, zero, suc, ◌+◌, ◌-◌, ◌*◌, ◌/◌, ◌%◌, Bool, true, false, ◌&&◌, ◌||◌, not, List, [], ◌∷◌, ◌++◌,
  ltb, leb, ◌==◌, if◌then◌else◌, length, replicate,
}
use smply.Error.{Result, ok, err, fail, ◌>>=◌, invalid_argument, cbor_decode}
pub mod Decimal
pub mod RoundTrip

-- The array of 64 bytes and how many of them count.
pub record ImageHash : Type 0 where
  pub contents : List ℕ
  pub size : ℕ

abbrev pub max_image_hash_length : ℕ
max_image_hash_length = 64

abbrev is_empty : List ℕ → Bool
is_empty [] = true
is_empty (x ∷ xs) = false

unfoldable pub hash_from : List ℕ → Result ImageHash
hash_from bytes =
    if is_empty bytes
    then fail cbor_decode "image: empty hash"
    else if ltb max_image_hash_length (length bytes)
    then fail cbor_decode "image: hash too long"
    else ok (record {
      contents = bytes ++ replicate (max_image_hash_length - length bytes) 0;
      size = length bytes;
    })

pub record ImageVersion : Type 0 where
  pub major : ℕ
  pub minor : ℕ
  pub revision : ℕ
  pub build : ℕ

abbrev pub max_version_string_length : ℕ
max_version_string_length = 32

abbrev pub is_digit : ℕ → Bool
is_digit c = leb 48 c && leb c 57

-- The loop of `number`: the value so far, whether it has read a digit, and the text from `at` on.
-- It gives the number and the text after it.
unfoldable pub number_from : ℕ → ℕ → Bool → List ℕ → Result (ℕ × List ℕ)
number_from limit value some_read [] =
    if some_read then ok (value, []) else fail invalid_argument "image: version component missing"
number_from limit value some_read (c ∷ text) =
    let next = value * 10 + (c - 48) in
    let rest = number_from limit next true text in
    if is_digit c
    then if ltb limit next then fail invalid_argument "image: version component too large" else rest
    else if some_read
    then ok (value, c ∷ text)
    else fail invalid_argument "image: version component missing"

unfoldable pub number : ℕ → List ℕ → Result (ℕ × List ℕ)
number limit text = number_from limit 0 false text

-- Whether the text goes on with the character, and the text after it.
abbrev pub separator : ℕ → List ℕ → Bool × List ℕ
separator expected [] = (false, [])
separator expected (c ∷ text) = if c == expected then (true, text) else (false, c ∷ text)

abbrev pub dot : ℕ
dot = 46

abbrev pub plus : ℕ
plus = 43

unfoldable pub dotted : List ℕ → Result (List ℕ)
dotted text =
    let (found, rest) = separator dot text in
    if not found then fail invalid_argument "image: version needs major.minor.revision" else ok rest

unfoldable pub build_part : List ℕ → Result (ℕ × List ℕ)
build_part text =
    let (dotted_build, after_dot) = separator dot text in
    let (plus_build, after_plus) = separator plus text in
    if dotted_build
    then number 4294967295 after_dot
    else if plus_build
    then number 4294967295 after_plus
    else ok (0, text)

abbrev finish : ImageVersion → List ℕ → Result ImageVersion
finish version text =
    if not (is_empty text)
    then fail invalid_argument "image: trailing text after version"
    else ok version

-- `parse()` after the check of the length.
unfoldable pub parse_parts : List ℕ → Result ImageVersion
unfolding dotted
parse_parts text = do
  (major, after_major) ← number 255 text
  minor_text ← dotted after_major
  (minor, after_minor) ← number 255 minor_text
  revision_text ← dotted after_minor
  (revision, after_revision) ← number 65535 revision_text
  (build, rest) ← build_part after_revision
  finish (record { major = major; minor = minor; revision = revision; build = build }) rest

unfoldable pub parse_version : List ℕ → Result ImageVersion
parse_version text =
    if is_empty text || ltb max_version_string_length (length text)
    then fail invalid_argument "image: version string not parseable"
    else parse_parts text

-- `std::to_string`: the decimal digits, on fuel for them; a number has no more digits than ten.
unfoldable pub decimal_from : ℕ → ℕ → List ℕ → List ℕ
decimal_from zero n text = text
decimal_from (suc fuel) n text =
    let more = decimal_from fuel (n / 10) ((48 + n % 10) ∷ text) in
    if ltb n 10 then (48 + n) ∷ text else more

unfoldable pub decimal : ℕ → List ℕ
decimal n = decimal_from 10 n []

unfoldable pub version_to_string : ImageVersion → List ℕ
version_to_string v =
    let text = decimal v.major ++ dot ∷ decimal v.minor ++ dot ∷ decimal v.revision in
    if not (v.build == 0) then text ++ dot ∷ decimal v.build else text
