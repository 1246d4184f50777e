-- ===== src/Serial/Base64/RoundTrip.antt =====
-- src/transports/serial/base64.hpp: what is decoded is what was encoded.
use smply.Prelude.{
  ℕ, ◌+◌, ◌*◌, ◌≤◌, ◌<◌, ◌≡◌, refl, ap, sym, subst, ◌∙◌, Bool, true, false, not, Option, none, some,
  List, [], ◌∷◌, ◌==◌, length, IsByte, All, holds_below, holds_below_lem, arith,
}
use smply.Serial.Base64.{
  base64_encoded_size, base64_max_decoded_size, alphabet, padding, symbol_at, value_from,
  base64_value, digit, triple, encode_groups, base64_encode, three_bytes, two_bytes, one_byte,
  decode_last, decode_third, decode_second, whole, decode_quartet, is_end, decode_quartets,
  base64_decode, push_digit,
}

abbrev gives : ℕ → Bool
gives v = elim (base64_value (symbol_at v)) [ none ↦ false | some w ↦ w == v ]

all_digits : holds_below (λ v. gives v) 64 ≡ true
unfolding holds_below base64_value value_from symbol_at alphabet
all_digits = refl

no_padding : holds_below (λ v. not (symbol_at v == padding)) 64 ≡ true
unfolding holds_below symbol_at alphabet
no_padding = refl

base64_value-symbol_at : (v : ℕ) → v < 64 → base64_value (symbol_at v) ≡ some v
base64_value-symbol_at v h = ground (arith, holds_below_lem (λ (w : ℕ). gives w) 64 v all_digits h)

symbol_at_lem : (v : ℕ) → v < 64 → (symbol_at v == padding) ≡ false
symbol_at_lem v h =
    ground (arith, holds_below_lem (λ (w : ℕ). not (symbol_at w == padding)) 64 v no_padding h)

push_digit-symbol_at :
    (v quad : ℕ) (next : ℕ → Option (List ℕ))
    → v < 64
    → push_digit (symbol_at v) quad next ≡ next (quad * 64 + v)
push_digit-symbol_at v quad next h = rw (base64_value-symbol_at v h, push_digit) refl

decode_second-symbol_at :
    (final : Bool) (v c d quad : ℕ)
    → v < 64
    → decode_second final (symbol_at v) c d quad ≡ decode_third final c d (quad * 64 + v)
unfolding decode_second
decode_second-symbol_at final v c d quad h =
    rw (symbol_at_lem v h) (push_digit-symbol_at v quad (decode_third final c d) h)

decode_quartet-symbol_at :
    (final : Bool) (v b c d : ℕ)
    → v < 64
    → decode_quartet final (symbol_at v) b c d ≡ decode_second final b c d v
unfolding decode_quartet
decode_quartet-symbol_at final v b c d h = rw (symbol_at_lem v h) (
    push_digit-symbol_at v 0 (decode_second final b c d) h
    ∙ ap (decode_second final b c d) (omega arith))

decode_third-symbol_at :
    (final : Bool) (v d quad : ℕ)
    → v < 64
    → decode_third final (symbol_at v) d quad ≡ decode_last final d (quad * 64 + v)
unfolding decode_third
decode_third-symbol_at final v d quad h =
    rw (symbol_at_lem v h) (push_digit-symbol_at v quad (decode_last final d) h)

decode_last-symbol_at :
    (final : Bool) (v quad : ℕ)
    → v < 64
    → decode_last final (symbol_at v) quad ≡ some (three_bytes (quad * 64 + v))
unfolding decode_last
decode_last-symbol_at final v quad h = rw (symbol_at_lem v h) (push_digit-symbol_at v quad whole h)

-- The digits of three bytes give the bytes back.
digits_lem :
    (bits : ℕ)
    → bits < 16777216
    → ((digit bits 262144 * 64 + digit bits 4096) * 64 + digit bits 64) * 64 + digit bits 1 ≡ bits
digits_lem bits h = omega arith

three_lem :
    (b0 b1 b2 : ℕ)
    → IsByte b0
    → IsByte b1
    → IsByte b2
    → ◌≡◌ {A = Option (List ℕ)} (some (three_bytes (triple b0 b1 b2))) (some (b0 ∷ b1 ∷ b2 ∷ []))
three_lem b0 b1 b2 h0 h1 h2 = ground arith

decode_three :
    (final : Bool) (b0 b1 b2 : ℕ)
    → IsByte b0
    → IsByte b1
    → IsByte b2
    → let bits = triple b0 b1 b2 in
      decode_quartet final
        (symbol_at (digit bits 262144))
        (symbol_at (digit bits 4096))
        (symbol_at (digit bits 64))
        (symbol_at (digit bits 1))
      ≡ some (b0 ∷ b1 ∷ b2 ∷ [])
decode_three final b0 b1 b2 h0 h1 h2 =
    let bits = triple b0 b1 b2 in
    let i = digit bits 262144 in
    let j = digit bits 4096 in
    let k = digit bits 64 in
    let l = digit bits 1 in
    decode_quartet-symbol_at final i (symbol_at j) (symbol_at k) (symbol_at l) (omega arith)
    ∙ decode_second-symbol_at final j (symbol_at k) (symbol_at l) i (omega arith)
    ∙ decode_third-symbol_at final k (symbol_at l) (i * 64 + j) (omega arith)
    ∙ decode_last-symbol_at final l ((i * 64 + j) * 64 + k) (omega arith)
    ∙ rw (digits_lem bits (omega (arith, h0, h1, h2))) (three_lem b0 b1 b2 h0 h1 h2)

two_lem :
    (b0 b1 : ℕ)
    → IsByte b0
    → IsByte b1
    → let bits = triple b0 b1 0 in
      ◌≡◌ {A = Option (List ℕ)}
        (some (two_bytes (((digit bits 262144 * 64 + digit bits 4096) * 64 + digit bits 64) * 64)))
        (some (b0 ∷ b1 ∷ []))
two_lem b0 b1 h0 h1 = ground arith

one_lem :
    (b0 : ℕ)
    → IsByte b0
    → let bits = triple b0 0 0 in
      ◌≡◌ {A = Option (List ℕ)}
        (some (one_byte ((digit bits 262144 * 64 + digit bits 4096) * 4096)))
        (some (b0 ∷ []))
one_lem b0 h0 = ground arith

decode_two :
    (b0 b1 : ℕ)
    → IsByte b0
    → IsByte b1
    → let bits = triple b0 b1 0 in
      decode_quartet true
        (symbol_at (digit bits 262144))
        (symbol_at (digit bits 4096))
        (symbol_at (digit bits 64))
        padding
      ≡ some (b0 ∷ b1 ∷ [])
unfolding decode_last
decode_two b0 b1 h0 h1 =
    let bits = triple b0 b1 0 in
    let i = digit bits 262144 in
    let j = digit bits 4096 in
    let k = digit bits 64 in
    decode_quartet-symbol_at true i (symbol_at j) (symbol_at k) padding (omega arith)
    ∙ decode_second-symbol_at true j (symbol_at k) padding i (omega arith)
    ∙ decode_third-symbol_at true k padding (i * 64 + j) (omega arith)
    ∙ two_lem b0 b1 h0 h1

decode_one :
    (b0 : ℕ)
    → IsByte b0
    → let bits = triple b0 0 0 in
      decode_quartet true
        (symbol_at (digit bits 262144))
        (symbol_at (digit bits 4096))
        padding
        padding
      ≡ some (b0 ∷ [])
unfolding decode_third
decode_one b0 h0 =
    let bits = triple b0 0 0 in
    let i = digit bits 262144 in
    let j = digit bits 4096 in
    decode_quartet-symbol_at true i (symbol_at j) padding padding (omega arith)
    ∙ decode_second-symbol_at true j padding padding i (omega arith)
    ∙ one_lem b0 h0

decode_quartets-encode_groups :
    (bytes : List ℕ) → All IsByte bytes → decode_quartets (encode_groups bytes) ≡ some bytes
unfolding decode_quartets encode_groups
decode_quartets-encode_groups [] h = refl
decode_quartets-encode_groups (b0 ∷ []) h = rw (decode_one b0 h.0) refl
decode_quartets-encode_groups (b0 ∷ b1 ∷ []) h = rw (decode_two b0 b1 h.0 h.1.0) refl
decode_quartets-encode_groups (b0 ∷ b1 ∷ b2 ∷ bytes) h =
    rw
      (
        decode_three (is_end (encode_groups bytes)) b0 b1 b2 h.0 h.1.0 h.1.1.0,
        decode_quartets-encode_groups bytes h.1.1.1,
      )
      refl

length-encode_groups :
    (bytes : List ℕ) → length (encode_groups bytes) ≡ base64_encoded_size (length bytes)
unfolding encode_groups base64_encoded_size
length-encode_groups [] = refl
length-encode_groups (b0 ∷ []) = refl
length-encode_groups (b0 ∷ b1 ∷ []) = refl
length-encode_groups (b0 ∷ b1 ∷ b2 ∷ bytes) = omega (arith, length-encode_groups bytes)

base64_encode_lem :
    (bytes : List ℕ) (room : ℕ)
    → base64_encoded_size (length bytes) ≤ room
    → base64_encode bytes room ≡ encode_groups bytes
unfolding base64_encode base64_encoded_size encode_groups
base64_encode_lem [] room fits = refl
base64_encode_lem (b ∷ bytes) room fits = ground arith

base64_decode_lem :
    (bytes : List ℕ) (space : ℕ)
    → All IsByte bytes
    → base64_max_decoded_size (length (encode_groups bytes)) ≤ space
    → base64_decode (encode_groups bytes) space ≡ some bytes
unfolding base64_decode base64_encoded_size
base64_decode_lem bytes space h holds =
    ground (arith, length-encode_groups bytes, decode_quartets-encode_groups bytes h)

-- What is encoded into a buffer that is large enough is decoded, into a buffer that is large enough,
-- to the bytes that were encoded, whatever they are and however many.
pub base64_decode-base64_encode :
    (bytes : List ℕ) (room space : ℕ)
    → All IsByte bytes
    → base64_encoded_size (length bytes) ≤ room
    → base64_max_decoded_size (length (base64_encode bytes room)) ≤ space
    → base64_decode (base64_encode bytes room) space ≡ some bytes
base64_decode-base64_encode bytes room space h fits holds =
    let same = base64_encode_lem bytes room fits in
    subst (λ (text : List ℕ). base64_decode text space ≡ some bytes) (sym same)
      (base64_decode_lem bytes space h
        (subst (λ (text : List ℕ). base64_max_decoded_size (length text) ≤ space) same holds))
