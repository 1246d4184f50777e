-- ===== src/Serial/Base64.antt =====
-- src/transports/serial/base64.hpp: base64 on groups of three bytes and of four characters.
-- A buffer that is written is its capacity and the bytes written. Shifted bytes and digits do not
-- overlap, so `|` on them is `+`.
use smply.Prelude.{
  ℕ, zero, suc, ◌+◌, ◌-◌, ◌*◌, ◌/◌, ◌%◌, ◌<◌, ◌≡◌, refl, Bool, true, false, ◌||◌, not, Option, none,
  some, List, [], ◌∷◌, ◌++◌, ltb, ◌==◌, if◌then◌else◌, length, get_or,
}
pub mod RoundTrip

unfoldable pub base64_encoded_size : ℕ → ℕ
base64_encoded_size raw = (raw + 2) / 3 * 4

unfoldable pub base64_max_decoded_size : ℕ → ℕ
base64_max_decoded_size chars = chars / 4 * 3

-- The characters from the first one on, so many of them.
abbrev pub characters : ℕ → ℕ → List ℕ → List ℕ
characters first zero rest = rest
characters first (suc count) rest = first ∷ characters (suc first) count rest

-- `A` to `Z`, `a` to `z`, `0` to `9`, `+` and `/`.
unfoldable pub alphabet : List ℕ
alphabet = characters 65 26 (characters 97 26 (characters 48 10 (43 ∷ 47 ∷ [])))

abbrev pub padding : ℕ
padding = 61

-- `kAlphabet[i]`.
unfoldable pub symbol_at : ℕ → ℕ
symbol_at i = get_or alphabet i 0

-- The scan of `base64_value`; none is its -1.
unfoldable pub value_from : ℕ → List ℕ → ℕ → Option ℕ
value_from i [] wanted = none
value_from i (symbol ∷ symbols) wanted =
    let rest = value_from (suc i) symbols wanted in if symbol == wanted then some i else rest

unfoldable pub base64_value : ℕ → Option ℕ
base64_value wanted = value_from 0 alphabet wanted

-- The four digits of three bytes.
abbrev pub triple : ℕ → ℕ → ℕ → ℕ
triple b0 b1 b2 = b0 * 65536 + b1 * 256 + b2

abbrev pub digit : ℕ → ℕ → ℕ
digit bits place = bits / place % 64

-- The loop of `base64_encode`: each round takes three bytes, or the one or two that are left.
unfoldable pub encode_groups : List ℕ → List ℕ
encode_groups [] = []
encode_groups (b0 ∷ []) =
    let bits = triple b0 0 0 in
    symbol_at (digit bits 262144) ∷ symbol_at (digit bits 4096) ∷ padding ∷ padding ∷ []
encode_groups (b0 ∷ b1 ∷ []) =
    let bits = triple b0 b1 0 in
    symbol_at (digit bits 262144)
    ∷ symbol_at (digit bits 4096)
    ∷ symbol_at (digit bits 64)
    ∷ padding
    ∷ []
encode_groups (b0 ∷ b1 ∷ b2 ∷ bytes) =
    let bits = triple b0 b1 b2 in
    symbol_at (digit bits 262144)
    ∷ symbol_at (digit bits 4096)
    ∷ symbol_at (digit bits 64)
    ∷ symbol_at (digit bits 1)
    ∷ encode_groups bytes

-- What is written to a buffer of the capacity.
unfoldable pub base64_encode : List ℕ → ℕ → List ℕ
base64_encode input capacity =
    let needed = base64_encoded_size (length input) in
    if needed == 0 || ltb capacity needed then [] else encode_groups input

abbrev pub byte_of : ℕ → ℕ → ℕ
byte_of quad place = quad / place % 256

-- The bytes of four digits, of which three, two or one count.
abbrev pub three_bytes : ℕ → List ℕ
three_bytes quad = byte_of quad 65536 ∷ byte_of quad 256 ∷ byte_of quad 1 ∷ []

abbrev pub two_bytes : ℕ → List ℕ
two_bytes quad = byte_of quad 65536 ∷ byte_of quad 256 ∷ []

abbrev pub one_byte : ℕ → List ℕ
one_byte quad = byte_of quad 65536 ∷ []

abbrev pub push_digit : ℕ → ℕ → (ℕ → Option (List ℕ)) → Option (List ℕ)
push_digit symbol quad next = elim (base64_value symbol) [
  | none ↦ none
  | some value ↦ next (quad * 64 + value)
]

abbrev pub whole : ℕ → Option (List ℕ)
whole quad = some (three_bytes quad)

-- The loop over the four characters of a quartet, of which only the last may have padding.
unfoldable pub decode_last : Bool → ℕ → ℕ → Option (List ℕ)
decode_last final d quad =
    if d == padding
    then if not final then none else some (two_bytes (quad * 64))
    else push_digit d quad whole

unfoldable pub decode_third : Bool → ℕ → ℕ → ℕ → Option (List ℕ)
decode_third final c d quad =
    if c == padding
    then if not final || not (d == padding) then none else some (one_byte (quad * 4096))
    else push_digit c quad (decode_last final d)

unfoldable pub decode_second : Bool → ℕ → ℕ → ℕ → ℕ → Option (List ℕ)
decode_second final b c d quad =
    if b == padding then none else push_digit b quad (decode_third final c d)

unfoldable pub decode_quartet : Bool → ℕ → ℕ → ℕ → ℕ → Option (List ℕ)
decode_quartet final a b c d =
    if a == padding then none else push_digit a 0 (decode_second final b c d)

abbrev pub is_end : List ℕ → Bool
is_end [] = true
is_end (c ∷ text) = false

-- One quartet in front of what the later rounds write.
abbrev pub joined : Option (List ℕ) → Option (List ℕ) → Option (List ℕ)
joined none rest = none
joined (some bytes) none = none
joined (some bytes) (some later) = some (bytes ++ later)

-- The loop over the quartets. Fewer than four characters are a length that is no multiple of four.
unfoldable pub decode_quartets : List ℕ → Option (List ℕ)
decode_quartets [] = some []
decode_quartets (a ∷ b ∷ c ∷ d ∷ text) =
    joined (decode_quartet (is_end text) a b c d) (decode_quartets text)
decode_quartets _ = none

unfoldable pub base64_decode : List ℕ → ℕ → Option (List ℕ)
base64_decode input capacity =
    if not (length input % 4 == 0)
    then none
    else if ltb capacity (base64_max_decoded_size (length input))
    then none
    else decode_quartets input
