-- ===== src/Serial/Splitter.antt =====
-- src/transports/serial/serial_framing.hpp: `LineSplitter`. `ready_` only backs the line that is
-- handed out, so the line is the result here.
use smply.Prelude.{
  ℕ, zero, suc, ◌+◌, Bool, true, false, Option, none, some, List, [], ◌∷◌, ◌++◌, ◌==◌,
  if◌then◌else◌, length,
}
pub mod Chunks

pub record LineSplitter : Type 0 where
  pub line : List ℕ
  pub max_line : ℕ
  pub dropped : ℕ
  pub discarding : Bool

abbrev pub newline : ℕ
newline = 10

abbrev pub carriage_return : ℕ
carriage_return = 13

-- A byte that is not a newline.
unfoldable pub take_byte : ℕ → LineSplitter → LineSplitter
take_byte value s =
    if s.discarding
    then s
    else if length s.line == s.max_line
    then record s { line = []; discarding = true }
    else record s { line = s.line ++ value ∷ [] }

-- The line without a carriage return at its end.
unfoldable pub without_return : List ℕ → List ℕ
without_return [] = []
without_return (value ∷ []) = if value == carriage_return then [] else value ∷ []
without_return (value ∷ next ∷ bytes) = value ∷ without_return (next ∷ bytes)

-- A newline: the line that ends, unless its bytes are being dropped.
unfoldable pub end_line : LineSplitter → Option (List ℕ) × LineSplitter
end_line s =
    if s.discarding
    then (none, record s { discarding = false; dropped = s.dropped + 1 })
    else (some (without_return s.line), record s { line = [] })

-- One round of the loop of `next_line`.
unfoldable pub split_byte : ℕ → LineSplitter → Option (List ℕ) × LineSplitter
split_byte value s = if value == newline then end_line s else (none, take_byte value s)

-- `next_line`: the first line of the chunk, the splitter after it and the rest of the chunk.
unfoldable pub next_line : List ℕ → LineSplitter → Option (List ℕ) × LineSplitter × List ℕ
next_line [] s = (none, s, [])
next_line (value ∷ chunk) s =
    let (found, after) = split_byte value s in
    elim found [ none ↦ next_line chunk after | some line ↦ (some line, after, chunk) ]

abbrev pub in_front : Option (List ℕ) → List (List ℕ) → List (List ℕ)
in_front none lines = lines
in_front (some line) lines = line ∷ lines

-- The caller's loop over `next_line`, on fuel for its rounds.
unfoldable pub next_lines : ℕ → List ℕ → LineSplitter → List (List ℕ) × LineSplitter
next_lines zero chunk s = ([], s)
next_lines (suc fuel) chunk s =
    let (found, after, rest) = next_line chunk s in
    elim found [
      | none ↦ ([], after)
      | some line ↦ let (lines, last) = next_lines fuel rest after in (line ∷ lines, last)
    ]

-- Every byte of a chunk in turn.
unfoldable pub split : List ℕ → LineSplitter → List (List ℕ) × LineSplitter
split [] s = ([], s)
split (value ∷ chunk) s =
    let (found, after) = split_byte value s in
    let (lines, last) = split chunk after in (in_front found lines, last)

unfoldable pub reset : LineSplitter → LineSplitter
reset s = record s { line = []; discarding = false }
