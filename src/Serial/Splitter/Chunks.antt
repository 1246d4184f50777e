-- ===== src/Serial/Splitter/Chunks.antt =====
-- src/transports/serial/serial_framing.hpp: the lines do not depend on how the bytes arrive.
use smply.Prelude.{
  ℕ, zero, suc, ◌+◌, ◌<◌, ◌≡◌, refl, Option, none, some, inl, inr, List, [], ◌∷◌, ◌++◌, length,
  arith, Option-cases,
}
use smply.Serial.Splitter.{LineSplitter, split_byte, next_line, next_lines, split}

-- The lines of a chunk are the first line, if it has one, and those of the rest.
abbrev resumed : Option (List ℕ) × LineSplitter × List ℕ → List (List ℕ) × LineSplitter
resumed (none, after, rest) = ([], after)
resumed (some line, after, rest) = (line ∷ (split rest after).0, (split rest after).1)

split-next_line : (chunk : List ℕ) (s : LineSplitter) → split chunk s ≡ resumed (next_line chunk s)
unfolding split next_line
split-next_line [] s = refl
split-next_line (value ∷ chunk) s = elim (Option-cases (split_byte value s).0) [
  | inl going ↦ ground (arith, going, split-next_line chunk (split_byte value s).1)
  | inr (line, ended) ↦ ground (arith, ended)
]

abbrev Left : Option (List ℕ) × LineSplitter × List ℕ → ℕ → Type 0
Left (none, after, rest) bound = Unit {0}
Left (some line, after, rest) bound = length rest < bound

next_line_shorter : (chunk : List ℕ) (s : LineSplitter) → Left (next_line chunk s) (length chunk)
unfolding next_line
next_line_shorter [] s = ground arith
next_line_shorter (value ∷ chunk) s = elim (Option-cases (split_byte value s).0) [
  | inl going ↦ ground (arith, going, next_line_shorter chunk (split_byte value s).1)
  | inr (line, ended) ↦ ground (arith, ended)
]

-- One round more than there are bytes is enough for the loop.
next_lines-split :
    (fuel : ℕ) (chunk : List ℕ) (s : LineSplitter)
    → length chunk < fuel
    → next_lines fuel chunk s ≡ split chunk s
unfolding next_lines
next_lines-split zero chunk s enough = absurd (omega arith)
next_lines-split (suc fuel) chunk s enough =
    let (found, after, rest) = next_line chunk s in
    ground
      (arith, split-next_line chunk s, next_line_shorter chunk s, next_lines-split fuel rest after)

split-append :
    (xs ys : List ℕ) (s : LineSplitter)
    → split (xs ++ ys) s
      ≡ ((split xs s).0 ++ (split ys (split xs s).1).0, (split ys (split xs s).1).1)
unfolding split
split-append [] ys s = refl
split-append (value ∷ xs) ys s = elim (Option-cases (split_byte value s).0) [
  | inl going ↦ ground (arith, going, split-append xs ys (split_byte value s).1)
  | inr (line, ended) ↦ ground (arith, ended, split-append xs ys (split_byte value s).1)
]

-- The lines of two chunks that follow each other are those of the chunks put together, and the
-- splitter is left the same: with a round more than there are bytes, each loop takes every line.
pub next_lines-append :
    (xs ys : List ℕ) (s : LineSplitter)
    → let (lines, middle) = next_lines (length xs + 1) xs s in
      let (more, last) = next_lines (length ys + 1) ys middle in
      next_lines (length (xs ++ ys) + 1) (xs ++ ys) s ≡ (lines ++ more, last)
next_lines-append xs ys s =
    let (lines, middle) = next_lines (length xs + 1) xs s in
    ground (
      arith,
      next_lines-split (length xs + 1) xs s (omega arith),
      next_lines-split (length ys + 1) ys middle (omega arith),
      next_lines-split (length (xs ++ ys) + 1) (xs ++ ys) s (omega arith),
      split-append xs ys s,
    )
