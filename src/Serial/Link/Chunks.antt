-- ===== src/Serial/Link/Chunks.antt =====
-- src/transports/serial_port/serial_link.hpp: the packets do not depend on how the bytes arrive.
use smply.Prelude.{ℕ, zero, suc, ◌≡◌, inl, inr, List, [], ◌∷◌, ◌++◌, length, arith, Option-cases}
use smply.Serial.Splitter.{LineSplitter, next_line, next_lines}
use smply.Serial.Splitter.Chunks.{next_lines-append}
use smply.Serial.Deframer.{SerialDeframer, feed_line}
use smply.Serial.Link.{SerialInbound, with_packet, feed_lines_of, feed_chunk}

-- The packets of lines that were split before.
unfoldable deframe : List (List ℕ) → SerialDeframer → List (List ℕ) × SerialDeframer
deframe [] d = ([], d)
deframe (line ∷ lines) d =
    let fed = feed_line line d in
    let (packets, last) = deframe lines fed.1 in (with_packet fed packets, last)

abbrev deframed : List (List ℕ) × LineSplitter → SerialDeframer → List (List ℕ) × SerialInbound
deframed (lines, s) d =
    let (packets, last) = deframe lines d in (packets, record { splitter = s; deframer = last })

feed_lines_of-deframed :
    (fuel : ℕ) (chunk : List ℕ) (r : SerialInbound)
    → feed_lines_of fuel chunk r ≡ deframed (next_lines fuel chunk r.splitter) r.deframer
unfolding feed_lines_of next_lines deframe
feed_lines_of-deframed zero chunk r = ground arith
feed_lines_of-deframed (suc fuel) chunk r =
    let (found, after, rest) = next_line chunk r.splitter in
    elim (Option-cases found) [
      | inl ended ↦ ground (arith, ended)
      | inr (line, ended) ↦
          let next : SerialInbound = record {
            splitter = after;
            deframer = (feed_line line r.deframer).1;
          } in
          ground (arith, ended, feed_lines_of-deframed fuel rest next)
    ]

deframe-append :
    (xs ys : List (List ℕ)) (d : SerialDeframer)
    → deframe (xs ++ ys) d
      ≡ ((deframe xs d).0 ++ (deframe ys (deframe xs d).1).0, (deframe ys (deframe xs d).1).1)
unfolding deframe
deframe-append [] ys d = ground arith
deframe-append (line ∷ xs) ys d = ground (arith, deframe-append xs ys (feed_line line d).1)

-- Two chunks, one after the other, give the callback the packets that the chunks put together give
-- it, in the same order, and leave the same state.
pub feed_chunk-append :
    (xs ys : List ℕ) (r : SerialInbound)
    → let (packets, middle) = feed_chunk xs r in
      let (more, last) = feed_chunk ys middle in feed_chunk (xs ++ ys) r ≡ (packets ++ more, last)
unfolding feed_chunk
feed_chunk-append xs ys r =
    let (lines, middle) = next_lines (suc (length xs)) xs r.splitter in
    let (more, last) = next_lines (suc (length ys)) ys middle in
    let mid : SerialInbound = record {
      splitter = middle;
      deframer = (deframe lines r.deframer).1;
    } in
    ground (
      arith,
      feed_lines_of-deframed (suc (length (xs ++ ys))) (xs ++ ys) r,
      feed_lines_of-deframed (suc (length xs)) xs r,
      feed_lines_of-deframed (suc (length ys)) ys mid,
      next_lines-append xs ys r.splitter,
      deframe-append lines more r.deframer,
    )
