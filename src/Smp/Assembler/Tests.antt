-- ===== src/Smp/Assembler/Tests.antt =====
-- Runs of the assembler, and its theorems at concrete inputs.
use mathlib.Core.List.{flatten}
use smply.Prelude.{ℕ, ◌≡◌, refl, some, List, [], ◌∷◌, ◌++◌, arith}
use smply.Error.{message_too_large, ok, err, error}
use smply.Smp.Header.{read_response, v1, Header, encode, decode_header}
use smply.Smp.Assembler.{
  AssemblerLimits, Message, new_assembler, feed, feed_loop, fast_round, slow_round, finish_feeding,
  top_up, slow_message, frame_size,
}
use smply.Smp.Assembler.Fragmentation.{feed_all, outcome, feed_all_pieces}
use smply.Smp.Assembler.Wire.{Fits, wire, feed_all-wire, new_assembler-IsReady}
use smply.Smp.Assembler.Bounds.{Within, feed-Within}

abbrev small_limits : AssemblerLimits
small_limits = record { max_payload = 4; max_buffer = 12 }

abbrev reply_header : Header
reply_header = record {
  op = read_response;
  version = v1;
  flags = 0;
  length = 2;
  group = 0;
  seq = 5;
  command = 0;
}

abbrev reply : Message
reply = (reply_header, 0xa0 ∷ 0xff ∷ [])

abbrev reply_bytes : List ℕ
reply_bytes = 1 ∷ 0 ∷ 0 ∷ 2 ∷ 0 ∷ 0 ∷ 5 ∷ 0 ∷ 0xa0 ∷ 0xff ∷ []

wire-reply : wire (reply ∷ reply ∷ []) ≡ reply_bytes ++ reply_bytes
unfolding wire encode
wire-reply = refl

-- Two replies in three pieces that respect no boundary.
abbrev cut : List (List ℕ)
cut =
    (1 ∷ 0 ∷ 0 ∷ [])
    ∷ (2 ∷ 0 ∷ 0 ∷ 5 ∷ 0 ∷ 0xa0 ∷ 0xff ∷ 1 ∷ 0 ∷ 0 ∷ 2 ∷ 0 ∷ 0 ∷ 5 ∷ 0 ∷ 0xa0 ∷ [])
    ∷ (0xff ∷ [])
    ∷ []

cut_run : outcome (feed_all (new_assembler small_limits) cut) ≡ some (reply ∷ reply ∷ [], ok tt, [])
unfolding feed_all new_assembler feed feed_loop finish_feeding fast_round slow_round top_up
    slow_message frame_size decode_header
cut_run = refl

reply-Fits : Fits small_limits reply
reply-Fits = omega arith

feed_all-wire_example :
    outcome (feed_all (new_assembler small_limits) cut) ≡ some (reply ∷ reply ∷ [], ok tt, [])
unfolding flatten
feed_all-wire_example =
    feed_all-wire small_limits (reply ∷ reply ∷ []) cut (reply-Fits, (reply-Fits, tt))
      (rw wire-reply)

feed_all_pieces_example :
    outcome (feed_all (new_assembler small_limits) cut)
    ≡ outcome (feed_all (new_assembler small_limits) ((reply_bytes ++ reply_bytes) ∷ []))
unfolding flatten
feed_all_pieces_example =
    feed_all_pieces (new_assembler small_limits) cut ((reply_bytes ++ reply_bytes) ∷ [])
      (new_assembler-IsReady small_limits) refl

-- A header that claims five bytes, where four are allowed.
abbrev greedy : List ℕ
greedy = 1 ∷ 0 ∷ 0 ∷ 5 ∷ 0 ∷ 0 ∷ 5 ∷ 0 ∷ []

greedy_run :
    outcome (feed (new_assembler small_limits) greedy)
    ≡ some ([], err (error message_too_large "assembler: payload exceeds limit"), [])
unfolding new_assembler feed feed_loop finish_feeding fast_round slow_round top_up slow_message
    frame_size decode_header
greedy_run = refl

feed-Within_example : Within 12 (feed (new_assembler small_limits) greedy)
unfolding new_assembler
feed-Within_example =
    feed-Within (new_assembler small_limits) greedy (new_assembler-IsReady small_limits)
      (omega arith) (omega arith)
