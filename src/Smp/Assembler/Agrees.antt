-- ===== src/Smp/Assembler/Agrees.antt =====
-- What it means that a call of `feed` agrees with the byte stream, and how a top-up moves bytes.
use smply.Prelude.{
  ℕ, ◌-◌, ◌≤◌, ◌<◌, ◌≡◌, ap, ◌∙◌, sym, ◌⊎◌, List, [], ◌++◌, append_assoc, append-nil, length,
  length-append, length-drop, length-take, take-append-drop, take, drop, drop_all, min, arith,
}
use smply.Error.{Result, ok, err}
use smply.Smp.Assembler.{
  AssemblerLimits, MessageAssembler, Message, Fed, returned, stuck, stash, deliver, frame_size,
  top_up,
}
use smply.Smp.Assembler.Stream.{
  message, next_message, End, held, failed, Parses, goes_on, frame_size-append,
}

-- What a call left, as the end of a stream.
abbrev pub end_of : MessageAssembler → Result (Unit {0}) → End
end_of a (ok _) = held a.buffer
end_of a (err e) = failed e

-- The call came back, with the messages of the stream, and holds what the stream ends with;
-- after a failure it holds nothing. The limits are those of before.
abbrev pub Agrees : AssemblerLimits → List ℕ → Fed → Type 0
Agrees limits bytes stuck = ⊥
Agrees limits bytes (returned a ms r) =
    Parses limits bytes ms (end_of a r) × (a.limits ≡ limits) × ((r ≡ ok tt) ⊎ (a.buffer ≡ []))

pub deliver-Agrees :
    (limits : AssemblerLimits) (bytes rest : List ℕ) (m : Message) (f : Fed)
    → next_message limits bytes ≡ message m rest
    → Agrees limits rest f
    → Agrees limits bytes (deliver m f)
unfolding deliver
deliver-Agrees limits bytes rest m stuck e h = h
deliver-Agrees limits bytes rest m (returned a ms r) e h = (goes_on e h.0, h.1, h.2)

-- A top-up moves bytes from the input to the buffer, up to the target.
pub top_up_moves :
    (n : ℕ) (a : MessageAssembler) (input : List ℕ)
    → (a.buffer ++ input ≡ (top_up n a input).0.buffer ++ (top_up n a input).1)
      × ((top_up n a input).0.limits ≡ a.limits)
      × (length (top_up n a input).1 ≤ length input)
unfolding top_up stash
top_up_moves n a input = ground (
  arith,
  take-append-drop (min (n - length a.buffer) (length input)) input,
  append_assoc a.buffer (take (min (n - length a.buffer) (length input)) input)
      (drop (min (n - length a.buffer) (length input)) input),
  length-drop (min (n - length a.buffer) (length input)) input,
)

-- Short of the target it has used the input up; otherwise it stops at the target.
pub top_up_stops :
    (n : ℕ) (a : MessageAssembler) (input : List ℕ)
    → length a.buffer ≤ n
    → ((length (top_up n a input).0.buffer < n) × ((top_up n a input).1 ≡ []))
      ⊎ (length (top_up n a input).0.buffer ≡ n)
unfolding top_up stash
top_up_stops n a input h =
    let count = min (n - length a.buffer) (length input) in
    ground (
      arith,
      length-append a.buffer (take count input),
      length-take count input,
      drop_all count input,
    )

-- The header that it held stays where it is.
pub top_up_keeps :
    (n : ℕ) (a : MessageAssembler) (input : List ℕ)
    → 8 ≤ length a.buffer
    → (8 ≤ length (top_up n a input).0.buffer)
      × (frame_size a.limits (top_up n a input).0.buffer ≡ frame_size a.limits a.buffer)
unfolding top_up stash
top_up_keeps n a input long =
    let moved = take (min (n - length a.buffer) (length input)) input in
    ground (arith, length-append a.buffer moved, frame_size-append a.limits a.buffer moved long)

-- What a top-up that falls short holds is all there was.
pub top_up_used :
    (n : ℕ) (a : MessageAssembler) (input : List ℕ)
    → (top_up n a input).1 ≡ []
    → (top_up n a input).0.buffer ≡ a.buffer ++ input
top_up_used n a input used = sym (
    (top_up_moves n a input).0
    ∙ ap (◌++◌ (top_up n a input).0.buffer) used
    ∙ append-nil (top_up n a input).0.buffer)
