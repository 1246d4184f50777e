-- ===== src/Smp/Assembler/Wire.antt =====
-- Messages as a device writes them, and what the assembler makes of them.
use mathlib.Core.List.{flatten}
use smply.Prelude.{
  ℕ, ◌+◌, ◌≤◌, ◌≡◌, refl, ap₂, ◌∙◌, subst, inl, some, List, [], ◌∷◌, ◌++◌, append_assoc, length,
  length-append, take, drop, take-append, drop-append, All, arith,
}
use smply.Error.{ok}
use smply.Smp.Header.{IsValid, encode}
use smply.Smp.Header.RoundTrip.{decode_header-encode, length-encode}
use smply.Smp.Assembler.{AssemblerLimits, Message, returned, frame_size, new_assembler}
use smply.Smp.Assembler.Stream.{message, next_message, held, Parses, stops, goes_on, next_whole}
use smply.Smp.Assembler.Agrees.{Agrees}
use smply.Smp.Assembler.Fragmentation.{
  IsReady, feed_all, outcome, Agrees-outcome, feed_all-Agrees, empty_partial,
}

-- A header and the payload behind it.
unfoldable pub wire : List Message → List ℕ
wire [] = []
wire ((h, payload) ∷ ms) = (encode h ++ payload) ++ wire ms

-- A message that the limits allow, whose header states its length.
pub record Fits (limits : AssemblerLimits) (m : Message) : Type 0 where
  pub header : IsValid m.0
  pub stated : length m.1 ≡ m.0.length
  pub payload_fits : m.0.length ≤ limits.max_payload
  pub buffer_fits : 8 + m.0.length ≤ limits.max_buffer

wire_frame :
    (limits : AssemblerLimits) (m : Message) (rest : List ℕ)
    → Fits limits m
    → frame_size limits ((encode m.0 ++ m.1) ++ rest) ≡ ok (m.0, 8 + m.0.length)
unfolding frame_size
wire_frame limits m rest v =
    rw (append_assoc (encode m.0) m.1 rest, decode_header-encode m.0 (m.1 ++ rest) v.header)
      (ground (arith, v.payload_fits, v.buffer_fits))

wire_payload :
    (m : Message) (rest : List ℕ)
    → length m.1 ≡ m.0.length
    → take m.0.length (drop 8 ((encode m.0 ++ m.1) ++ rest)) ≡ m.1
wire_payload m rest e =
    rw
      (
        append_assoc (encode m.0) m.1 rest,
        drop-append (encode m.0) (m.1 ++ rest) (length-encode m.0),
      )
      (take-append m.1 rest e)

wire_rest :
    (m : Message) (rest : List ℕ)
    → length m.1 ≡ m.0.length
    → drop (8 + m.0.length) ((encode m.0 ++ m.1) ++ rest) ≡ rest
wire_rest m rest e =
    drop-append (encode m.0 ++ m.1) rest
      (omega (arith, length-append (encode m.0) m.1, length-encode m.0))

wire_next :
    (limits : AssemblerLimits) (m : Message) (rest : List ℕ)
    → Fits limits m
    → next_message limits ((encode m.0 ++ m.1) ++ rest) ≡ message m rest
wire_next limits m rest v =
    let bytes = (encode m.0 ++ m.1) ++ rest in
    let long : 8 + m.0.length ≤ length bytes = omega (
      arith,
      v.stated,
      length-append (encode m.0 ++ m.1) rest,
      length-append (encode m.0) m.1,
      length-encode m.0,
    ) in
    next_whole limits bytes m.0 (8 + m.0.length) (omega (arith, long)) (wire_frame limits m rest v)
      long
    ∙ ap₂ (λ p r. message (m.0, p) r) (wire_payload m rest v.stated) (wire_rest m rest v.stated)

-- The stream of a list of messages parses to that list, with nothing left.
pub wire-Parses :
    (limits : AssemblerLimits) (ms : List Message)
    → All (Fits limits) ms
    → Parses limits (wire ms) ms (held [])
unfolding wire
wire-Parses limits [] v = stops (empty_partial limits)
wire-Parses limits (m ∷ ms) v =
    goes_on (wire_next limits m (wire ms) v.0) (wire-Parses limits ms v.1)

-- A fresh assembler is ready.
pub new_assembler-IsReady : (limits : AssemblerLimits) → IsReady (new_assembler limits)
unfolding new_assembler
new_assembler-IsReady limits = record { idle = refl; partial = empty_partial limits }

-- However the link cuts up the bytes of messages within the limits, the sink of a fresh assembler
-- gets those messages in their order, each once, every call succeeds, and nothing is held at the
-- end.
pub feed_all-wire :
    (limits : AssemblerLimits) (ms : List Message) (pieces : List (List ℕ))
    → All (Fits limits) ms
    → flatten pieces ≡ wire ms
    → outcome (feed_all (new_assembler limits) pieces) ≡ some (ms, ok tt, [])
unfolding new_assembler
feed_all-wire limits ms pieces v cut =
    Agrees-outcome limits (wire ms) (feed_all (new_assembler limits) pieces)
      (returned (new_assembler limits) ms (ok tt))
      (subst (λ x. Agrees limits x (feed_all (new_assembler limits) pieces)) cut
        (feed_all-Agrees (new_assembler limits) pieces (new_assembler-IsReady limits)))
      (wire-Parses limits ms v, refl, inl refl)
