-- ===== src/Smp/Assembler/Stream.antt =====
-- The byte stream as the protocol means it: one message after the other, however it arrives.
use smply.Prelude.{
  ℕ, ◌+◌, ◌≤◌, ◌<◌, ◌≡◌, refl, sym, subst, List, [], ◌∷◌, ◌++◌, ltb, if◌then◌else◌, length,
  length-append, length-drop, take, drop, take-append_le, drop-append_le, arith,
}
use smply.Error.{Error, Result, ok, err}
use smply.Smp.Header.{Header, header_size, decode_header}
use smply.Smp.Assembler.{AssemblerLimits, Message, frame_size}

-- What the front of a stream is: not yet a message, no message at all, or one with what follows it.
pub data Next : Type 0 where
  incomplete : Next
  broken : Error → Next
  message : Message → List ℕ → Next

unfoldable pub next_message : AssemblerLimits → List ℕ → Next
next_message limits bytes =
    if ltb (length bytes) header_size then incomplete else elim (frame_size limits bytes) [
      | err e ↦ broken e
      | ok (header, total) ↦
          if ltb (length bytes) total
          then incomplete
          else message (header, take header.length (drop header_size bytes)) (drop total bytes)
    ]

-- How a stream ends: with bytes that are held for an incomplete message, or broken.
pub data End : Type 0 where
  held : List ℕ → End
  failed : Error → End

pub data Parses (limits : AssemblerLimits) : List ℕ → List Message → End → Type 0 where
  stops :
      {bytes : List ℕ}
      → next_message limits bytes ≡ incomplete
      → Parses limits bytes [] (held bytes)
  breaks :
      {bytes : List ℕ} {e : Error}
      → next_message limits bytes ≡ broken e
      → Parses limits bytes [] (failed e)
  goes_on :
      {bytes rest : List ℕ} {m : Message} {ms : List Message} {end : End}
      → next_message limits bytes ≡ message m rest
      → Parses limits rest ms end
      → Parses limits bytes (m ∷ ms) end

decode_header-append_le :
    (bytes more : List ℕ) → 8 ≤ length bytes → decode_header (bytes ++ more) ≡ decode_header bytes
unfolding decode_header
decode_header-append_le bytes more h =
    rw (length-append bytes more, take-append_le 8 bytes more h) (ground arith)

pub frame_size-append :
    (limits : AssemblerLimits) (bytes more : List ℕ)
    → 8 ≤ length bytes
    → frame_size limits (bytes ++ more) ≡ frame_size limits bytes
unfolding frame_size
frame_size-append limits bytes more h = rw (decode_header-append_le bytes more h)

-- An accepted message has the size that its header states, within both limits.
pub frame_size_bounds :
    (limits : AssemblerLimits) (bytes : List ℕ) (h : Header) (total : ℕ)
    → frame_size limits bytes ≡ ok (h, total)
    → (total ≡ 8 + h.length) × (h.length ≤ limits.max_payload) × (total ≤ limits.max_buffer)
unfolding frame_size
frame_size_bounds limits bytes h total e = ground arith

-- What the front of a stream is, case by case.
module _ (limits : AssemblerLimits) (bytes : List ℕ) where
  pub next_short : length bytes < 8 → next_message limits bytes ≡ incomplete
  unfolding next_message
  next_short h = ground arith

  pub next_broken :
      (x : Error)
      → 8 ≤ length bytes
      → frame_size limits bytes ≡ err x
      → next_message limits bytes ≡ broken x
  unfolding next_message
  next_broken x long f = ground (arith, f)

  pub next_partial :
      (h : Header) (total : ℕ)
      → 8 ≤ length bytes
      → frame_size limits bytes ≡ ok (h, total)
      → length bytes < total
      → next_message limits bytes ≡ incomplete
  unfolding next_message
  next_partial h total long f short = ground (arith, f)

  pub next_whole :
      (h : Header) (total : ℕ)
      → 8 ≤ length bytes
      → frame_size limits bytes ≡ ok (h, total)
      → total ≤ length bytes
      → next_message limits bytes ≡ message (h, take h.length (drop 8 bytes)) (drop total bytes)
  unfolding next_message
  next_whole h total long f whole = ground (arith, f)

pub payload-append :
    (n : ℕ) (bytes more : List ℕ)
    → 8 + n ≤ length bytes
    → take n (drop 8 (bytes ++ more)) ≡ take n (drop 8 bytes)
payload-append n bytes more h =
    rw (drop-append_le 8 bytes more (omega arith))
      (take-append_le n (drop 8 bytes) more (omega (arith, length-drop 8 bytes)))

framed-append :
    (limits : AssemblerLimits) (bytes more : List ℕ) (m : Message) (rest : List ℕ)
    (r : Result (Header × ℕ))
    → frame_size limits bytes ≡ r
    → next_message limits bytes ≡ message m rest
    → next_message limits (bytes ++ more) ≡ message m (rest ++ more)
unfolding next_message
framed-append limits bytes more m rest (err x) f e = ground (arith, f, e)
framed-append limits bytes more m rest (ok (h, total)) f e = ground (
  arith,
  f,
  length-append bytes more,
  frame_size-append limits bytes more,
  frame_size_bounds limits bytes h total f,
  payload-append h.length bytes more,
  drop-append_le total bytes more,
)

-- More bytes behind a message, or behind a broken header, change nothing but the rest.
next_message-append :
    (limits : AssemblerLimits) (bytes more : List ℕ) (m : Message) (rest : List ℕ)
    → next_message limits bytes ≡ message m rest
    → next_message limits (bytes ++ more) ≡ message m (rest ++ more)
next_message-append limits bytes more m rest e =
    framed-append limits bytes more m rest (frame_size limits bytes) refl e

next_broken-append :
    (limits : AssemblerLimits) (bytes more : List ℕ) (e : Error)
    → next_message limits bytes ≡ broken e
    → next_message limits (bytes ++ more) ≡ broken e
unfolding next_message
next_broken-append limits bytes more x e =
    ground (arith, length-append bytes more, frame_size-append limits bytes more)

-- Two parts of a stream parse one after the other as the whole does: what the first part leaves
-- held goes in front of the second.
pub Parses-append :
    {limits : AssemblerLimits} {bytes kept : List ℕ} {ms ns : List Message} {end : End}
    (more : List ℕ)
    → Parses limits bytes ms (held kept)
    → Parses limits (kept ++ more) ns end
    → Parses limits (bytes ++ more) (ms ++ ns) end
Parses-append more (stops e) q = q
Parses-append {limits} more (goes_on {bytes = bs} {rest = r} {m = m} e p) q =
    goes_on (next_message-append limits bs more m r e) (Parses-append more p q)

pub Parses-append_failed :
    {limits : AssemblerLimits} {bytes : List ℕ} {ms : List Message} {e : Error} (more : List ℕ)
    → Parses limits bytes ms (failed e)
    → Parses limits (bytes ++ more) ms (failed e)
Parses-append_failed {limits} more (breaks {bytes = bs} {e = x} e) =
    breaks (next_broken-append limits bs more x e)
Parses-append_failed {limits} more (goes_on {bytes = bs} {rest = r} {m = m} e p) =
    goes_on (next_message-append limits bs more m r e) (Parses-append_failed more p)

-- A stream parses in one way.
pub Parses-unique :
    {limits : AssemblerLimits} {bytes : List ℕ} {ms ns : List Message} {end end' : End}
    → Parses limits bytes ms end
    → Parses limits bytes ns end'
    → (ms ≡ ns) × (end ≡ end')
Parses-unique (stops e) (stops f) = (refl, refl)
Parses-unique (stops e) (breaks f) = (cc, cc)
Parses-unique (stops e) (goes_on f q) = (cc, cc)
Parses-unique (breaks e) (stops f) = (cc, cc)
Parses-unique (breaks e) (breaks f) = (refl, cc)
Parses-unique (breaks e) (goes_on f q) = (cc, cc)
Parses-unique (goes_on e p) (stops f) = (cc, cc)
Parses-unique (goes_on e p) (breaks f) = (cc, cc)
Parses-unique {limits} {ms} {ns} {end} {end'} (goes_on {rest = r} {m = m} {ms = ms'} e p)
      (goes_on {rest = r'} {m = m'} {ms = ns'} f q) =
    let same : r ≡ r' = cc in
    let (tails, ends) = Parses-unique p (subst (λ x. Parses limits x ns' end') (sym same) q) in
    (cc, ends)
