-- ===== src/Smp/Assembler/Bounds.antt =====
-- How much the assembler ever holds on a device's behalf.
use smply.Prelude.{
  ℕ, zero, suc, ◌+◌, ◌-◌, ◌≤◌, ◌≡◌, refl, true, false, List, [], ◌++◌, Bool-cases, inl, inr, length,
  length-append, length-take, take, drop, min, max, arith,
}
use smply.Error.{Result, ok, err}
use smply.Smp.Header.{Header}
use smply.Smp.Assembler.{
  AssemblerLimits, MessageAssembler, Message, Fed, returned, stuck, reset, stash, deliver,
  frame_size, fast_round, top_up, slow_message, slow_payload, slow_round, is_empty, feed_loop,
  finish_feeding, feed,
}
use smply.Smp.Assembler.Stream.{frame_size_bounds}
use smply.Smp.Assembler.Loop.{is_empty-eq}
use smply.Smp.Assembler.Agrees.{Agrees}
use smply.Smp.Assembler.Fragmentation.{IsReady, feed-Agrees}

-- Neither the buffer nor its high-water mark is above the bound.
pub record IsBounded (bound : ℕ) (a : MessageAssembler) : Type 0 where
  pub buffer_bounded : length a.buffer ≤ bound
  pub peak_bounded : a.peak_buffered ≤ bound
  pub buffer_limit : a.max_buffer ≤ bound

abbrev pub Bounded : ℕ → Fed → Type 0
Bounded bound stuck = Unit
Bounded bound (returned a ms r) = IsBounded bound a

module _ (bound : ℕ) (header_fits : 8 ≤ bound) where
  deliver-Bounded : (m : Message) (f : Fed) → Bounded bound f → Bounded bound (deliver m f)
  unfolding deliver
  deliver-Bounded m stuck h = h
  deliver-Bounded m (returned a ms r) h = h

  top_up-IsBounded :
      (n : ℕ) (a : MessageAssembler) (input : List ℕ)
      → n ≤ bound
      → IsBounded bound a
      → IsBounded bound (top_up n a input).0
  unfolding top_up stash
  top_up-IsBounded n a input h v =
      let count = min (n - length a.buffer) (length input) in
      ground (arith, length-append a.buffer (take count input), length-take count input)

  module _ (a : MessageAssembler) (input : List ℕ) (loop : MessageAssembler → List ℕ → Fed)
      (v : IsBounded bound a)
      (ih : (b : MessageAssembler) (rest : List ℕ)
        → IsBounded bound b
        → b.buffer ≡ []
        → Bounded bound (loop b rest)) where
    fast_framed-Bounded :
        (r : Result (Header × ℕ))
        → frame_size a.limits input ≡ r
        → a.buffer ≡ []
        → Bounded bound (fast_round a input loop)
    unfolding fast_round stash reset
    fast_framed-Bounded (err x) f empty = ground (arith, f)
    fast_framed-Bounded (ok (h, total)) f empty = ground (
      arith,
      f,
      frame_size_bounds a.limits input h total f,
      ih a (drop total input) v,
      deliver-Bounded (h, take h.length (drop 8 input)) (loop a (drop total input)),
    )

    slow_message-Bounded :
        (h : Header) (c : MessageAssembler) (more : List ℕ)
        → IsBounded bound c
        → Bounded bound (slow_message h c more loop)
    unfolding slow_message
    slow_message-Bounded h c more w = deliver-Bounded _ _ (
        ih (record c { buffer = [] }) more
          (record {
            buffer_bounded = omega arith;
            peak_bounded = w.peak_bounded;
            buffer_limit = w.buffer_limit;
          })
          refl)

    slow_framed-Bounded :
        (r : Result (Header × ℕ))
        → frame_size a.limits a.buffer ≡ r
        → Bounded bound (slow_payload a input loop)
    unfolding slow_payload reset
    slow_framed-Bounded (err x) f = ground (arith, f)
    slow_framed-Bounded (ok (h, total)) f = ground (
      arith,
      f,
      top_up-IsBounded total a input
          (omega (arith, v.buffer_limit, frame_size_bounds a.limits a.buffer h total f)) v,
      slow_message-Bounded h (top_up total a input).0 (top_up total a input).1,
    )

  fast_round-Bounded :
      (a : MessageAssembler) (input : List ℕ) (loop : MessageAssembler → List ℕ → Fed)
      → IsBounded bound a
      → ((b : MessageAssembler) (rest : List ℕ)
          → IsBounded bound b
          → b.buffer ≡ []
          → Bounded bound (loop b rest))
      → a.buffer ≡ []
      → Bounded bound (fast_round a input loop)
  fast_round-Bounded a input loop v ih empty =
      fast_framed-Bounded a input loop v ih (frame_size a.limits input) refl empty

  slow_round-Bounded :
      (a : MessageAssembler) (input : List ℕ) (loop : MessageAssembler → List ℕ → Fed)
      → IsBounded bound a
      → ((b : MessageAssembler) (rest : List ℕ)
          → IsBounded bound b
          → b.buffer ≡ []
          → Bounded bound (loop b rest))
      → Bounded bound (slow_round a input loop)
  unfolding slow_round
  slow_round-Bounded a input loop v ih =
      let c = (top_up 8 a input).0 in
      let more = (top_up 8 a input).1 in
      let w = top_up-IsBounded 8 a input header_fits v in
      ground (arith, w, slow_framed-Bounded c more loop w ih (frame_size c.limits c.buffer) refl)

  feed_loop-Bounded :
      (fuel : ℕ) (a : MessageAssembler) (input : List ℕ)
      → IsBounded bound a
      → Bounded bound (feed_loop fuel a input)
  unfolding feed_loop is_empty
  feed_loop-Bounded zero a input v = tt
  feed_loop-Bounded (suc fuel) a input v = elim (Bool-cases (is_empty a.buffer)) [
    | inl empty ↦
        rw (empty, feed_loop)
          (fast_round-Bounded a input (feed_loop fuel) v
            (λ b rest w _. feed_loop-Bounded fuel b rest w) (is_empty-eq a.buffer empty))
    | inr some_held ↦
        rw (some_held, feed_loop)
          (slow_round-Bounded a input (feed_loop fuel) v
            (λ b rest w _. feed_loop-Bounded fuel b rest w))
  ]

  finished-Bounded : (f : Fed) → Bounded bound f → Bounded bound (finish_feeding f)
  unfolding finish_feeding
  finished-Bounded stuck h = h
  finished-Bounded (returned a ms r) h = record {
    buffer_bounded = h.buffer_bounded;
    peak_bounded = h.peak_bounded;
    buffer_limit = h.buffer_limit;
  }

abbrev pub Within : ℕ → Fed → Type 0
Within bound stuck = ⊥
Within bound (returned a ms r) = IsBounded bound a

Bounded-Within :
    (bound : ℕ) (limits : AssemblerLimits) (bytes : List ℕ) (f : Fed)
    → Agrees limits bytes f
    → Bounded bound f
    → Within bound f
Bounded-Within bound limits bytes stuck h v = h
Bounded-Within bound limits bytes (returned a ms r) h v = v

feed-Bounded :
    (a : MessageAssembler) (input : List ℕ)
    → a.feeding ≡ false
    → IsBounded (max 8 a.max_buffer) a
    → Bounded (max 8 a.max_buffer) (feed a input)
unfolding feed
feed-Bounded a input idle v = rw idle (
    finished-Bounded (max 8 a.max_buffer) (omega arith) _ (
      feed_loop-Bounded (max 8 a.max_buffer) (omega arith) (length input + 2)
        (record a { feeding = true }) input
        (record {
          buffer_bounded = v.buffer_bounded;
          peak_bounded = v.peak_bounded;
          buffer_limit = v.buffer_limit;
        })))

-- On any input, whatever lengths its headers claim, `feed` on an assembler that is ready comes
-- back with the buffer and its high-water mark within the larger of the buffer limit and the size
-- of a header, if they were so before.
pub feed-Within :
    (a : MessageAssembler) (input : List ℕ)
    → IsReady a
    → length a.buffer ≤ max 8 a.max_buffer
    → a.peak_buffered ≤ max 8 a.max_buffer
    → Within (max 8 a.max_buffer) (feed a input)
feed-Within a input ready h k =
    Bounded-Within (max 8 a.max_buffer) a.limits (a.buffer ++ input) (feed a input)
      (feed-Agrees a input ready)
      (feed-Bounded a input ready.idle
        (record { buffer_bounded = h; peak_bounded = k; buffer_limit = omega arith }))
