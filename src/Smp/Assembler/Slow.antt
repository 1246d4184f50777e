-- ===== src/Smp/Assembler/Slow.antt =====
-- The slow path of the loop: a held partial message is topped up from the input.
use smply.Prelude.{
  ℕ, ◌≤◌, ◌<◌, ◌≡◌, refl, ap, ap₂, ◌∙◌, sym, subst, inl, inr, List, [], ◌++◌, length, length-append,
  drop-append, dec_lt, arith,
}
use smply.Error.{Error, Result, ok, err}
use smply.Smp.Header.{Header}
use smply.Smp.Assembler.{
  MessageAssembler, Fed, returned, reset, frame_size, top_up, slow_message, slow_payload,
  slow_round,
}
use smply.Smp.Assembler.Stream.{
  incomplete, message, next_message, held, Parses, stops, breaks, frame_size-append,
  frame_size_bounds, payload-append, next_short, next_broken, next_partial, next_whole,
}
use smply.Smp.Assembler.Agrees.{
  Agrees, deliver-Agrees, top_up_moves, top_up_stops, top_up_keeps, top_up_used,
}

-- The slow path, where the rest of the loop agrees from an empty buffer.
module _ (a : MessageAssembler) (input : List ℕ) (loop : MessageAssembler → List ℕ → Fed) where
  slow_broken :
      (x : Error)
      → frame_size a.limits a.buffer ≡ err x
      → slow_payload a input loop ≡ returned (reset a) [] (err x)
  unfolding slow_payload
  slow_broken x f = ground (arith, f)

  slow_partial :
      (h : Header) (total : ℕ)
      → frame_size a.limits a.buffer ≡ ok (h, total)
      → length (top_up total a input).0.buffer < total
      → slow_payload a input loop ≡ returned (top_up total a input).0 [] (ok tt)
  unfolding slow_payload
  slow_partial h total f short = ground (arith, f)

  slow_whole :
      (h : Header) (total : ℕ)
      → frame_size a.limits a.buffer ≡ ok (h, total)
      → total ≤ length (top_up total a input).0.buffer
      → slow_payload a input loop
        ≡ slow_message h (top_up total a input).0 (top_up total a input).1 loop
  unfolding slow_payload
  slow_whole h total f whole = ground (arith, f)

  -- A message that is taken from the topped-up buffer is the first one of the stream.
  slow_message-Agrees :
      (h : Header) (total : ℕ) (c : MessageAssembler) (more : List ℕ)
      → c.limits ≡ a.limits
      → 8 ≤ length c.buffer
      → frame_size a.limits c.buffer ≡ ok (h, total)
      → length c.buffer ≡ total
      → Agrees a.limits more (loop (record c { buffer = [] }) more)
      → Agrees a.limits (c.buffer ++ more) (slow_message h c more loop)
  unfolding slow_message
  slow_message-Agrees h total c more limits long f full ih =
      let size = (frame_size_bounds a.limits c.buffer h total f).0 in
      deliver-Agrees a.limits (c.buffer ++ more) more _ _
        (next_whole a.limits (c.buffer ++ more) h total (omega (arith, length-append c.buffer more))
            (frame_size-append a.limits c.buffer more long ∙ f)
            (omega (arith, length-append c.buffer more))
          ∙ ap₂ (λ p r. message (h, p) r) (payload-append h.length c.buffer more (omega arith))
              (drop-append c.buffer more full))
        ih

  slow_framed :
      (r : Result (Header × ℕ))
      → frame_size a.limits a.buffer ≡ r
      → 8 ≤ length a.buffer
      → ((h : Header) (total : ℕ)
          → frame_size a.limits a.buffer ≡ ok (h, total)
          → length a.buffer ≤ total)
      → ((c : MessageAssembler) (rest : List ℕ)
          → c.buffer ≡ []
          → c.limits ≡ a.limits
          → length rest ≤ length input
          → Agrees a.limits rest (loop c rest))
      → Agrees a.limits (a.buffer ++ input) (slow_payload a input loop)
  unfolding reset
  slow_framed (err x) f long fits ih =
      subst (Agrees a.limits (a.buffer ++ input)) (sym (slow_broken x f)) (
        breaks (
            next_broken a.limits (a.buffer ++ input) x (omega (arith, length-append a.buffer input))
              (frame_size-append a.limits a.buffer input long ∙ f)),
        refl,
        inr refl,
      )
  slow_framed (ok (h, total)) f long fits ih =
      let c = (top_up total a input).0 in
      let more = (top_up total a input).1 in
      let (moves, limits, shorter) = top_up_moves total a input in
      let (long', same) = top_up_keeps total a input long in
      elim (top_up_stops total a input (fits h total f)) [
        | inl (short, used) ↦
            subst (Agrees a.limits (a.buffer ++ input)) (sym (slow_partial h total f short)) (
              subst (λ x. Parses a.limits x [] (held c.buffer)) (top_up_used total a input used)
                  (stops (next_partial a.limits c.buffer h total long' (same ∙ f) short)),
              limits,
              inl refl,
            )
        | inr full ↦
            subst (Agrees a.limits (a.buffer ++ input))
              (sym (slow_whole h total f (omega (arith, full))))
              (subst (λ x. Agrees a.limits x (slow_message h c more loop)) (sym moves)
                (slow_message-Agrees h total c more limits long' (same ∙ f) full
                  (ih (record c { buffer = [] }) more refl limits shorter)))
      ]

module _ (a : MessageAssembler) (input : List ℕ) (loop : MessageAssembler → List ℕ → Fed) where
  round_short :
      length (top_up 8 a input).0.buffer < 8
      → slow_round a input loop ≡ returned (top_up 8 a input).0 [] (ok tt)
  unfolding slow_round
  round_short h = ground arith

  round_payload :
      8 ≤ length (top_up 8 a input).0.buffer
      → slow_round a input loop ≡ slow_payload (top_up 8 a input).0 (top_up 8 a input).1 loop
  unfolding slow_round
  round_payload h = ground arith

  top_up_header : 8 ≤ length a.buffer → top_up 8 a input ≡ (a, input)
  unfolding top_up
  top_up_header h = ground arith

  -- A held partial message is no longer than its header says.
  partial_fits :
      next_message a.limits a.buffer ≡ incomplete
      → 8 ≤ length a.buffer
      → (h : Header) (total : ℕ) → frame_size a.limits a.buffer ≡ ok (h, total)
      → length a.buffer ≤ total
  partial_fits partial long h total f = elim (dec_lt total (length a.buffer)) [
    | yes over ↦ absurd (cc (next_whole a.limits a.buffer h total long f (omega (arith, over))))
    | no fits ↦ omega (arith, fits)
  ]

  abbrev RestAgrees : Type 0
  RestAgrees =
      (c : MessageAssembler) (rest : List ℕ)
      → c.buffer ≡ []
      → c.limits ≡ a.limits
      → length rest ≤ length input
      → Agrees a.limits rest (loop c rest)

  -- The header has been completed by the top-up.
  completed_header :
      length (top_up 8 a input).0.buffer ≡ 8
      → RestAgrees
      → Agrees a.limits
          (a.buffer ++ input)
          (slow_payload (top_up 8 a input).0 (top_up 8 a input).1 loop)
  completed_header full ih =
      let c = (top_up 8 a input).0 in
      let more = (top_up 8 a input).1 in
      let (moves, limits, shorter) = top_up_moves 8 a input in
      subst (λ x. Agrees a.limits x (slow_payload c more loop)) (sym moves)
        (subst (λ l. Agrees l (c.buffer ++ more) (slow_payload c more loop)) limits
          (slow_framed c more loop (frame_size c.limits c.buffer) refl (omega (arith, full))
            (λ h total f. omega (arith, full, frame_size_bounds c.limits c.buffer h total f))
            (λ d rest e l s.
              subst (λ k. Agrees k rest (loop d rest)) (sym limits)
                (ih d rest e (l ∙ limits) (omega (arith, s, shorter))))))

  -- One round on a partial message, whichever stage it has reached.
  pub slow_round-Agrees :
      next_message a.limits a.buffer ≡ incomplete
      → RestAgrees
      → Agrees a.limits (a.buffer ++ input) (slow_round a input loop)
  slow_round-Agrees partial ih = elim (dec_lt (length a.buffer) 8) [
    | yes small ↦ elim (top_up_stops 8 a input (omega arith)) [
      | inl (short, used) ↦
          let c = (top_up 8 a input).0 in
          subst (Agrees a.limits (a.buffer ++ input)) (sym (round_short short)) (
            subst (λ x. Parses a.limits x [] (held c.buffer)) (top_up_used 8 a input used)
                (stops (next_short a.limits c.buffer short)),
            (top_up_moves 8 a input).1,
            inl refl,
          )
      | inr full ↦
          subst (Agrees a.limits (a.buffer ++ input)) (sym (round_payload (omega (arith, full))))
            (completed_header full ih)
    ]
    | no large ↦
        let long : 8 ≤ length a.buffer = omega arith in
        subst (Agrees a.limits (a.buffer ++ input))
          (sym (
            round_payload (top_up_keeps 8 a input long).0
            ∙ ap (λ (t : MessageAssembler × List ℕ). slow_payload t.0 t.1 loop)
                (top_up_header long)))
          (slow_framed a input loop (frame_size a.limits a.buffer) refl long
            (partial_fits partial long) ih)
  ]
