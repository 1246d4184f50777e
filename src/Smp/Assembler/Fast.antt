-- ===== src/Smp/Assembler/Fast.antt =====
-- The fast path of the loop: messages are parsed straight out of the input.
use smply.Prelude.{
  ℕ, ◌≤◌, ◌<◌, ◌≡◌, refl, sym, subst, inl, inr, List, [], ◌++◌, length, length-drop, take, drop,
  dec_lt, arith,
}
use smply.Error.{Error, Result, ok, err}
use smply.Smp.Header.{Header}
use smply.Smp.Assembler.{
  MessageAssembler, Fed, returned, reset, stash, deliver, frame_size, fast_round,
}
use smply.Smp.Assembler.Stream.{
  incomplete, next_message, held, Parses, stops, breaks, frame_size_bounds, next_short, next_broken,
  next_partial, next_whole,
}
use smply.Smp.Assembler.Agrees.{Agrees, deliver-Agrees}

-- The fast path, where the rest of the loop agrees on shorter inputs.
module _ (a : MessageAssembler) (input : List ℕ) (loop : MessageAssembler → List ℕ → Fed) where
  fast_short : length input < 8 → fast_round a input loop ≡ returned (stash a input) [] (ok tt)
  unfolding fast_round
  fast_short h = ground arith

  fast_broken :
      (x : Error)
      → 8 ≤ length input
      → frame_size a.limits input ≡ err x
      → fast_round a input loop ≡ returned (reset a) [] (err x)
  unfolding fast_round
  fast_broken x h f = ground (arith, f)

  fast_partial :
      (h : Header) (total : ℕ)
      → 8 ≤ length input
      → frame_size a.limits input ≡ ok (h, total)
      → length input < total
      → fast_round a input loop ≡ returned (stash a input) [] (ok tt)
  unfolding fast_round
  fast_partial h total long f short = ground (arith, f)

  fast_whole :
      (h : Header) (total : ℕ)
      → 8 ≤ length input
      → frame_size a.limits input ≡ ok (h, total)
      → total ≤ length input
      → fast_round a input loop
        ≡ deliver (h, take h.length (drop 8 input)) (loop a (drop total input))
  unfolding fast_round
  fast_whole h total long f whole = ground (arith, f)

  waits_Agrees :
      a.buffer ≡ []
      → next_message a.limits input ≡ incomplete
      → Agrees a.limits input (returned (stash a input) [] (ok tt))
  unfolding stash
  waits_Agrees empty e = (
    subst (λ b. Parses a.limits input [] (held (b ++ input))) (sym empty) (stops e),
    refl,
    inl refl,
  )

  fast_framed :
      (r : Result (Header × ℕ))
      → frame_size a.limits input ≡ r
      → a.buffer ≡ []
      → 8 ≤ length input
      → ((rest : List ℕ) → length rest < length input → Agrees a.limits rest (loop a rest))
      → Agrees a.limits input (fast_round a input loop)
  unfolding reset
  fast_framed (err x) f empty long ih =
      subst (Agrees a.limits input) (sym (fast_broken x long f))
        (breaks (next_broken a.limits input x long f), refl, inr refl)
  fast_framed (ok (h, total)) f empty long ih = elim (dec_lt (length input) total) [
    | yes short ↦
        subst (Agrees a.limits input) (sym (fast_partial h total long f short))
          (waits_Agrees empty (next_partial a.limits input h total long f short))
    | no whole ↦ subst (Agrees a.limits input) (sym (fast_whole h total long f (omega arith))) (
        deliver-Agrees a.limits input (drop total input) _ _
          (next_whole a.limits input h total long f (omega arith))
          (ih (drop total input)
            (omega (arith, length-drop total input, frame_size_bounds a.limits input h total f))))
  ]

  pub fast_round-Agrees :
      a.buffer ≡ []
      → ((rest : List ℕ) → length rest < length input → Agrees a.limits rest (loop a rest))
      → Agrees a.limits input (fast_round a input loop)
  fast_round-Agrees empty ih = elim (dec_lt (length input) 8) [
    | yes short ↦
        subst (Agrees a.limits input) (sym (fast_short short))
          (waits_Agrees empty (next_short a.limits input short))
    | no long ↦ fast_framed (frame_size a.limits input) refl empty (omega arith) ih
  ]
