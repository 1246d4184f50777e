-- ===== src/Smp/Assembler/Loop.antt =====
-- The loop of `feed` against the stream: whatever is held goes in front of the new bytes.
use smply.Prelude.{
  ℕ, zero, suc, ◌+◌, ◌<◌, ◌≡◌, refl, sym, subst, inl, inr, true, false, List, [], ◌∷◌, ◌++◌,
  Bool-cases, length, arith,
}
use smply.Smp.Assembler.{MessageAssembler, fast_round, slow_round, is_empty, feed_loop}
use smply.Smp.Assembler.Stream.{incomplete, next_message}
use smply.Smp.Assembler.Agrees.{Agrees}
use smply.Smp.Assembler.Fast.{fast_round-Agrees}
use smply.Smp.Assembler.Slow.{slow_round-Agrees}

pub is_empty-eq : (bytes : List ℕ) → is_empty bytes ≡ true → bytes ≡ []
unfolding is_empty
is_empty-eq [] e = refl
is_empty-eq (b ∷ bs) e = cc

loop_fast :
    (fuel : ℕ) (a : MessageAssembler) (input : List ℕ)
    → is_empty a.buffer ≡ true
    → feed_loop (suc fuel) a input ≡ fast_round a input (feed_loop fuel)
unfolding feed_loop
loop_fast fuel a input e = ground (arith, e)

loop_slow :
    (fuel : ℕ) (a : MessageAssembler) (input : List ℕ)
    → is_empty a.buffer ≡ false
    → feed_loop (suc fuel) a input ≡ slow_round a input (feed_loop fuel)
unfolding feed_loop
loop_slow fuel a input e = ground (arith, e)

-- From an empty buffer each round takes at least a header off the input.
loop_empty-Agrees :
    (fuel : ℕ) (a : MessageAssembler) (input : List ℕ)
    → a.buffer ≡ []
    → length input < fuel
    → Agrees a.limits input (feed_loop fuel a input)
unfolding is_empty
loop_empty-Agrees zero a input empty h = absurd (omega arith)
loop_empty-Agrees (suc fuel) a input empty h =
    subst (Agrees a.limits input) (sym (loop_fast fuel a input (rw empty))) (
      fast_round-Agrees a input (feed_loop fuel) empty
        (λ rest s. loop_empty-Agrees fuel a rest empty (omega arith)))

-- A message that is held costs one round more.
pub feed_loop-Agrees :
    (fuel : ℕ) (a : MessageAssembler) (input : List ℕ)
    → next_message a.limits a.buffer ≡ incomplete
    → length input + 1 < fuel
    → Agrees a.limits (a.buffer ++ input) (feed_loop fuel a input)
feed_loop-Agrees zero a input partial h = absurd (omega arith)
feed_loop-Agrees (suc fuel) a input partial h = elim (Bool-cases (is_empty a.buffer)) [
  | inl empty ↦
      subst (λ b. Agrees a.limits (b ++ input) (feed_loop (suc fuel) a input))
        (sym (is_empty-eq a.buffer empty))
        (loop_empty-Agrees (suc fuel) a input (is_empty-eq a.buffer empty) (omega arith))
  | inr some_held ↦
      subst (Agrees a.limits (a.buffer ++ input)) (sym (loop_slow fuel a input some_held)) (
        slow_round-Agrees a input (feed_loop fuel) partial (λ c rest e l s.
          subst (λ k. Agrees k rest (feed_loop fuel c rest)) l
            (loop_empty-Agrees fuel c rest e (omega arith))))
]
