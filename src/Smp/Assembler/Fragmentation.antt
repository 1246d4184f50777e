-- ===== src/Smp/Assembler/Fragmentation.antt =====
-- How a stream is cut into calls of `feed` does not show in what the sink gets.
use mathlib.Core.List.{flatten}
use smply.Prelude.{
  ℕ, ◌+◌, ◌≡◌, refl, sym, subst, ◌⊎◌, inl, inr, true, false, Option, none, some, List, [], ◌∷◌,
  ◌++◌, append_assoc, append-nil, length, arith,
}
use smply.Error.{Result, ok, err}
use smply.Smp.Assembler.{
  AssemblerLimits, MessageAssembler, Message, Fed, returned, stuck, finish_feeding, feed,
}
use smply.Smp.Assembler.Stream.{
  incomplete, next_message, held, Parses, stops, goes_on, Parses-append, Parses-append_failed,
  Parses-unique, next_short,
}
use smply.Smp.Assembler.Agrees.{end_of, Agrees}
use smply.Smp.Assembler.Loop.{feed_loop-Agrees}

-- Between calls an assembler is not feeding and holds no complete message.
pub record IsReady (a : MessageAssembler) : Type 0 where
  pub idle : a.feeding ≡ false
  pub partial : next_message a.limits a.buffer ≡ incomplete

abbrev prepend : List Message → Fed → Fed
prepend ms stuck = stuck
prepend ms (returned a ns r) = returned a (ms ++ ns) r

-- A caller goes on after a success only.
abbrev then_feed : Fed → (MessageAssembler → Fed) → Fed
then_feed stuck next = stuck
then_feed (returned b ms (err e)) next = returned b ms (err e)
then_feed (returned b ms (ok _)) next = prepend ms (next b)

-- The result of feeding the pieces one after the other, up to the first failure.
unfoldable pub feed_all : MessageAssembler → List (List ℕ) → Fed
feed_all a [] = returned a [] (ok tt)
feed_all a (piece ∷ pieces) = then_feed (feed a piece) (λ b. feed_all b pieces)

-- What can be seen of a call: the messages, the result and the bytes that are held.
abbrev pub Outcome : Type 0
Outcome = Option (List Message × Result (Unit {0}) × List ℕ)

abbrev pub outcome : Fed → Outcome
outcome stuck = none
outcome (returned a ms r) = some (ms, r, a.buffer)

held_partial :
    {limits : AssemblerLimits} {bytes : List ℕ} {ms : List Message} (kept : List ℕ)
    → Parses limits bytes ms (held kept)
    → next_message limits kept ≡ incomplete
held_partial kept (stops e) = e
held_partial kept (goes_on e p) = held_partial kept p

abbrev Leaves : Fed → Type 0
Leaves stuck = ⊥
Leaves (returned a ms r) = IsReady a

pub empty_partial : (limits : AssemblerLimits) → next_message limits [] ≡ incomplete
empty_partial limits = next_short limits [] (omega arith)

finished-Leaves :
    (limits : AssemblerLimits) (bytes : List ℕ) (f : Fed)
    → Agrees limits bytes f
    → Leaves (finish_feeding f)
unfolding finish_feeding
finished-Leaves limits bytes stuck h = h
finished-Leaves limits bytes (returned a ms (ok u)) h = record {
  idle = refl;
  partial = subst (λ l. next_message l a.buffer ≡ incomplete) (sym h.1) (held_partial a.buffer h.0);
}
finished-Leaves limits bytes (returned a ms (err e)) (p, l, inl x) = absurd (cc x)
finished-Leaves limits bytes (returned a ms (err e)) (p, l, inr x) = record {
  idle = refl;
  partial = subst (λ b. next_message a.limits b ≡ incomplete) (sym x) (empty_partial a.limits);
}

finished :
    (limits : AssemblerLimits) (bytes : List ℕ) (f : Fed)
    → Agrees limits bytes f
    → Agrees limits bytes (finish_feeding f)
unfolding finish_feeding
finished limits bytes stuck h = h
finished limits bytes (returned a ms (ok u)) h = h
finished limits bytes (returned a ms (err e)) h = h

pub feed-Agrees :
    (a : MessageAssembler) (input : List ℕ)
    → IsReady a
    → Agrees a.limits (a.buffer ++ input) (feed a input)
unfolding feed
feed-Agrees a input v = rw v.idle (
    finished a.limits (a.buffer ++ input) _ (
      feed_loop-Agrees (length input + 2) (record a { feeding = true }) input v.partial
        (omega arith)))

pub feed-Leaves : (a : MessageAssembler) (input : List ℕ) → IsReady a → Leaves (feed a input)
unfolding feed
feed-Leaves a input v = rw v.idle (
    finished-Leaves a.limits (a.buffer ++ input) _ (
      feed_loop-Agrees (length input + 2) (record a { feeding = true }) input v.partial
        (omega arith)))

prepend-Agrees :
    (limits : AssemblerLimits) (bytes more : List ℕ) (b : MessageAssembler) (ms : List Message)
    (f : Fed)
    → Parses limits bytes ms (held b.buffer)
    → Agrees limits (b.buffer ++ more) f
    → Agrees limits (bytes ++ more) (prepend ms f)
prepend-Agrees limits bytes more b ms stuck p h = h
prepend-Agrees limits bytes more b ms (returned c ns r) p h = (Parses-append more p h.0, h.1, h.2)

then_feed-Agrees :
    (limits : AssemblerLimits) (bytes more : List ℕ) (f : Fed) (next : MessageAssembler → Fed)
    → Agrees limits bytes f
    → Leaves f
    → ((b : MessageAssembler) → IsReady b → Agrees b.limits (b.buffer ++ more) (next b))
    → Agrees limits (bytes ++ more) (then_feed f next)
then_feed-Agrees limits bytes more stuck next h v ih = h
then_feed-Agrees limits bytes more (returned b ms (err e)) next h v ih =
    (Parses-append_failed more h.0, h.1, h.2)
then_feed-Agrees limits bytes more (returned b ms (ok u)) next h v ih =
    prepend-Agrees limits bytes more b ms (next b) h.0
      (subst (λ l. Agrees l (b.buffer ++ more) (next b)) h.1 (ih b v))

-- Feeding the pieces one by one gives what the whole stream is.
pub feed_all-Agrees :
    (a : MessageAssembler) (pieces : List (List ℕ))
    → IsReady a
    → Agrees a.limits (a.buffer ++ flatten pieces) (feed_all a pieces)
unfolding feed_all flatten
feed_all-Agrees a [] v = (
  subst (λ b. Parses a.limits b [] (held a.buffer)) (sym (append-nil a.buffer)) (stops v.partial),
  refl,
  inl refl,
)
feed_all-Agrees a (piece ∷ pieces) v =
    subst (λ x. Agrees a.limits x (feed_all a (piece ∷ pieces)))
      (append_assoc a.buffer piece (flatten pieces))
      (then_feed-Agrees a.limits (a.buffer ++ piece) (flatten pieces) (feed a piece) _
        (feed-Agrees a piece v) (feed-Leaves a piece v) (λ b w. feed_all-Agrees b pieces w))

ended :
    (a b : MessageAssembler) (r t : Result (Unit {0}))
    → end_of a r ≡ end_of b t
    → (r ≡ ok tt) ⊎ (a.buffer ≡ [])
    → (t ≡ ok tt) ⊎ (b.buffer ≡ [])
    → (r ≡ t) × (a.buffer ≡ b.buffer)
ended a b (ok u) (ok v) e h k = (refl, cc)
ended a b (ok u) (err y) e h k = absurd (cc)
ended a b (err x) (ok v) e h k = absurd (cc)
ended a b (err x) (err y) e (inl h) k = absurd (cc)
ended a b (err x) (err y) e (inr h) (inl k) = absurd (cc)
ended a b (err x) (err y) e (inr h) (inr k) = (cc, cc)

pub Agrees-outcome :
    (limits : AssemblerLimits) (bytes : List ℕ) (f g : Fed)
    → Agrees limits bytes f
    → Agrees limits bytes g
    → outcome f ≡ outcome g
Agrees-outcome limits bytes stuck g h k = absurd h
Agrees-outcome limits bytes (returned a ms r) stuck h k = absurd k
Agrees-outcome limits bytes (returned a ms r) (returned b ns t) h k =
    let (messages, ends) = Parses-unique h.0 k.0 in
    let (results, buffers) = ended a b r t ends h.2 k.2 in cc

-- Two ways of cutting one stream into pieces have the same outcome: the messages that the sink
-- gets and their order, the result of the last call made, and the bytes that are held.
pub feed_all_pieces :
    (a : MessageAssembler) (pieces others : List (List ℕ))
    → IsReady a
    → flatten pieces ≡ flatten others
    → outcome (feed_all a pieces) ≡ outcome (feed_all a others)
feed_all_pieces a pieces others v same =
    Agrees-outcome a.limits (a.buffer ++ flatten pieces) _ _ (feed_all-Agrees a pieces v) (
      subst (λ x. Agrees a.limits (a.buffer ++ x) (feed_all a others)) (sym same)
        (feed_all-Agrees a others v))
