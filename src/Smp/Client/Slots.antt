-- ===== src/Smp/Client/Slots.antt =====
-- Counting over the table of outstanding requests, and what its searches find.
use smply.Prelude.{
  ℕ, zero, suc, ◌+◌, ◌≤◌, ◌<◌, ◌≡◌, refl, Bool, true, false, ◌&&◌, Option, none, some, List, [],
  ◌∷◌, ◌==◌, if◌then◌else◌, length, set, arith,
}
use smply.Smp.Client.State.{RequestHandle, Pending}
use smply.Smp.Client.Table.{entry_at, find_by_seq, free_slot, resolve}

abbrev pub is_callback : ℕ → Option ℕ → Bool
is_callback k none = false
is_callback k (some callback) = callback == k

abbrev pub waits : ℕ → Pending → ℕ
waits k p = if p.active && is_callback k p.callback then 1 else 0

-- The outstanding requests with the callback `k`.
unfoldable pub waiting : ℕ → List Pending → ℕ
waiting k [] = 0
waiting k (p ∷ ps) = waits k p + waiting k ps

abbrev pub holds : ℕ → Pending → ℕ
holds seq p = if p.active && p.seq == seq then 1 else 0

-- The outstanding requests with the sequence number `seq`.
unfoldable pub holders : ℕ → List Pending → ℕ
holders seq [] = 0
holders seq (p ∷ ps) = holds seq p + holders seq ps

pub waiting-set :
    (k : ℕ) (ps : List Pending) (slot : ℕ) (p : Pending)
    → slot < length ps
    → waiting k (set ps slot p) + waits k (entry_at ps slot) ≡ waiting k ps + waits k p
unfolding waiting
waiting-set k [] slot p h = absurd (omega arith)
waiting-set k (q ∷ ps) zero p h = omega arith
waiting-set k (q ∷ ps) (suc slot) p h = omega (arith, waiting-set k ps slot p (omega arith))

pub holders-set :
    (seq : ℕ) (ps : List Pending) (slot : ℕ) (p : Pending)
    → slot < length ps
    → holders seq (set ps slot p) + holds seq (entry_at ps slot) ≡ holders seq ps + holds seq p
unfolding holders
holders-set seq [] slot p h = absurd (omega arith)
holders-set seq (q ∷ ps) zero p h = omega arith
holders-set seq (q ∷ ps) (suc slot) p h = omega (arith, holders-set seq ps slot p (omega arith))

pub holders_entry :
    (seq : ℕ) (ps : List Pending) (slot : ℕ) → holds seq (entry_at ps slot) ≤ holders seq ps
unfolding holders
holders_entry seq [] slot = ground arith
holders_entry seq (q ∷ ps) zero = omega arith
holders_entry seq (q ∷ ps) (suc slot) = omega (arith, holders_entry seq ps slot)

pub active_inside :
    (ps : List Pending) (slot : ℕ) → (entry_at ps slot).active ≡ true → slot < length ps
active_inside [] slot h = absurd (ground (arith, h))
active_inside (q ∷ ps) zero h = omega arith
active_inside (q ∷ ps) (suc slot) h = omega (arith, active_inside ps slot h)

pub free_slot_found :
    (ps : List Pending) (slot : ℕ)
    → free_slot ps ≡ some slot
    → (slot < length ps) × ((entry_at ps slot).active ≡ false)
unfolding free_slot
free_slot_found [] slot h = absurd (ground (arith, h))
free_slot_found (p ∷ ps) zero h = ground (arith, h)
free_slot_found (p ∷ ps) (suc slot) h = ground (arith, h, free_slot_found ps slot)

pub find_by_seq_found :
    (seq : ℕ) (ps : List Pending) (slot : ℕ)
    → find_by_seq seq ps ≡ some slot
    → ((entry_at ps slot).active ≡ true) × ((entry_at ps slot).seq ≡ seq)
unfolding find_by_seq
find_by_seq_found seq [] slot h = absurd (ground (arith, h))
find_by_seq_found seq (p ∷ ps) zero h = ground (arith, h)
find_by_seq_found seq (p ∷ ps) (suc slot) h = ground (arith, h, find_by_seq_found seq ps slot)

pub find_by_seq-none :
    (seq : ℕ) (ps : List Pending) → find_by_seq seq ps ≡ none → holders seq ps ≡ 0
unfolding find_by_seq holders
find_by_seq-none seq [] h = refl
find_by_seq-none seq (p ∷ ps) h = ground (arith, h, find_by_seq-none seq ps)

pub resolve_found :
    (ps : List Pending) (handle : RequestHandle) (slot : ℕ)
    → resolve ps handle ≡ some slot
    → (slot ≡ handle.slot)
      × ((entry_at ps slot).active ≡ true)
      × ((entry_at ps slot).generation ≡ handle.generation)
unfolding resolve
resolve_found ps handle slot h = ground (arith, h)
