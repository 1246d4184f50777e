-- ===== src/Smp/Client/Table.antt =====
-- The table of outstanding requests: slots, handles and sequence numbers.
use mathlib.Core.Option
use smply.Prelude.{
  ℕ, zero, suc, ◌+◌, ◌%◌, Bool, true, false, ◌&&◌, ◌||◌, not, Option, none, some, List, [], ◌∷◌,
  ◌==◌, leb, if◌then◌else◌, length, get_or, set,
}
use smply.Smp.Client.State.{RequestHandle, Pending, empty_slot, RetiredSeqs, SmpClient}
use smply.Smp.Client.Retired.{is_retired, retire}

abbrev pub entry_at : List Pending → ℕ → Pending
entry_at pending slot = get_or pending slot empty_slot

-- `find_by_seq()`, giving the slot instead of a pointer to it.
unfoldable pub find_by_seq : ℕ → List Pending → Option ℕ
find_by_seq seq [] = none
find_by_seq seq (p ∷ ps) =
    if p.active && p.seq == seq then some 0 else Option.map suc (find_by_seq seq ps)

unfoldable pub free_slot : List Pending → Option ℕ
free_slot [] = none
free_slot (p ∷ ps) = if not p.active then some 0 else Option.map suc (free_slot ps)

-- The slot that a handle refers to, if its request is still the one outstanding there.
unfoldable pub resolve : List Pending → RequestHandle → Option ℕ
resolve pending handle =
    let entry = entry_at pending handle.slot in
    if handle.generation == 0 || leb (length pending) handle.slot
    then none
    else if not entry.active || not (entry.generation == handle.generation)
    then none
    else some handle.slot

abbrev pub is_none {ℓ} : {A : Type ℓ} → Option A → Bool
is_none none = true
is_none (some a) = false

-- The loop of `allocate_seq()`, with the attempts left and the one it is at.
unfoldable pub allocate_from : ℕ → ℕ → ℕ → List Pending → RetiredSeqs → Option ℕ
allocate_from zero attempt next pending retired = none
allocate_from (suc left) attempt next pending retired =
    let candidate = (next + attempt) % 256 in
    let rest = allocate_from left (attempt + 1) next pending retired in
    if is_none (find_by_seq candidate pending) && not (is_retired retired candidate)
    then some candidate
    else rest

unfoldable pub allocate_seq : SmpClient → Option ℕ
allocate_seq c = allocate_from 256 0 c.next_seq c.pending c.retired

-- The entry's callback leaves the table before it runs, and its number is retired.
unfoldable pub detach : ℕ → SmpClient → SmpClient
unfolding retire
detach slot c =
    let entry = entry_at c.pending slot in
    record c {
      pending = set c.pending slot (record entry { active = false; callback = none });
      retired = retire c.config.max_retired_seqs c.retired entry.seq;
    }
