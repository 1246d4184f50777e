-- ===== src/Smp/Client/Allocation.antt =====
-- When the allocation of a sequence number fails.
use smply.Prelude.{
  ℕ, zero, suc, ◌+◌, ◌-◌, ◌%◌, ◌<◌, ◌≡◌, subst, ◌≢◌, ◌⊎◌, inl, inr, true, false, ◌&&◌, not, none,
  List, Option-cases, arith,
}
use smply.Smp.Client.State.{Pending, RetiredSeqs, SmpClient}
use smply.Smp.Client.Retired.{is_retired}
use smply.Smp.Client.Table.{find_by_seq, allocate_from, allocate_seq, is_none}
use smply.Smp.Client.Slots.{holders, holders_entry, find_by_seq_found}

-- A number that an outstanding request has, or that is retired.
abbrev Taken : List Pending → RetiredSeqs → ℕ → Type 0
Taken pending r seq = (holders seq pending ≢ 0) ⊎ (r.flags seq ≡ true)

found_Taken :
    (pending : List Pending) (r : RetiredSeqs) (seq : ℕ)
    → (is_none (find_by_seq seq pending) && not (is_retired r seq)) ≡ false
    → Taken pending r seq
found_Taken pending r seq h = elim (Option-cases (find_by_seq seq pending)) [
  | inl free ↦ inr (ground (arith, free, h))
  | inr (slot, found) ↦
      let (live, same) = find_by_seq_found seq pending slot found in
      inl (ground (arith, live, same, holders_entry seq pending slot))
]

allocate_from-none :
    (left attempt next : ℕ) (pending : List Pending) (r : RetiredSeqs) (i : ℕ)
    → allocate_from left attempt next pending r ≡ none
    → i < left
    → Taken pending r ((next + (attempt + i)) % 256)
unfolding allocate_from
allocate_from-none zero attempt next pending r i h inside = absurd (omega (arith, inside))
allocate_from-none (suc left) attempt next pending r zero h inside =
    subst (Taken pending r) (omega arith)
      (found_Taken pending r ((next + attempt) % 256) (ground (arith, h)))
allocate_from-none (suc left) attempt next pending r (suc i) h inside =
    subst (Taken pending r) (omega arith) (
      allocate_from-none left (attempt + 1) next pending r i (ground (arith, h))
        (omega (arith, inside)))

-- An allocation fails only when each of the 256 numbers is that of an outstanding request or
-- retired: wherever the search starts, it passes over none.
pub allocate_seq-none :
    (c : SmpClient) (seq : ℕ)
    → allocate_seq c ≡ none
    → seq < 256
    → (holders seq c.pending ≢ 0) ⊎ (c.retired.flags seq ≡ true)
unfolding allocate_seq
allocate_seq-none c seq h small = subst (Taken c.pending c.retired) (omega (arith, small)) (
    allocate_from-none 256 0 c.next_seq c.pending c.retired ((seq + 256 - c.next_seq % 256) % 256) h
      (omega arith))
