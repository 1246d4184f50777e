-- ===== src/Smp/Client/Matching.antt =====
-- Which request a received message completes.
use smply.Prelude.{ℕ, ◌≡◌, refl, ◌⊎◌, inl, inr, true, false, List, Bool-cases, Option-cases, arith}
use smply.Smp.Header.{Header}
use smply.Smp.Client.State.{Environment, SmpClient, SmpClientStats, inc64}
use smply.Smp.Client.Retired.{is_retired}
use smply.Smp.Client.Table.{entry_at, find_by_seq}
use smply.Smp.Client.Driving.{answers, dispatch, on_message}
use smply.Smp.Client.Slots.{find_by_seq_found}

-- A message that answers no outstanding request, since no request has its number or the one that
-- has waits for something else, completes nothing: it changes only the counters, of which it
-- raises the received messages and exactly one of the unmatched, the late and the mismatched.
pub on_message_ignored :
    (env : Environment) (header : Header) (payload : List ℕ) (c : SmpClient)
    → ((slot : ℕ)
        → (entry_at c.pending slot).active ≡ true
        → (entry_at c.pending slot).seq ≡ header.seq
        → answers header (entry_at c.pending slot) ≡ false)
    → (stats : SmpClientStats) × (on_message env header payload c ≡ record c { stats = stats })
      × ((stats ≡ record (c.stats) {
        received = inc64 c.stats.received;
        unmatched = inc64 c.stats.unmatched;
      })
          ⊎ (stats
              ≡ record (c.stats) { received = inc64 c.stats.received; late = inc64 c.stats.late })
          ⊎ (stats ≡ record (c.stats) {
            received = inc64 c.stats.received;
            mismatched = inc64 c.stats.mismatched;
          }))
unfolding on_message dispatch
on_message_ignored env header payload c other =
    elim (Option-cases (find_by_seq header.seq c.pending)) [
      | inl unknown ↦ elim (Bool-cases (is_retired c.retired header.seq)) [
        | inl was ↦ (_, ground (arith, unknown, was), inr (inl refl))
        | inr never ↦ (_, ground (arith, unknown, never), inl refl)
      ]
      | inr (slot, found) ↦
          let (live, same) = find_by_seq_found header.seq c.pending slot found in
          (_, ground (arith, found, other slot live same), inr (inr refl))
    ]
