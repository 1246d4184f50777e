-- ===== src/Smp/Client/Progress.antt =====
-- What every operation of the client keeps: the account of the callbacks, the soundness of the
-- table, and the handles that refer to nothing.
use smply.Prelude.{
  ℕ, zero, suc, ◌+◌, ◌^◌, ◌≤◌, ◌<◌, ◌≡◌, refl, ◌∙◌, ◌≢◌, ◌⊎◌, inl, inr, true, false, Option, none,
  List, [], ◌∷◌, ◌++◌, ◌==◌, if◌then◌else◌, length, set, arith,
}
use smply.Smp.Client.State.{
  RequestHandle, Pending, RetiredSeqs, Work, failure, task, Event, completed, performed, SmpClient,
}
use smply.Smp.Client.Retired.{count, IsRing, retire, retire-IsRing}
use smply.Smp.Client.Table.{entry_at, detach}
use smply.Smp.Client.Lifecycle.{cons_if}
use smply.Smp.Client.Slots.{is_callback, waiting, holders, waiting-set, holders-set, active_inside}

-- How often the callback `k` has run.
unfoldable pub finished : ℕ → List Event → ℕ
finished k [] = 0
finished k (completed callback r ∷ es) = (if callback == k then 1 else 0) + finished k es
finished k (performed work ∷ es) = finished k es

-- How often its failure waits in the queue.
unfoldable pub queued : ℕ → List Work → ℕ
queued k [] = 0
queued k (failure callback e ∷ ws) = (if callback == k then 1 else 0) + queued k ws
queued k (task work ∷ ws) = queued k ws

-- The requests with the callback `k` that are done, outstanding, or about to be failed.
abbrev pub balance : ℕ → SmpClient → ℕ
balance k c = finished k c.log + waiting k c.pending + queued k c.deferred

-- The table: no two outstanding requests share a number, and none has a retired one. As long as
-- fewer than 2 ^ 64 - 1 packets were sent, generations have not wrapped around.
pub record IsTable (max_retired : ℕ) (pending : List Pending) (retired : RetiredSeqs)
    (generation sent : ℕ) : Type 0 where
  pub distinct : (seq : ℕ) → holders seq pending ≤ 1
  pub apart : (seq : ℕ) → retired.flags seq ≡ true → holders seq pending ≡ 0
  pub remembered : IsRing max_retired retired
  pub counted : sent + 1 < 2 ^ 64 → (0 < generation) × (generation ≤ sent + 1)
  pub older :
      (slot : ℕ)
      → (entry_at pending slot).active ≡ true
      → sent + 1 < 2 ^ 64
      → ((entry_at pending slot).generation ≢ 0) × ((entry_at pending slot).generation < generation)

abbrev pub IsValid : SmpClient → Type 0
IsValid c =
    IsTable c.config.max_retired_seqs c.pending c.retired c.next_generation (length c.sent_packets)

-- The handle was given out, and its request is not outstanding any more.
abbrev pub Stale : RequestHandle → SmpClient → Type 0
Stale h c =
    length c.sent_packets + 1 < 2 ^ 64
    → (h.generation < c.next_generation)
      × ((entry_at c.pending h.slot).active ≡ true
          → (entry_at c.pending h.slot).generation ≢ h.generation)

-- The generation was given out.
abbrev pub Known : ℕ → SmpClient → Type 0
Known g c = length c.sent_packets + 1 < 2 ^ 64 → g < c.next_generation

-- From one state to a later one, in which a callback is owed besides those handed in.
pub record Moves (owed : Option ℕ) (c d : SmpClient) : Type 0 where
  pub balanced :
      (k : ℕ)
      → balance k d + count k c.issued ≡ balance k c + count k d.issued + count k (cons_if owed [])
  pub valid : IsValid c → IsValid d
  pub stale : (h : RequestHandle) → IsValid c → Stale h c → Stale h d
  pub known : (g : ℕ) → IsValid c → Known g c → Known g d
  pub sent_more : length c.sent_packets ≤ length d.sent_packets
  pub size : length d.pending ≡ length c.pending

abbrev pub Progress : SmpClient → SmpClient → Type 0
Progress c d = Moves none c d

pub Moves-refl : (c : SmpClient) → Progress c c
Moves-refl c = record {
  balanced = λ k. omega arith;
  valid = λ v. v;
  stale = λ h v s. s;
  known = λ g v s. s;
  sent_more = omega arith;
  size = refl;
}

pub Moves-trans :
    (owed : Option ℕ) (c d e : SmpClient) → Progress c d → Moves owed d e → Moves owed c e
Moves-trans owed c d e m n = record {
  balanced = λ k. omega (arith, m.balanced k, n.balanced k);
  valid = λ v. n.valid (m.valid v);
  stale = λ h v s. n.stale h (m.valid v) (m.stale h v s);
  known = λ g v s. n.known g (m.valid v) (m.known g v s);
  sent_more = omega (arith, m.sent_more, n.sent_more);
  size = n.size ∙ m.size;
}

pub queued-append : (k : ℕ) (vs ws : List Work) → queued k (vs ++ ws) ≡ queued k vs + queued k ws
unfolding queued
queued-append k [] ws = omega arith
queued-append k (failure callback e ∷ vs) ws = omega (arith, queued-append k vs ws)
queued-append k (task work ∷ vs) ws = queued-append k vs ws

pub entry-set :
    (ps : List Pending) (i j : ℕ) (p : Pending)
    → i < length ps
    → entry_at (set ps i p) j ≡ (if j == i then p else entry_at ps j)
entry-set [] i j p h = absurd (omega arith)
entry-set (q ∷ ps) zero zero p h = refl
entry-set (q ∷ ps) zero (suc j) p h = ground arith
entry-set (q ∷ ps) (suc i) zero p h = ground arith
entry-set (q ∷ ps) (suc i) (suc j) p h = ground (arith, entry-set ps i j p)

-- Retiring a number makes no other number retired.
pub retire_only :
    (max_retired : ℕ) (r : RetiredSeqs) (seq j : ℕ)
    → (retire max_retired r seq).flags j ≡ true
    → (r.flags j ≡ true) ⊎ (j ≡ seq)
unfolding retire
retire_only max_retired r seq j h = ground (arith, h)

abbrev pub emptied : Pending → Pending
emptied p = record p { active = false; callback = none }

module _ (c : SmpClient) (slot : ℕ) (live : (entry_at c.pending slot).active ≡ true) where
  pub detach-waiting :
      (k : ℕ)
      → waiting k (detach slot c).pending
          + (if is_callback k (entry_at c.pending slot).callback then 1 else 0)
        ≡ waiting k c.pending
  unfolding detach
  detach-waiting k = ground (
    arith,
    live,
    waiting-set k c.pending slot (emptied (entry_at c.pending slot))
        (active_inside c.pending slot live),
  )

  detach-holders :
      (seq : ℕ)
      → holders seq (detach slot c).pending
          + (if (entry_at c.pending slot).seq == seq then 1 else 0)
        ≡ holders seq c.pending
  unfolding detach
  detach-holders seq = ground (
    arith,
    live,
    holders-set seq c.pending slot (emptied (entry_at c.pending slot))
        (active_inside c.pending slot live),
  )

  pub detach-IsValid : IsValid c → IsValid (detach slot c)
  unfolding detach
  detach-IsValid v = record {
    distinct = λ seq. omega (arith, v.distinct seq, detach-holders seq);
    apart = λ seq h.
        elim (retire_only c.config.max_retired_seqs c.retired (entry_at c.pending slot).seq seq h) [
          | inl was ↦ omega (arith, v.apart seq was, detach-holders seq)
          | inr same ↦ ground (arith, same, v.distinct seq, detach-holders seq)
        ];
    remembered =
        retire-IsRing c.config.max_retired_seqs c.retired (entry_at c.pending slot).seq
          v.remembered;
    counted = v.counted;
    older = λ j live' few.
        let at =
          entry-set c.pending slot j (emptied (entry_at c.pending slot))
            (active_inside c.pending slot live) in
        let was : (entry_at c.pending j).active ≡ true = ground (arith, at, live') in
        let (real, before) = v.older j was few in
        (ground (arith, at, live', real), ground (arith, at, live', before));
  }

  pub detach-Stale : (h : RequestHandle) → Stale h c → Stale h (detach slot c)
  unfolding detach
  detach-Stale h s = λ few. (
    (s few).0,
    ground (
      arith,
      (s few).1,
      entry-set c.pending slot h.slot (emptied (entry_at c.pending slot))
          (active_inside c.pending slot live),
    ),
  )
