-- ===== src/Smp/Client/Steps.antt =====
-- The operations keep the account, the table and the stale handles: what a callback may call.
use smply.Prelude.{
  ℕ, zero, suc, ◌+◌, ◌<◌, ◌≡◌, refl, ◌∙◌, inl, inr, true, false, Option, none, some, List, [], ◌∷◌,
  if◌then◌else◌, length-set, Option-cases, arith,
}
use smply.Error.{Error}
use smply.Smp.Client.State.{
  RequestHandle, Pending, SmpClientStats, inc64, RetiredSeqs, failure, task, SmpClient,
}
use smply.Smp.Client.Retired.{count}
use smply.Smp.Client.Table.{entry_at, find_by_seq, resolve, allocate_from, allocate_seq, detach}
use smply.Smp.Client.Lifecycle.{cons_if, defer, defer_work, cancel}
use smply.Smp.Client.Slots.{is_callback, holders, find_by_seq-none, resolve_found}
use smply.Smp.Client.Progress.{
  queued, Moves, Progress, Moves-refl, Moves-trans, queued-append, detach-waiting, detach-IsValid,
  detach-Stale,
}

allocate_from_lem :
    (left attempt next seq : ℕ) (pending : List Pending) (r : RetiredSeqs)
    → allocate_from left attempt next pending r ≡ some seq
    → (find_by_seq seq pending ≡ none) × (r.flags seq ≡ false) × (seq < 256)
unfolding allocate_from
allocate_from_lem zero attempt next seq pending r h = absurd (ground (arith, h))
allocate_from_lem (suc left) attempt next seq pending r h =
    ground (arith, h, allocate_from_lem left (attempt + 1) next seq pending r)

-- A number that is allocated is a byte that neither an outstanding request nor the retired set has.
pub allocate_seq_lem :
    (c : SmpClient) (seq : ℕ)
    → allocate_seq c ≡ some seq
    → (holders seq c.pending ≡ 0) × (c.retired.flags seq ≡ false) × (seq < 256)
unfolding allocate_seq
allocate_seq_lem c seq h =
    let (free, fresh, small) = allocate_from_lem 256 0 c.next_seq seq c.pending c.retired h in
    (find_by_seq-none seq c.pending free, fresh, small)

pub defer-Moves :
    (callback : Option ℕ) (e : Error) (c : SmpClient) → Moves callback c (defer callback e c)
unfolding defer queued
defer-Moves none e c = Moves-refl c
defer-Moves (some callback) e c = record {
  balanced = λ k. omega (arith, queued-append k c.deferred (failure callback e ∷ []));
  valid = λ v. v;
  stale = λ h v s. s;
  known = λ g v s. s;
  sent_more = omega arith;
  size = refl;
}

pub defer_work-Progress : (work : Option ℕ) (c : SmpClient) → Progress c (defer_work work c)
unfolding defer_work queued
defer_work-Progress none c = Moves-refl c
defer_work-Progress (some work) c = record {
  balanced = λ k. omega (arith, queued-append k c.deferred (task work ∷ []));
  valid = λ v. v;
  stale = λ h v s. s;
  known = λ g v s. s;
  sent_more = omega arith;
  size = refl;
}

pub counted-Progress :
    (stats : SmpClientStats) (c : SmpClient) → Progress c (record c { stats = stats })
counted-Progress stats c = record {
  balanced = λ k. omega arith;
  valid = λ v. v;
  stale = λ h v s. s;
  known = λ g v s. s;
  sent_more = omega arith;
  size = refl;
}

pub numbered-Progress : (seq : ℕ) (c : SmpClient) → Progress c (record c { next_seq = seq })
numbered-Progress seq c = record {
  balanced = λ k. omega arith;
  valid = λ v. v;
  stale = λ h v s. s;
  known = λ g v s. s;
  sent_more = omega arith;
  size = refl;
}

pub count-cons_if :
    (k : ℕ) (callback : Option ℕ) (xs : List ℕ)
    → count k (cons_if callback xs) ≡ count k xs + count k (cons_if callback [])
count-cons_if k none xs = omega arith
count-cons_if k (some callback) xs = omega arith

count-is_callback :
    (k : ℕ) (callback : Option ℕ)
    → count k (cons_if callback []) ≡ (if is_callback k callback then 1 else 0)
count-is_callback k none = refl
count-is_callback k (some callback) = omega arith

-- What happens to the callback that `detach` hands back settles the account.
pub detach-Progress :
    (slot : ℕ) (c d : SmpClient)
    → (entry_at c.pending slot).active ≡ true
    → Moves (entry_at c.pending slot).callback (detach slot c) d
    → Progress c d
unfolding detach
detach-Progress slot c d live m = record {
  balanced = λ k. omega (
    arith,
    m.balanced k,
    detach-waiting c slot live k,
    count-is_callback k (entry_at c.pending slot).callback,
  );
  valid = λ v. m.valid (detach-IsValid c slot live v);
  stale = λ h v s. m.stale h (detach-IsValid c slot live v) (detach-Stale c slot live h s);
  known = λ g v s. m.known g (detach-IsValid c slot live v) s;
  sent_more = m.sent_more;
  size = m.size ∙ length-set c.pending slot _;
}

pub cancel-Progress : (handle : RequestHandle) (c : SmpClient) → Progress c (cancel handle c)
unfolding cancel
cancel-Progress handle c = elim (Option-cases (resolve c.pending handle)) [
  | inl nothing ↦ rw (nothing, cancel) (Moves-refl c)
  | inr (slot, found) ↦
      rw (found, cancel)
        (let (_, live, _) = resolve_found c.pending handle slot found in
          let counted = record (c.stats) { cancelled = inc64 c.stats.cancelled } in
          Moves-trans none c _ _ (counted-Progress counted c) (
            detach-Progress slot (record c { stats = counted }) _ live
              (defer-Moves (entry_at c.pending slot).callback _ _)))
]
