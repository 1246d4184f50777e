-- ===== src/Smp/Client/Accounts.antt =====
-- The same for what drives the client: each operation keeps the account, the table and the stale
-- handles, whatever the callbacks call while they run.
use smply.Prelude.{
  ℕ, zero, suc, ◌+◌, ◌≡◌, refl, subst, ◌∙◌, ◌⊎◌, inl, inr, true, Option, none, some, List, [], ◌∷◌,
  ◌++◌, append-nil, length, Bool-cases, arith,
}
use smply.Error.{Error, Result, err}
use smply.Smp.Client.State.{
  RawResponse, Work, failure, task, completed, performed, Environment, SmpClient,
}
use smply.Smp.Client.Table.{entry_at, detach}
use smply.Smp.Client.Lifecycle.{
  notify, invoke, complete, fail_from, fail_all, do_work, do_batch, deliver_deferred,
}
use smply.Smp.Client.Progress.{
  finished, queued, Moves, Progress, Moves-refl, Moves-trans, queued-append,
}
use smply.Smp.Client.Steps.{detach-Progress}
use smply.Smp.Client.Requests.{perform_all-Progress}

Moves-then : (owed : Option ℕ) (c d e : SmpClient) → Moves owed c d → Progress d e → Moves owed c e
Moves-then owed c d e m n = record {
  balanced = λ k. omega (arith, m.balanced k, n.balanced k);
  valid = λ v. n.valid (m.valid v);
  stale = λ h v s. n.stale h (m.valid v) (m.stale h v s);
  known = λ g v s. n.known g (m.valid v) (m.known g v s);
  sent_more = omega (arith, m.sent_more, n.sent_more);
  size = n.size ∙ m.size;
}

logged-Moves :
    (callback : ℕ) (r : Result RawResponse) (c : SmpClient)
    → Moves (some callback) c (record c { log = completed callback r ∷ c.log })
unfolding finished
logged-Moves callback r c = record {
  balanced = λ k. omega arith;
  valid = λ v. v;
  stale = λ h v s. s;
  known = λ g v s. s;
  sent_more = omega arith;
  size = refl;
}

-- Work that was taken off the queue and is still to be done.
abbrev owing : List Work → SmpClient → SmpClient
owing ws c = record c { deferred = ws ++ c.deferred }

owing-Progress :
    (ws : List Work) (c d : SmpClient) → Progress c d → Progress (owing ws c) (owing ws d)
owing-Progress ws c d m = record {
  balanced = λ k.
      omega (arith, m.balanced k, queued-append k ws c.deferred, queued-append k ws d.deferred);
  valid = λ v. m.valid v;
  stale = λ h v s. m.stale h v s;
  known = λ g v s. m.known g v s;
  sent_more = m.sent_more;
  size = m.size;
}

settled-Progress :
    (callback : ℕ) (e : Error) (ws : List Work) (c : SmpClient)
    → Progress
        (owing (failure callback e ∷ ws) c)
        (owing ws (record c { log = completed callback (err e) ∷ c.log }))
unfolding finished queued
settled-Progress callback e ws c = record {
  balanced = λ k. omega arith;
  valid = λ v. v;
  stale = λ h v s. s;
  known = λ g v s. s;
  sent_more = omega arith;
  size = refl;
}

performed-Progress :
    (work : ℕ) (ws : List Work) (c : SmpClient)
    → Progress (owing (task work ∷ ws) c) (owing ws (record c { log = performed work ∷ c.log }))
unfolding finished queued
performed-Progress work ws c = record {
  balanced = λ k. omega arith;
  valid = λ v. v;
  stale = λ h v s. s;
  known = λ g v s. s;
  sent_more = omega arith;
  size = refl;
}

-- The whole queue is taken.
taken-Progress :
    (ws : List Work) (c : SmpClient)
    → c.deferred ≡ ws
    → Progress c (owing ws (record c { deferred = [] }))
taken-Progress ws c all = record {
  balanced = λ k. rw (append-nil ws, all) (omega arith);
  valid = λ v. v;
  stale = λ h v s. s;
  known = λ g v s. s;
  sent_more = omega arith;
  size = refl;
}

pub List-cases {ℓ} :
    {A : Type ℓ} (xs : List A) → (xs ≡ []) ⊎ ((y : A) × (ys : List A) × (xs ≡ y ∷ ys))
List-cases [] = inl refl
List-cases (x ∷ xs) = inr (x, xs, refl)

-- Where the loop stops nothing is queued.
pub deliver_deferred_done :
    (env : Environment) (fuel : ℕ) (c d : SmpClient)
    → deliver_deferred env fuel c ≡ some d
    → d.deferred ≡ []
unfolding deliver_deferred
deliver_deferred_done env zero c d h = elim (List-cases c.deferred) [
  | inl empty ↦ ground (arith, empty, h)
  | inr (w, ws, more) ↦ absurd (ground (arith, more, h))
]
deliver_deferred_done env (suc fuel) c d h = elim (List-cases c.deferred) [
  | inl empty ↦ ground (arith, empty, h)
  | inr (w, ws, more) ↦
      deliver_deferred_done env fuel (do_batch env (w ∷ ws) (record c { deferred = [] })) d
        (ground (arith, more, h))
]

module _ (env : Environment) where
  pub invoke-Moves :
      (callback : Option ℕ) (r : Result RawResponse) (c : SmpClient)
      → Moves callback c (invoke env callback r c)
  unfolding invoke notify
  invoke-Moves none r c = Moves-refl c
  invoke-Moves (some callback) r c =
      Moves-then (some callback) c _ _ (logged-Moves callback r c) (perform_all-Progress env _ _)

  pub complete-Progress :
      (slot : ℕ) (r : Result RawResponse) (c : SmpClient)
      → (entry_at c.pending slot).active ≡ true
      → Progress c (complete env slot r c)
  unfolding complete
  complete-Progress slot r c live =
      detach-Progress slot c _ live
        (invoke-Moves (entry_at c.pending slot).callback r (detach slot c))

  fail_from-Progress :
      (left slot : ℕ) (e : Error) (c : SmpClient) → Progress c (fail_from env left slot e c)
  unfolding fail_from
  fail_from-Progress zero slot e c = Moves-refl c
  fail_from-Progress (suc left) slot e c = elim (Bool-cases (entry_at c.pending slot).active) [
    | inl live ↦
        rw (live, fail_from)
          (Moves-trans none c _ _ (complete-Progress slot (err e) c live)
            (fail_from-Progress left (slot + 1) e _))
    | inr idle ↦ rw (idle, fail_from) (fail_from-Progress left (slot + 1) e c)
  ]

  pub fail_all-Progress : (e : Error) (c : SmpClient) → Progress c (fail_all env e c)
  unfolding fail_all
  fail_all-Progress e c = fail_from-Progress (length c.pending) 0 e c

  do_work-Progress :
      (w : Work) (ws : List Work) (c : SmpClient)
      → Progress (owing (w ∷ ws) c) (owing ws (do_work env w c))
  unfolding do_work notify
  do_work-Progress (failure callback e) ws c =
      let logged = record c { log = completed callback (err e) ∷ c.log } in
      Moves-trans none _ (owing ws logged) _ (settled-Progress callback e ws c)
        (owing-Progress ws logged _ (perform_all-Progress env _ logged))
  do_work-Progress (task work) ws c =
      let logged = record c { log = performed work ∷ c.log } in
      Moves-trans none _ (owing ws logged) _ (performed-Progress work ws c)
        (owing-Progress ws logged _ (perform_all-Progress env _ logged))

  do_batch-Progress : (ws : List Work) (c : SmpClient) → Progress (owing ws c) (do_batch env ws c)
  unfolding do_batch
  do_batch-Progress [] c = Moves-refl c
  do_batch-Progress (w ∷ ws) c =
      Moves-trans none _ _ _ (do_work-Progress w ws c) (do_batch-Progress ws (do_work env w c))

  pub deliver_deferred-Progress :
      (fuel : ℕ) (c d : SmpClient) → deliver_deferred env fuel c ≡ some d → Progress c d
  unfolding deliver_deferred
  deliver_deferred-Progress zero c d h = elim (List-cases c.deferred) [
    | inl empty ↦ subst (Progress c) (ground (arith, empty, h)) (Moves-refl c)
    | inr (w, ws, more) ↦ absurd (ground (arith, more, h))
  ]
  deliver_deferred-Progress (suc fuel) c d h = elim (List-cases c.deferred) [
    | inl empty ↦ subst (Progress c) (ground (arith, empty, h)) (Moves-refl c)
    | inr (w, ws, more) ↦
        let taken = record c { deferred = [] } in
        Moves-trans none c _ _ (taken-Progress (w ∷ ws) c more) (
          Moves-trans none _ _ _ (do_batch-Progress (w ∷ ws) taken) (
            deliver_deferred-Progress fuel (do_batch env (w ∷ ws) taken) d
              (ground (arith, more, h))))
  ]
