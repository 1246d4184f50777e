-- ===== src/Smp/Client/Batches.antt =====
-- `deliver_deferred()` comes back if the application's reactions come to an end.
use smply.Prelude.{
  ℕ, zero, suc, ◌+◌, ◌≤◌, ◌<◌, ◌≡◌, refl, ◌∙◌, inl, inr, Option, none, some, List, [], ◌∷◌, length,
  Option-cases, arith,
}
use smply.Error.{Error, err, Result-cases}
use smply.Smp.Client.State.{
  RequestHandle, RequestSpec, Work, failure, task, Event, completed, performed, Call, requests,
  cancels, defers, Environment, SmpClient,
}
use smply.Smp.Client.Table.{entry_at, resolve, detach}
use smply.Smp.Client.Lifecycle.{
  cons_if, packet_of, defer, defer_work, send_request, request, cancel, perform, perform_all,
  notify, do_work, do_batch, deliver_deferred,
}
use smply.Smp.Client.Driving.{expire_all, expired_from, poll}
use smply.Smp.Client.Cases.{try_request_cases}
use smply.Smp.Client.Accounts.{List-cases}

defer-log : (callback : Option ℕ) (e : Error) (c : SmpClient) → (defer callback e c).log ≡ c.log
unfolding defer
defer-log none e c = refl
defer-log (some callback) e c = refl

defer_work-log : (work : Option ℕ) (c : SmpClient) → (defer_work work c).log ≡ c.log
unfolding defer_work
defer_work-log none c = refl
defer_work-log (some work) c = refl

cancel-log : (handle : RequestHandle) (c : SmpClient) → (cancel handle c).log ≡ c.log
unfolding cancel detach
cancel-log handle c = elim (Option-cases (resolve c.pending handle)) [
  | inl nothing ↦ ground (arith, nothing)
  | inr (slot, found) ↦ rw (found, cancel) (defer-log (entry_at c.pending slot).callback _ _)
]

module _ (env : Environment) where
  send_request-log :
      (spec : RequestSpec) (callback : Option ℕ) (slot seq : ℕ) (c : SmpClient)
      → (send_request env spec callback slot seq c).0.log ≡ c.log
  unfolding send_request
  send_request-log spec callback slot seq c =
      elim (Result-cases (env.transmit c.transport c.sent_packets (packet_of spec seq c.config))) [
        | inl (u, taken) ↦ rw (taken, send_request) refl
        | inr (e, refused) ↦ rw (refused, send_request) (defer-log callback e _)
      ]

  request-log :
      (spec : RequestSpec) (callback : Option ℕ) (c : SmpClient)
      → (request env spec callback c).0.log ≡ c.log
  unfolding request
  request-log spec callback c =
      let c1 = record c { issued = cons_if callback c.issued } in
      try_request_cases (λ d. d.log ≡ c.log) env spec callback c1 (λ e. defer-log callback e c1)
        (λ slot seq idle found. send_request-log spec callback slot seq _)

  perform-log : (call : Call) (c : SmpClient) → (perform env call c).log ≡ c.log
  unfolding perform
  perform-log (requests spec callback) c = request-log spec callback c
  perform-log (cancels handle) c = cancel-log handle c
  perform-log (defers work) c = defer_work-log work c

  perform_all-log : (calls : List Call) (c : SmpClient) → (perform_all env calls c).log ≡ c.log
  unfolding perform_all
  perform_all-log [] c = refl
  perform_all-log (call ∷ calls) c = perform_all-log calls (perform env call c) ∙ perform-log call c

  do_work-log : (w : Work) (c : SmpClient) → length (do_work env w c).log ≡ length c.log + 1
  unfolding do_work notify
  do_work-log (failure callback e) c = ground (
    arith,
    perform_all-log (env.react (completed callback (err e) ∷ c.log))
        (record c { log = completed callback (err e) ∷ c.log }),
  )
  do_work-log (task work) c = ground (
    arith,
    perform_all-log (env.react (performed work ∷ c.log))
        (record c { log = performed work ∷ c.log }),
  )

  do_batch-log :
      (ws : List Work) (c : SmpClient) → length (do_batch env ws c).log ≡ length c.log + length ws
  unfolding do_batch
  do_batch-log [] c = omega arith
  do_batch-log (w ∷ ws) c = omega (arith, do_batch-log ws (do_work env w c), do_work-log w c)

  module _ (n : ℕ) (quiet : (es : List Event) → n ≤ length es → env.react es ≡ []) where
    do_work_quiet :
        (w : Work) (c : SmpClient) → n ≤ length c.log → (do_work env w c).deferred ≡ c.deferred
    unfolding do_work notify perform_all
    do_work_quiet (failure callback e) c past =
        rw (quiet (completed callback (err e) ∷ c.log) (omega (arith, past)), perform_all) refl
    do_work_quiet (task work) c past =
        rw (quiet (performed work ∷ c.log) (omega (arith, past)), perform_all) refl

    do_batch_quiet :
        (ws : List Work) (c : SmpClient)
        → n ≤ length c.log
        → (do_batch env ws c).deferred ≡ c.deferred
    unfolding do_batch
    do_batch_quiet [] c past = refl
    do_batch_quiet (w ∷ ws) c past =
        do_batch_quiet ws (do_work env w c) (omega (arith, past, do_work-log w c))
        ∙ do_work_quiet w c past

    -- As many batches as reactions are left, and two, are enough.
    pub deliver_deferred_returns :
        (fuel : ℕ) (c : SmpClient)
        → n + 2 ≤ fuel + length c.log
        → 0 < fuel
        → (d : SmpClient) × (deliver_deferred env fuel c ≡ some d)
    unfolding deliver_deferred
    deliver_deferred_returns zero c enough some_left = absurd (omega (arith, some_left))
    deliver_deferred_returns (suc zero) c enough some_left = elim (List-cases c.deferred) [
      | inl empty ↦ (c, ground (arith, empty))
      | inr (w, ws, more) ↦
          let taken = record c { deferred = [] } in
          (
            do_batch env (w ∷ ws) taken,
            ground (arith, more, do_batch_quiet (w ∷ ws) taken (omega (arith, enough))),
          )
    ]
    deliver_deferred_returns (suc (suc fuel)) c enough some_left = elim (List-cases c.deferred) [
      | inl empty ↦ (c, ground (arith, empty))
      | inr (w, ws, more) ↦
          let taken = record c { deferred = [] } in
          let (d, back) =
            deliver_deferred_returns (suc fuel) (do_batch env (w ∷ ws) taken)
              (omega (arith, enough, do_batch-log (w ∷ ws) taken)) (omega arith) in
          (d, ground (arith, more, back))
    ]

    -- If the application calls nothing once it has seen `n` events, `poll` comes back with `n + 2`
    -- batches for each of its deliveries, and nothing is queued when it does.
    pub poll_returns :
        (now : ℕ) (c : SmpClient) → (d : SmpClient) × (poll env (n + 2) now c ≡ some d)
    unfolding poll
    poll_returns now c =
        let (c1, first) = deliver_deferred_returns (n + 2) c (omega arith) (omega arith) in
        let (d, second) =
          deliver_deferred_returns (n + 2) (expire_all env (expired_from now 0 c1.pending) c1)
            (omega arith) (omega arith) in
        (d, ground (arith, first, second))
