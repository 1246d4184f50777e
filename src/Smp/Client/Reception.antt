-- ===== src/Smp/Client/Reception.antt =====
-- What the transport and time bring in keeps the account, the table and the stale handles.
use smply.Prelude.{
  ℕ, ◌≡◌, refl, subst, ◌⊎◌, inl, inr, Bool, true, false, not, none, some, List, [], ◌∷◌, Bool-cases,
  Option-cases, arith,
}
use smply.Error.{Error, error, Result, ok, err, cancelled}
use smply.Smp.Header.{Header}
use smply.Smp.Assembler.{MessageAssembler, Message, Fed, returned, stuck, feed, reset}
use smply.Smp.Client.State.{RequestHandle, Environment, SmpClient}
use smply.Smp.Client.Retired.{is_retired}
use smply.Smp.Client.Table.{entry_at, find_by_seq, resolve}
use smply.Smp.Client.Lifecycle.{fail_all, deliver_deferred}
use smply.Smp.Client.Driving.{
  answers, dispatch, on_message, on_messages, after_feed, on_bytes, on_disconnected, expire,
  expire_all, expired_from, poll, rebind_transport, shutdown,
}
use smply.Smp.Client.Slots.{find_by_seq_found, resolve_found}
use smply.Smp.Client.Progress.{Progress, Moves-refl, Moves-trans}
use smply.Smp.Client.Steps.{counted-Progress}
use smply.Smp.Client.Accounts.{complete-Progress, fail_all-Progress, deliver_deferred-Progress}

Fed-cases :
    (f : Fed)
    → (f ≡ stuck)
      ⊎ ((a : MessageAssembler) × (ms : List Message) × (r : Result (Unit {0})) × (f
            ≡ returned a ms r))
Fed-cases stuck = inl refl
Fed-cases (returned a ms r) = inr (a, ms, r, refl)

assembled-Progress :
    (a : MessageAssembler) (c : SmpClient) → Progress c (record c { assembler = a })
assembled-Progress a c = record {
  balanced = λ k. omega arith;
  valid = λ v. v;
  stale = λ h v s. s;
  known = λ g v s. s;
  sent_more = omega arith;
  size = refl;
}

linked-Progress :
    (transport : ℕ) (connected : Bool) (a : MessageAssembler) (c : SmpClient)
    → Progress c (record c { transport = transport; connected = connected; assembler = a })
linked-Progress transport connected a c = record {
  balanced = λ k. omega arith;
  valid = λ v. v;
  stale = λ h v s. s;
  known = λ g v s. s;
  sent_more = omega arith;
  size = refl;
}

module _ (env : Environment) where
  dispatch-Progress :
      (header : Header) (payload : List ℕ) (c : SmpClient)
      → Progress c (dispatch env header payload c)
  unfolding dispatch
  dispatch-Progress header payload c = elim (Option-cases (find_by_seq header.seq c.pending)) [
    | inl unknown ↦ elim (Bool-cases (is_retired c.retired header.seq)) [
      | inl was ↦ rw (unknown, was, dispatch) (counted-Progress _ c)
      | inr never ↦ rw (unknown, never, dispatch) (counted-Progress _ c)
    ]
    | inr (slot, found) ↦ elim (Bool-cases (not (answers header (entry_at c.pending slot)))) [
      | inl other ↦ rw (found, other, dispatch) (counted-Progress _ c)
      | inr same ↦
          rw (found, same, dispatch)
            (complete-Progress env slot _ c (find_by_seq_found header.seq c.pending slot found).0)
    ]
  ]

  pub on_message-Progress :
      (header : Header) (payload : List ℕ) (c : SmpClient)
      → Progress c (on_message env header payload c)
  unfolding on_message
  on_message-Progress header payload c =
      Moves-trans none c _ _ (counted-Progress _ c) (dispatch-Progress header payload _)

  on_messages-Progress : (ms : List Message) (c : SmpClient) → Progress c (on_messages env ms c)
  unfolding on_messages
  on_messages-Progress [] c = Moves-refl c
  on_messages-Progress ((header, payload) ∷ ms) c =
      Moves-trans none c _ _ (on_message-Progress header payload c) (on_messages-Progress ms _)

  after_feed-Progress : (r : Result (Unit {0})) (c : SmpClient) → Progress c (after_feed env r c)
  unfolding after_feed
  after_feed-Progress (ok u) c = Moves-refl c
  after_feed-Progress (err e) c =
      Moves-trans none c _ _ (counted-Progress _ c) (fail_all-Progress env e _)

  pub expire-Progress : (handle : RequestHandle) (c : SmpClient) → Progress c (expire env handle c)
  unfolding expire
  expire-Progress handle c = elim (Option-cases (resolve c.pending handle)) [
    | inl gone ↦ rw (gone, expire) (Moves-refl c)
    | inr (slot, found) ↦
        rw (found, expire)
          (Moves-trans none c _ _ (counted-Progress _ c)
            (complete-Progress env slot _ _ (resolve_found c.pending handle slot found).1))
  ]

  pub expire_all-Progress :
      (handles : List RequestHandle) (c : SmpClient) → Progress c (expire_all env handles c)
  unfolding expire_all
  expire_all-Progress [] c = Moves-refl c
  expire_all-Progress (handle ∷ handles) c =
      Moves-trans none c _ _ (expire-Progress handle c) (expire_all-Progress handles _)

  pub on_bytes-Progress :
      (bytes : List ℕ) (c d : SmpClient) → on_bytes env bytes c ≡ some d → Progress c d
  unfolding on_bytes
  on_bytes-Progress bytes c d h = elim (Fed-cases (feed c.assembler bytes)) [
    | inl lost ↦ absurd (ground (arith, lost, h))
    | inr (a, ms, r, back) ↦
        let fed = record c { assembler = a } in
        subst (Progress c) (ground (arith, back, h)) (
          Moves-trans none c fed _ (assembled-Progress a c)
            (Moves-trans none fed _ _ (on_messages-Progress ms fed) (after_feed-Progress r _)))
  ]

  pub on_disconnected-Progress : (e : Error) (c : SmpClient) → Progress c (on_disconnected env e c)
  unfolding on_disconnected
  on_disconnected-Progress e c =
      Moves-trans none c _ _ (linked-Progress c.transport false (reset c.assembler) c)
        (fail_all-Progress env e _)

  pub rebind_transport-Progress :
      (transport : ℕ) (c : SmpClient) → Progress c (rebind_transport env transport c)
  unfolding rebind_transport
  rebind_transport-Progress transport c =
      Moves-trans none c _ _ (fail_all-Progress env _ c) (linked-Progress transport true _ _)

  pub poll-Progress : (fuel now : ℕ) (c d : SmpClient) → poll env fuel now c ≡ some d → Progress c d
  unfolding poll
  poll-Progress fuel now c d h = elim (Option-cases (deliver_deferred env fuel c)) [
    | inl more ↦ absurd (ground (arith, more, h))
    | inr (c1, first) ↦ Moves-trans none c c1 d (deliver_deferred-Progress env fuel c c1 first) (
        Moves-trans none c1 _ d (expire_all-Progress (expired_from now 0 c1.pending) c1)
          (deliver_deferred-Progress env fuel _ d (ground (arith, first, h))))
  ]

  pub shutdown-Progress : (fuel : ℕ) (c d : SmpClient) → shutdown env fuel c ≡ some d → Progress c d
  unfolding shutdown
  shutdown-Progress fuel c d h = elim (Option-cases (deliver_deferred env fuel c)) [
    | inl more ↦ absurd (ground (arith, more, h))
    | inr (c1, first) ↦ Moves-trans none c c1 d (deliver_deferred-Progress env fuel c c1 first) (
        Moves-trans none c1 _ d (fail_all-Progress env (error cancelled "smp client: destroyed") c1)
          (deliver_deferred-Progress env fuel
            (fail_all env (error cancelled "smp client: destroyed") c1) d
            (ground (arith, first, h))))
  ]
