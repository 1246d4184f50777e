-- ===== src/Smp/Client/Settling.antt =====
-- A link that goes down and the poll after it: every callback has run by then.
use smply.Prelude.{
  ℕ, zero, suc, ◌+◌, ◌≤◌, ◌≡◌, refl, subst, ◌∙◌, inl, inr, false, some, List, [], ◌∷◌, length,
  Option-cases, arith,
}
use smply.Error.{Error}
use smply.Smp.Client.State.{
  SmpClientConfig, RequestHandle, Pending, Work, failure, task, Event, Environment, SmpClient,
  new_client,
}
use smply.Smp.Client.Retired.{count}
use smply.Smp.Client.Table.{entry_at, resolve}
use smply.Smp.Client.Lifecycle.{notify, do_work, do_batch, deliver_deferred}
use smply.Smp.Client.Driving.{on_disconnected, in_flight, expire, expire_all, expired_from, poll}
use smply.Smp.Client.Slots.{waiting, resolve_found}
use smply.Smp.Client.Progress.{finished, queued}
use smply.Smp.Client.Accounts.{List-cases, deliver_deferred_done}
use smply.Smp.Client.History.{Leads, next, disconnecting, polling, Leads-balanced}
use smply.Smp.Client.Disconnecting.{
  Closing, Closing-refl, Closing-trans, perform_all-Closing, complete-Closing, active_none,
  on_disconnected_lem,
}
use smply.Smp.Client.Batches.{poll_returns}

module _ (env : Environment) where
  do_work-Closing : (w : Work) (c : SmpClient) → c.connected ≡ false → Closing c (do_work env w c)
  unfolding do_work notify
  do_work-Closing (failure callback e) c down =
      let m = perform_all-Closing env _ _ down in
      record { down = m.down; size = m.size; idle = m.idle }
  do_work-Closing (task work) c down =
      let m = perform_all-Closing env _ _ down in
      record { down = m.down; size = m.size; idle = m.idle }

  do_batch-Closing :
      (ws : List Work) (c : SmpClient) → c.connected ≡ false → Closing c (do_batch env ws c)
  unfolding do_batch
  do_batch-Closing [] c down = Closing-refl c down
  do_batch-Closing (w ∷ ws) c down =
      let m = do_work-Closing w c down in
      Closing-trans c _ _ m (do_batch-Closing ws (do_work env w c) m.down)

  deliver_deferred-Closing :
      (fuel : ℕ) (c d : SmpClient)
      → c.connected ≡ false
      → deliver_deferred env fuel c ≡ some d
      → Closing c d
  unfolding deliver_deferred
  deliver_deferred-Closing zero c d down h = elim (List-cases c.deferred) [
    | inl empty ↦ subst (Closing c) (ground (arith, empty, h)) (Closing-refl c down)
    | inr (w, ws, more) ↦ absurd (ground (arith, more, h))
  ]
  deliver_deferred-Closing (suc fuel) c d down h = elim (List-cases c.deferred) [
    | inl empty ↦ subst (Closing c) (ground (arith, empty, h)) (Closing-refl c down)
    | inr (w, ws, more) ↦
        let taken = record c { deferred = [] } in
        let m = do_batch-Closing (w ∷ ws) taken down in
        let n =
          deliver_deferred-Closing fuel (do_batch env (w ∷ ws) taken) d m.down
            (ground (arith, more, h)) in
        record {
          down = n.down;
          size = n.size ∙ m.size;
          idle = λ slot i. n.idle slot (m.idle slot i);
        }
  ]

  expire-Closing :
      (handle : RequestHandle) (c : SmpClient)
      → c.connected ≡ false
      → Closing c (expire env handle c)
  unfolding expire
  expire-Closing handle c down = elim (Option-cases (resolve c.pending handle)) [
    | inl gone ↦ rw (gone, expire) (Closing-refl c down)
    | inr (slot, found) ↦
        rw (found, expire)
          (let (_, live, _) = resolve_found c.pending handle slot found in
            let (m, _) = complete-Closing env slot _ _ down live in
            record { down = m.down; size = m.size; idle = m.idle })
  ]

  expire_all-Closing :
      (handles : List RequestHandle) (c : SmpClient)
      → c.connected ≡ false
      → Closing c (expire_all env handles c)
  unfolding expire_all
  expire_all-Closing [] c down = Closing-refl c down
  expire_all-Closing (handle ∷ handles) c down =
      let m = expire-Closing handle c down in
      Closing-trans c _ _ m (expire_all-Closing handles (expire env handle c) m.down)

  poll-Closing :
      (fuel now : ℕ) (c d : SmpClient)
      → c.connected ≡ false
      → poll env fuel now c ≡ some d
      → Closing c d × (d.deferred ≡ [])
  unfolding poll
  poll-Closing fuel now c d down h = elim (Option-cases (deliver_deferred env fuel c)) [
    | inl more ↦ absurd (ground (arith, more, h))
    | inr (c1, first) ↦
        let m = deliver_deferred-Closing fuel c c1 down first in
        let handles = expired_from now 0 c1.pending in
        let n = expire_all-Closing handles c1 m.down in
        let second : deliver_deferred env fuel (expire_all env handles c1) ≡ some d =
          ground (arith, first, h) in
        (
          Closing-trans c c1 d m
              (Closing-trans c1 _ d n (deliver_deferred-Closing fuel _ d n.down second)),
          deliver_deferred_done env fuel _ d second,
        )
  ]

none_waits : (k : ℕ) (ps : List Pending) → in_flight ps ≡ 0 → waiting k ps ≡ 0
unfolding in_flight waiting
none_waits k [] h = refl
none_waits k (p ∷ ps) h = ground (arith, h, none_waits k ps)

none_active : (ps : List Pending) (slot : ℕ) → in_flight ps ≡ 0 → (entry_at ps slot).active ≡ false
unfolding in_flight
none_active [] slot h = refl
none_active (p ∷ ps) zero h = ground (arith, h)
none_active (p ∷ ps) (suc slot) h = ground (arith, h, none_active ps slot)

-- A client whose link went down comes back from the next poll, if the application calls nothing
-- once it has seen `n` events, and then each callback has run exactly as often as it was handed in
-- with a request: with those that the callbacks themselves issued on the way, none is left over.
pub poll_settles :
    (env : Environment) (transport clock : ℕ) (config : SmpClientConfig) (c : SmpClient) (e : Error)
    (n now : ℕ)
    → Leads env (new_client transport clock config) c
    → ((es : List Event) → n ≤ length es → env.react es ≡ [])
    → (d : SmpClient) × (poll env (n + 2) now (on_disconnected env e c) ≡ some d)
      × ((k : ℕ) → count k d.issued ≡ finished k d.log)
unfolding queued
poll_settles env transport clock config c e n now l quiet =
    let down = on_disconnected env e c in
    let (d, back) = poll_returns env n quiet now down in
    let (closed, none_in_flight) = on_disconnected_lem env e c in
    let (m, empty) = poll-Closing env (n + 2) now down d closed back in
    let idle =
      active_none d.pending (λ j h. m.idle j (none_active down.pending j none_in_flight)) in
    let history =
      next _ down d (next _ c down l (disconnecting e c)) (polling (n + 2) now down d back) in
    (
      d,
      back,
      λ k. ground (
        arith,
        Leads-balanced env transport clock config d history k,
        none_waits k d.pending idle,
        empty,
      ),
    )
