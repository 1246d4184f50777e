-- ===== src/Smp/Client/Expiry.antt =====
-- `poll()` and the deadlines that have come.
use smply.Prelude.{
  ℕ, zero, suc, ◌+◌, ◌^◌, ◌≤◌, ◌<◌, ◌≡◌, subst, ◌≢◌, inl, inr, true, ◌&&◌, none, some, List, [],
  ◌∷◌, leb, All, length, Bool-cases, Option-cases, arith,
}
use smply.Error.{Result}
use smply.Smp.Client.State.{
  SmpClientConfig, RequestHandle, RawResponse, Pending, Environment, SmpClient, new_client,
}
use smply.Smp.Client.Table.{entry_at, resolve, detach}
use smply.Smp.Client.Lifecycle.{complete, deliver_deferred}
use smply.Smp.Client.Driving.{expired_from, expire, expire_all, poll}
use smply.Smp.Client.Slots.{resolve_found, active_inside}
use smply.Smp.Client.Progress.{IsValid, Stale, Known, emptied, entry-set, detach-IsValid}
use smply.Smp.Client.Accounts.{invoke-Moves, deliver_deferred-Progress}
use smply.Smp.Client.Reception.{expire-Progress, expire_all-Progress}
use smply.Smp.Client.History.{Leads, Leads-IsValid, resolve-Stale, Stale-resolve}

-- A handle that was given out.
abbrev Issued : SmpClient → RequestHandle → Type 0
Issued c h = (h.generation ≢ 0) × Known h.generation c

abbrev handle_of : ℕ → Pending → RequestHandle
handle_of slot p = record { slot = slot; generation = p.generation }

-- What holds of each active entry's handle holds of the snapshot.
expired_from-All :
    (P : RequestHandle → Type 0) (now base : ℕ) (ps : List Pending)
    → ((slot : ℕ)
        → (entry_at ps slot).active ≡ true
        → P (handle_of (base + slot) (entry_at ps slot)))
    → All P (expired_from now base ps)
unfolding expired_from
expired_from-All P now base [] h = tt
expired_from-All P now base (p ∷ ps) h =
    let rest = expired_from-All P now (base + 1) ps (λ slot live.
      subst (λ n. P (handle_of n (entry_at ps slot))) (omega arith) (h (suc slot) live)) in
    elim (Bool-cases (p.active && leb p.deadline now)) [
      | inl due ↦
          rw due (subst (λ n. P (handle_of n p)) (omega arith) (h 0 (ground (arith, due))), rest)
      | inr waiting ↦ rw waiting rest
    ]

-- The snapshot has each entry whose deadline has come.
expired_from_at :
    (P : RequestHandle → Type 0) (now base : ℕ) (ps : List Pending) (slot : ℕ)
    → All P (expired_from now base ps)
    → (entry_at ps slot).active ≡ true
    → (entry_at ps slot).deadline ≤ now
    → P (handle_of (base + slot) (entry_at ps slot))
unfolding expired_from
expired_from_at P now base [] slot all live due = absurd (ground (arith, live))
expired_from_at P now base (p ∷ ps) zero all live due =
    let listed : expired_from now base (p ∷ ps)
        ≡ handle_of base p ∷ expired_from now (base + 1) ps =
      ground (arith, live, due) in
    subst (λ n. P (handle_of n p)) (omega arith) (subst (All P) listed all).0
expired_from_at P now base (p ∷ ps) (suc slot) all live due =
    let later : All P (expired_from now (base + 1) ps) =
      elim (Bool-cases (p.active && leb p.deadline now)) [
        | inl first ↦
            let listed : expired_from now base (p ∷ ps)
                ≡ handle_of base p ∷ expired_from now (base + 1) ps =
              ground (arith, first) in
            (subst (All P) listed all).1
        | inr waiting ↦
            let passed : expired_from now base (p ∷ ps) ≡ expired_from now (base + 1) ps =
              ground (arith, waiting) in
            subst (All P) passed all
      ] in
    subst (λ n. P (handle_of n (entry_at ps slot))) (omega arith)
      (expired_from_at P now (base + 1) ps slot later live due)

Issued-next :
    (c d : SmpClient) (hs : List RequestHandle)
    → ((g : ℕ) → Known g c → Known g d)
    → All (Issued c) hs
    → All (Issued d) hs
Issued-next c d [] keep all = tt
Issued-next c d (h ∷ hs) keep ((real, known), all) =
    ((real, keep h.generation known), Issued-next c d hs keep all)

module _ (env : Environment) where
  complete-Stale :
      (slot : ℕ) (r : Result RawResponse) (c : SmpClient) (h : RequestHandle)
      → IsValid c
      → (entry_at c.pending slot).active ≡ true
      → slot ≡ h.slot
      → Known h.generation c
      → Stale h (complete env slot r c)
  unfolding complete detach
  complete-Stale slot r c h v live at known =
      (invoke-Moves env (entry_at c.pending slot).callback r (detach slot c)).stale h
        (detach-IsValid c slot live v)
        (λ few. (
          known few,
          λ still. absurd (
              ground (
                arith,
                at,
                still,
                entry-set c.pending slot h.slot (emptied (entry_at c.pending slot))
                    (active_inside c.pending slot live),
              )),
        ))

  expire-Stale :
      (h : RequestHandle) (c : SmpClient) → IsValid c → Issued c h → Stale h (expire env h c)
  unfolding expire
  expire-Stale h c v (real, known) = elim (Option-cases (resolve c.pending h)) [
    | inl gone ↦ rw (gone, expire) (λ few. resolve-Stale c h real (known few) gone few)
    | inr (slot, found) ↦
        let (at, live, _) = resolve_found c.pending h slot found in
        rw (found, expire) (complete-Stale slot _ _ h v live at known)
  ]

  expire_all-Stale :
      (hs : List RequestHandle) (c : SmpClient)
      → IsValid c
      → All (Issued c) hs
      → All (λ h. Stale h (expire_all env hs c)) hs
  unfolding expire_all
  expire_all-Stale [] c v all = tt
  expire_all-Stale (h ∷ hs) c v (issued, all) =
      let m = expire-Progress env h c in
      let next = expire env h c in
      let kept = Issued-next c next hs (λ g k. m.known g v k) all in
      (
        (expire_all-Progress env hs next).stale h (m.valid v) (expire-Stale h c v issued),
        expire_all-Stale hs next (m.valid v) kept,
      )

deliver_nothing :
    (env : Environment) (fuel : ℕ) (c : SmpClient)
    → c.deferred ≡ []
    → deliver_deferred env fuel c ≡ some c
unfolding deliver_deferred
deliver_nothing env zero c empty = ground (arith, empty)
deliver_nothing env (suc fuel) c empty = ground (arith, empty)

-- When `poll` comes back, no request is left that was outstanding with its deadline reached when
-- it was called, nothing being queued then: its handle refers to nothing, whatever the callbacks
-- called, as long as fewer than 2 ^ 64 - 1 packets have been sent.
pub poll_expires :
    (env : Environment) (transport clock : ℕ) (config : SmpClientConfig) (c d : SmpClient)
    (fuel now slot : ℕ)
    → Leads env (new_client transport clock config) c
    → c.deferred ≡ []
    → poll env fuel now c ≡ some d
    → (entry_at c.pending slot).active ≡ true
    → (entry_at c.pending slot).deadline ≤ now
    → length d.sent_packets + 1 < 2 ^ 64
    → resolve d.pending (record { slot = slot; generation = (entry_at c.pending slot).generation })
      ≡ none
unfolding poll
poll_expires env transport clock config c d fuel now slot l empty h live due few =
    let v = Leads-IsValid env transport clock config c l in
    let first = deliver_nothing env fuel c empty in
    let hs = expired_from now 0 c.pending in
    let middle = expire_all env hs c in
    let second : deliver_deferred env fuel middle ≡ some d = ground (arith, first, h) in
    let m = expire_all-Progress env hs c in
    let n = deliver_deferred-Progress env fuel middle d second in
    let enough : length c.sent_packets + 1 < 2 ^ 64 =
      omega (arith, few, m.sent_more, n.sent_more) in
    let issued =
      expired_from-All (Issued c) now 0 c.pending
        (λ j on. ((v.older j on enough).0, λ few'. (v.older j on few').1)) in
    let stale : Stale (handle_of slot (entry_at c.pending slot)) middle =
      subst (λ j. Stale (handle_of j (entry_at c.pending slot)) middle) (omega arith)
        (expired_from_at (λ g. Stale g middle) now 0 c.pending slot
          (expire_all-Stale env hs c v issued) live due) in
    Stale-resolve d _ few (n.stale _ (m.valid v) stale)
