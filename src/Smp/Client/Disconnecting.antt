-- ===== src/Smp/Client/Disconnecting.antt =====
-- A link that goes down: nothing is outstanding any more, whatever the callbacks ask for.
use smply.Prelude.{
  ℕ, zero, suc, ◌+◌, ◌≤◌, ◌<◌, ◌≡◌, refl, sym, subst, ◌∙◌, inl, inr, true, false, Option, none,
  some, List, [], ◌∷◌, length, length-set, Bool-cases, Option-cases, dec_lt, arith,
}
use smply.Error.{Error, error, disconnected, Result, err}
use smply.Smp.Assembler.{reset}
use smply.Smp.Client.State.{
  RequestHandle, RequestSpec, RawResponse, Pending, inc64, Call, requests, cancels, defers,
  Environment, SmpClient,
}
use smply.Smp.Client.Table.{entry_at, resolve, detach}
use smply.Smp.Client.Lifecycle.{
  cons_if, defer, defer_work, try_request, request, cancel, perform, perform_all, notify, invoke,
  complete, fail_from, fail_all,
}
use smply.Smp.Client.Driving.{on_disconnected, in_flight}
use smply.Smp.Client.Slots.{resolve_found, active_inside}
use smply.Smp.Client.Progress.{emptied, entry-set}

-- The link stays down, and no slot is taken into use.
pub record Closing (c d : SmpClient) : Type 0 where
  pub down : d.connected ≡ false
  pub size : length d.pending ≡ length c.pending
  pub idle :
      (slot : ℕ)
      → (entry_at c.pending slot).active ≡ false
      → (entry_at d.pending slot).active ≡ false

pub Closing-refl : (c : SmpClient) → c.connected ≡ false → Closing c c
Closing-refl c down = record { down = down; size = refl; idle = λ slot h. h }

pub Closing-trans : (c d e : SmpClient) → Closing c d → Closing d e → Closing c e
Closing-trans c d e m n = record {
  down = n.down;
  size = n.size ∙ m.size;
  idle = λ slot h. n.idle slot (m.idle slot h);
}

defer-Closing :
    (callback : Option ℕ) (e : Error) (c d : SmpClient)
    → Closing c d
    → Closing c (defer callback e d)
unfolding defer
defer-Closing none e c d m = m
defer-Closing (some callback) e c d m = record { down = m.down; size = m.size; idle = m.idle }

defer_work-Closing :
    (work : Option ℕ) (c : SmpClient) → c.connected ≡ false → Closing c (defer_work work c)
unfolding defer_work
defer_work-Closing none c down = Closing-refl c down
defer_work-Closing (some work) c down = record { down = down; size = refl; idle = λ slot h. h }

detach-Closing :
    (slot : ℕ) (c : SmpClient)
    → c.connected ≡ false
    → (entry_at c.pending slot).active ≡ true
    → Closing c (detach slot c) × ((entry_at (detach slot c).pending slot).active ≡ false)
unfolding detach
detach-Closing slot c down live =
    let freed = emptied (entry_at c.pending slot) in
    let inside = active_inside c.pending slot live in
    (
      record {
        down = down;
        size = length-set c.pending slot _;
        idle = λ j h. ground (arith, h, entry-set c.pending slot j freed inside);
      },
      ground (arith, entry-set c.pending slot slot freed inside),
    )

cancel-Closing :
    (handle : RequestHandle) (c : SmpClient) → c.connected ≡ false → Closing c (cancel handle c)
unfolding cancel
cancel-Closing handle c down = elim (Option-cases (resolve c.pending handle)) [
  | inl nothing ↦ rw (nothing, cancel) (Closing-refl c down)
  | inr (slot, found) ↦
      rw (found, cancel)
        (defer-Closing (entry_at c.pending slot).callback _ c _ (
          let counted = record c {
            stats = record (c.stats) { cancelled = inc64 c.stats.cancelled };
          } in
          let (_, live, _) = resolve_found c.pending handle slot found in
          let (m, _) = detach-Closing slot counted down live in
          record { down = m.down; size = m.size; idle = m.idle }))
]

module _ (env : Environment) where
  request_down :
      (spec : RequestSpec) (callback : Option ℕ) (c : SmpClient)
      → c.connected ≡ false
      → (request env spec callback c).0
        ≡ defer callback
            (error disconnected "smp client: link is down")
            (record c { issued = cons_if callback c.issued })
  unfolding request try_request
  request_down spec callback c down = ground (arith, down)

  request-Closing :
      (spec : RequestSpec) (callback : Option ℕ) (c : SmpClient)
      → c.connected ≡ false
      → Closing c (request env spec callback c).0
  request-Closing spec callback c down =
      subst (Closing c) (sym (request_down spec callback c down))
        (defer-Closing callback _ c _ (record { down = down; size = refl; idle = λ slot h. h }))

  perform-Closing :
      (call : Call) (c : SmpClient) → c.connected ≡ false → Closing c (perform env call c)
  unfolding perform
  perform-Closing (requests spec callback) c = request-Closing spec callback c
  perform-Closing (cancels handle) c = cancel-Closing handle c
  perform-Closing (defers work) c = defer_work-Closing work c

  pub perform_all-Closing :
      (calls : List Call) (c : SmpClient)
      → c.connected ≡ false
      → Closing c (perform_all env calls c)
  unfolding perform_all
  perform_all-Closing [] c down = Closing-refl c down
  perform_all-Closing (call ∷ calls) c down =
      let m = perform-Closing call c down in
      Closing-trans c _ _ m (perform_all-Closing calls (perform env call c) m.down)

  pub invoke-Closing :
      (callback : Option ℕ) (r : Result RawResponse) (c : SmpClient)
      → c.connected ≡ false
      → Closing c (invoke env callback r c)
  unfolding invoke notify
  invoke-Closing none r c down = Closing-refl c down
  invoke-Closing (some callback) r c down =
      let m = perform_all-Closing _ _ down in record { down = m.down; size = m.size; idle = m.idle }

  pub complete-Closing :
      (slot : ℕ) (r : Result RawResponse) (c : SmpClient)
      → c.connected ≡ false
      → (entry_at c.pending slot).active ≡ true
      → Closing c (complete env slot r c)
        × ((entry_at (complete env slot r c).pending slot).active ≡ false)
  unfolding complete
  complete-Closing slot r c down live =
      let (freed, gone) = detach-Closing slot c down live in
      let m = invoke-Closing (entry_at c.pending slot).callback r (detach slot c) freed.down in
      (Closing-trans c _ _ freed m, m.idle slot gone)

  fail_next :
      (left slot : ℕ) (e : Error) (c d : SmpClient)
      → Closing c d
      → (entry_at d.pending slot).active ≡ false
      → Closing d (fail_from env left (slot + 1) e d)
        × ((j : ℕ)
            → slot + 1 ≤ j
            → j < slot + 1 + left
            → (entry_at (fail_from env left (slot + 1) e d).pending j).active ≡ false)
      → Closing c (fail_from env left (slot + 1) e d)
        × ((j : ℕ)
            → slot ≤ j
            → j < slot + suc left
            → (entry_at (fail_from env left (slot + 1) e d).pending j).active ≡ false)
  fail_next left slot e c d m gone (rest, behind) = (
    Closing-trans c d _ m rest,
    λ j from to. elim (dec_lt slot j) [
      | yes past ↦ behind j (omega (arith, past)) (omega (arith, to))
      | no here ↦
          subst (λ i. (entry_at (fail_from env left (slot + 1) e d).pending i).active ≡ false)
            (omega (arith, from, here)) (rest.idle slot gone)
    ],
  )

  -- What the loop leaves behind it is idle, and stays so.
  pub fail_from-Closing :
      (left slot : ℕ) (e : Error) (c : SmpClient)
      → c.connected ≡ false
      → Closing c (fail_from env left slot e c)
        × ((j : ℕ)
            → slot ≤ j
            → j < slot + left
            → (entry_at (fail_from env left slot e c).pending j).active ≡ false)
  unfolding fail_from
  fail_from-Closing zero slot e c down =
      (Closing-refl c down, λ j from to. absurd (omega (arith, from, to)))
  fail_from-Closing (suc left) slot e c down = elim (Bool-cases (entry_at c.pending slot).active) [
    | inl live ↦
        let (m, gone) = complete-Closing slot (err e) c down live in
        rw (live, fail_from)
          (fail_next left slot e c _ m gone (fail_from-Closing left (slot + 1) e _ m.down))
    | inr idle ↦
        rw (idle, fail_from)
          (fail_next left slot e c c (Closing-refl c down) idle
            (fail_from-Closing left (slot + 1) e c down))
  ]

pub active_none :
    (ps : List Pending)
    → ((j : ℕ) → j < length ps → (entry_at ps j).active ≡ false)
    → in_flight ps ≡ 0
unfolding in_flight
active_none [] h = refl
active_none (p ∷ ps) h =
    ground (arith, h 0 (omega arith), active_none ps (λ j l. h (suc j) (omega (arith, l))))

-- After the link went down no request is outstanding, even if the callbacks that learned of it
-- asked for new ones: those were refused.
pub on_disconnected_lem :
    (env : Environment) (e : Error) (c : SmpClient)
    → ((on_disconnected env e c).connected ≡ false)
      × (in_flight (on_disconnected env e c).pending ≡ 0)
unfolding on_disconnected fail_all
on_disconnected_lem env e c =
    let (m, gone) =
      fail_from-Closing env (length c.pending) 0 e
        (record c { connected = false; assembler = reset c.assembler }) refl in
    (m.down, active_none _ (λ j l. gone j (omega arith) (omega (arith, l, m.size))))
