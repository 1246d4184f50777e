-- ===== src/Dfu/Machine/Deadlines.antt =====
-- src/dfu/update_state_machine.cpp: the deadlines that the machine arms.
use smply.Prelude.{
  ℕ, ◌≡◌, ◌<◌, ◌⊎◌, inl, inr, refl, Bool, true, false, Option, none, some, List, length, arith, ltb,
}
use smply.Dfu.Plan.{UpdateState, UpdatePlan}
use smply.Dfu.Machine.State.{Effect, Kind, Event, Target, step}
use smply.Dfu.Machine.Deciding.{tick, wait_tick, decide, decide_kind, same}
use smply.Dfu.Machine.Frame.{complete_step-SameCore, complete_step_state}
use smply.Dfu.Machine.Applying.{Machine, apply, next_deadline, keeps_grace}
use smply.Dfu.Machine.Sound.Runs.{Valid, apply_lem, reached, reached-Valid}

one_armed :
    (size : ℕ) (m : Machine) (state : UpdateState)
    → m.state ≡ state
    → Valid size m
    → (m.context.grace_deadline ≡ none) ⊎ (m.context.apply_poll ≡ none)
one_armed size m UpdateState.awaiting_disconnect e v = inr (v.sound.unarmed (ground (arith, e)))
one_armed size m _ e v = inl (v.grace (ground (arith, e)))

-- Whatever the events were, at most one of the two deadlines of the machine is armed.
pub one_deadline :
    (targets : List Target) (plan : UpdatePlan) (events : List Event)
    → let c = (reached targets plan events).context in
      (c.grace_deadline ≡ none) ⊎ (c.apply_poll ≡ none)
one_deadline targets plan events =
    let m = reached targets plan events in
    one_armed (length targets) m m.state refl (reached-Valid targets plan events)

-- Whether every deadline that is armed lies after the time.
abbrev pub is_early : ℕ → Option ℕ → Bool
is_early now none = true
is_early now (some deadline) = ltb now deadline

tick_early :
    (state : UpdateState) (now : ℕ) (m : Machine)
    → m.state ≡ state
    → (keeps_grace m.state ≡ false → m.context.grace_deadline ≡ none)
    → is_early now (next_deadline m) ≡ true
    → tick state now m.context ≡ same state Effect.no_effect m.context
unfolding tick wait_tick next_deadline
tick_early UpdateState.idle now m e grace early = refl
tick_early UpdateState.awaiting_disconnect now m e grace early = ground arith
tick_early UpdateState.awaiting_device_apply now m e grace early = ground (arith, e)
tick_early UpdateState.awaiting_device_commit now m e grace early = ground (arith, e)
tick_early _ now m e grace early = refl

decide_early :
    (size : ℕ) (m : Machine) (event : Event)
    → Valid size m
    → event.kind ≡ Kind.tick
    → is_early event.now (next_deadline m) ≡ true
    → decide m.state event m.plan m.context ≡ same m.state Effect.no_effect m.context
unfolding decide decide_kind
decide_early size m event v ticks early =
    ground (arith, ticks, tick_early m.state event.now m refl v.grace early)

-- Whatever the events were, a tick before `next_deadline` does nothing: the state stays, there is no
-- effect, and no slot table, report of an image or cause is touched.
pub tick_waits :
    (targets : List Target) (plan : UpdatePlan) (events : List Event) (event : Event)
    → let m = reached targets plan events in
      let (s, after) = apply m event in
      0 < length targets
      → event.kind ≡ Kind.tick
      → is_early event.now (next_deadline m) ≡ true
      → (s.effect ≡ Effect.no_effect)
        × (after.state ≡ m.state)
        × (after.context.device ≡ m.context.device)
        × (after.context.report.images ≡ m.context.report.images)
        × (after.context.report.cause ≡ m.context.report.cause)
tick_waits targets plan events event given ticks early =
    let m = reached targets plan events in
    let v = reached-Valid targets plan events in
    let s = step m.state Effect.no_effect in
    let core = complete_step-SameCore m event.now s m.context in
    ground (
      arith,
      apply_lem (length targets) m event v given (ground (arith, ticks)),
      decide_early (length targets) m event v ticks early,
      core.device,
      core.images,
      core.cause,
      complete_step_state m event.now s m.context,
    )
