-- ===== src/Dfu/Machine/Endings.antt =====
-- src/dfu/update_state_machine.cpp: how an update ends, and that the end is final.
use smply.Prelude.{ℕ, ◌≡◌, refl, true, false, List, arith, ◌<◌, length}
use smply.Dfu.Plan.{UpdateState, UpdatePlan, is_terminal}
use smply.Dfu.Machine.State.{Effect, Kind, Event, Target, Context, step}
use smply.Dfu.Machine.Phases.{in_window}
use smply.Dfu.Machine.Deciding.{decide, decide_kind, decide_rule, cancel_update, tick, same}
use smply.Dfu.Machine.Applying.{Machine, checked_decide, apply, guarded}
use smply.Dfu.Machine.Frame.{complete_step_state, complete_step-SameCore}
use smply.Dfu.Machine.Sound.Runs.{apply_lem, reached, reached-Valid}

decide_rule_final :
    (state : UpdateState) (kind : Kind) (event : Event) (plan : UpdatePlan) (c : Context)
    → is_terminal state ≡ true
    → decide_rule state kind event plan c ≡ same state Effect.no_effect c
unfolding decide_rule
decide_rule_final UpdateState.completed kind event plan c final = refl
decide_rule_final UpdateState.failed kind event plan c final = refl
decide_rule_final UpdateState.cancelled kind event plan c final = refl
decide_rule_final _ kind event plan c final = absurd (cc)

tick_final :
    (state : UpdateState) (now : ℕ) (c : Context)
    → is_terminal state ≡ true
    → tick state now c ≡ same state Effect.no_effect c
unfolding tick
tick_final UpdateState.completed now c final = refl
tick_final UpdateState.failed now c final = refl
tick_final UpdateState.cancelled now c final = refl
tick_final _ now c final = absurd (cc)

decide_final :
    (kind : Kind) (state : UpdateState) (event : Event) (plan : UpdatePlan) (c : Context)
    → is_terminal state ≡ true
    → decide_kind kind state event plan c ≡ same state Effect.no_effect c
unfolding decide_kind cancel_update
decide_final Kind.cancel state event plan c final = rw (final, cancel_update) refl
decide_final Kind.tick state event plan c final = tick_final state event.now c final
decide_final kind state event plan c final = decide_rule_final state kind event plan c final

-- In a final state any event, the wrong ones included, is taken with nothing to do: the state
-- stays, and so does what the report says of the outcome and of each image.
pub final_absorbs :
    (m : Machine) (event : Event)
    → is_terminal m.state ≡ true
    → let (s, after) = apply m event in
      (s.effect ≡ Effect.no_effect)
      × (after.state ≡ m.state)
      × (after.context.report.cause ≡ m.context.report.cause)
      × (after.context.report.revert_pending ≡ m.context.report.revert_pending)
      × (after.context.report.refusal ≡ m.context.report.refusal)
      × (after.context.report.images ≡ m.context.report.images)
unfolding apply checked_decide guarded decide
final_absorbs m event final =
    let s = step m.state Effect.no_effect in
    let core = complete_step-SameCore m event.now s m.context in
    let going = complete_step_state m event.now s m.context in
    ground (
      arith,
      final,
      decide_final event.kind m.state event m.plan m.context final,
      core.cause,
      core.revert_pending,
      core.refusal,
      core.images,
      going,
    )

window_going : (state : UpdateState) → in_window state ≡ true → is_terminal state ≡ false
window_going UpdateState.awaiting_confirmation window = refl
window_going UpdateState.confirming window = refl
window_going _ window = absurd (cc)

decide-cancel :
    (m : Machine) (event : Event)
    → event.kind ≡ Kind.cancel
    → is_terminal m.state ≡ false
    → decide m.state event m.plan m.context
      ≡ same UpdateState.cancelled Effect.finish (record m.context {
        report = record m.context.report { revert_pending = m.context.swap_scheduled };
      })
unfolding decide decide_kind cancel_update
decide-cancel m event cancels going = ground (arith, cancels, going)

-- An update that the application cancels while it waits to confirm, or while a confirm is out, ends
-- as cancelled, and its report says that the device is about to revert.
pub cancel-in_window :
    (targets : List Target) (plan : UpdatePlan) (events : List Event) (event : Event)
    → let m = reached targets plan events in
      let (s, after) = apply m event in
      event.kind ≡ Kind.cancel
      → in_window m.state ≡ true
      → 0 < length targets
      → (after.state ≡ UpdateState.cancelled)
        × (s.effect ≡ Effect.finish)
        × (after.context.report.revert_pending ≡ true)
cancel-in_window targets plan events event cancels window given =
    let m = reached targets plan events in
    let v = reached-Valid targets plan events in
    let stopped : Context = record m.context {
      report = record m.context.report { revert_pending = m.context.swap_scheduled };
    } in
    let s = step UpdateState.cancelled Effect.finish in
    let core = complete_step-SameCore m event.now s stopped in
    ground (
      arith,
      apply_lem (length targets) m event v given (ground (arith, cancels)),
      decide-cancel m event cancels (window_going m.state window),
      core.revert_pending,
      complete_step_state m event.now s stopped,
      v.reports.owed window,
    )
