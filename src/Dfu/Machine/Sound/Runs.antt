-- ===== src/Dfu/Machine/Sound/Runs.antt =====
-- src/dfu/update_state_machine.cpp: runs of the machine.
use Prim.Native.String.{String}
use smply.Prelude.{
  ℕ, ◌≡◌, ◌<◌, refl, sym, ap, subst, ◌∙◌, inl, inr, Bool, true, false, ◌&&◌, ◌||◌, none, List, [],
  ◌∷◌, length, length-map, arith, Bool-cases,
}
use smply.Error.{error, internal}
use smply.Dfu.Plan.{UpdateState, UpdatePlan, is_terminal}
use smply.Dfu.Machine.State.{Effect, Event, Target, Step, Context, Decision}
use smply.Dfu.Machine.Phases.{is_await_apply, is_await_disconnect}
use smply.Dfu.Machine.Preconditions.{mode_refusal}
use smply.Dfu.Machine.Waiting.{next_in_trial}
use smply.Dfu.Machine.Planning.{blank_report}
use smply.Dfu.Machine.Deciding.{decide}
use smply.Dfu.Machine.Applying.{
  Machine, is_consistent, is_complete, checked_decide, guarded, summarise, parameterise,
  finish_report, clear_grace, arm_wait, arm, keep_time, keeps_grace, complete_step, apply, as_image,
  empty_report, new_context, new_machine, run,
}
use smply.Dfu.Machine.Frame.{complete_step-SameCore, complete_step_state, parameterise_keeps}
use smply.Dfu.Machine.Outcome.Runs.{Reports, apply-Reports, new_machine-Reports}
use smply.Dfu.Machine.Sound.{Sound, After}
use smply.Dfu.Machine.Sound.Rules.{decide-After, failing-After}

checked_decide-After :
    (passed : Bool) (size : ℕ) (m : Machine) (event : Event)
    → Reports m
    → Sound passed size m.plan m.state m.context
    → After passed size m.plan (checked_decide m event)
unfolding checked_decide
checked_decide-After passed size m event o h =
    let failed = λ (text : String).
      failing-After passed size m.plan (error internal text) m.state m.context h in
    elim (Bool-cases
      (is_terminal m.state || is_consistent m.state m.context && is_complete event)) [
        | inl sound ↦
            rw (sound, checked_decide) (decide-After passed size m.state event m.plan m.context o h)
        | inr unsound ↦ elim (Bool-cases (is_consistent m.state m.context)) [
          | inl consistent ↦ rw (unsound, consistent, checked_decide) (failed _)
          | inr inconsistent ↦ rw (unsound, inconsistent, checked_decide) (failed _)
        ]
      ]

-- A decision never names an image that there is not.
guarded_lem :
    (passed : Bool) (size : ℕ) (plan : UpdatePlan) (d : Decision)
    → After passed size plan d
    → guarded d ≡ d
unfolding guarded
guarded_lem passed size plan (s, c) a = ground (arith, a.sound)

summarise_poll : (c : Context) → (summarise c).apply_poll ≡ c.apply_poll
unfolding summarise
summarise_poll c = ground arith

parameterise_poll :
    (effect : Effect) (s : Step) (c : Context)
    → s.effect ≡ effect
    → (parameterise (s, c)).1.apply_poll ≡ c.apply_poll
unfolding parameterise finish_report
parameterise_poll Effect.no_effect s c e = ground arith
parameterise_poll _ s c e = ground arith

arm_poll :
    (effect : Effect) (next : UpdateState) (now : ℕ) (plan : UpdatePlan) (c : Context)
    → is_await_apply effect ≡ false
    → c.apply_poll ≡ none
    → (arm effect next now plan (clear_grace next c)).apply_poll ≡ none
unfolding arm clear_grace
arm_poll Effect.no_effect next now plan c e n = ground arith
arm_poll _ next now plan c e n = ground arith

arm_wait_grace :
    (next : UpdateState) (now : ℕ) (plan : UpdatePlan) (c : Context)
    → (arm_wait next now plan c).grace_deadline ≡ c.grace_deadline
unfolding arm_wait
arm_wait_grace next now plan c = ground arith

arm_grace :
    (effect : Effect) (next : UpdateState) (now : ℕ) (plan : UpdatePlan) (c : Context)
    → is_await_disconnect effect ≡ false
    → keeps_grace next ≡ false
    → (arm effect next now plan (clear_grace next c)).grace_deadline ≡ none
unfolding arm clear_grace
arm_grace Effect.await_apply next now plan c e n =
    ground (arith, arm_wait_grace next now plan (clear_grace next c))
arm_grace _ next now plan c e n = ground arith

module _ (m : Machine) (now : ℕ) (s : Step) (c : Context) where
  complete_step_poll :
      is_await_apply s.effect ≡ false
      → c.apply_poll ≡ none
      → (complete_step m now (s, c)).1.context.apply_poll ≡ none
  unfolding complete_step keep_time
  complete_step_poll e n =
      let p = parameterise (s, summarise c) in
      let kept = parameterise_keeps s.effect s (summarise c) refl in
      arm_poll p.0.effect p.0.next now m.plan p.1 (ground (arith, kept))
        (ground (arith, parameterise_poll s.effect s (summarise c) refl, summarise_poll c))

  complete_step_grace :
      is_await_disconnect s.effect ≡ false
      → keeps_grace s.next ≡ false
      → (complete_step m now (s, c)).1.context.grace_deadline ≡ none
  unfolding complete_step keep_time
  complete_step_grace e n =
      let p = parameterise (s, summarise c) in
      let kept = parameterise_keeps s.effect s (summarise c) refl in
      arm_grace p.0.effect p.0.next now m.plan p.1 (ground (arith, kept)) (ground (arith, kept))

complete_step-Sound :
    (passed : Bool) (size : ℕ) (m : Machine) (now : ℕ) (s : Step) (c : Context)
    → After passed size m.plan (s, c)
    → let after = (complete_step m now (s, c)).1 in
      Sound passed size after.plan after.state after.context
complete_step-Sound passed size m now s c a =
    let core = complete_step-SameCore m now s c in
    let going = complete_step_state m now s c in
    unfold mode_refusal next_in_trial in
    ground (arith, a.sound, a.waits, a.waits_idle, core, going, complete_step_poll m now s c)

-- What holds of a machine that was made and given events.
pub record Valid (size : ℕ) (m : Machine) : Type 0 where
  pub reports : Reports m
  pub sound : Sound false size m.plan m.state m.context
  pub grace : keeps_grace m.state ≡ false → m.context.grace_deadline ≡ none

-- The decision on an event, and the machine after it.
pub apply-After :
    (passed : Bool) (size : ℕ) (m : Machine) (event : Event)
    → Reports m
    → Sound passed size m.plan m.state m.context
    → After passed size m.plan (checked_decide m event)
      × (apply m event ≡ complete_step m event.now (checked_decide m event))
unfolding apply
apply-After passed size m event o h =
    let a = checked_decide-After passed size m event o h in
    (a, ap (complete_step m event.now) (guarded_lem passed size m.plan (checked_decide m event) a))

pub apply-Sound :
    (passed : Bool) (size : ℕ) (m : Machine) (event : Event)
    → Reports m
    → Sound passed size m.plan m.state m.context
    → let after = (apply m event).1 in Sound passed size after.plan after.state after.context
apply-Sound passed size m event o h =
    let (a, same) = apply-After passed size m event o h in
    let (s, c) = checked_decide m event in
    subst (λ (r : Step × Machine). Sound passed size r.1.plan r.1.state r.1.context) (sym same)
      (complete_step-Sound passed size m event.now s c a)

pub apply-Valid :
    (size : ℕ) (m : Machine) (event : Event) → Valid size m → Valid size (apply m event).1
apply-Valid size m event v =
    let (a, same) = apply-After false size m event v.reports v.sound in
    let (s, c) = checked_decide m event in
    let going = complete_step_state m event.now s c in
    record {
      reports = apply-Reports m event v.reports;
      sound = apply-Sound false size m event v.reports v.sound;
      grace =
          subst
            (λ (r : Step × Machine).
              keeps_grace r.1.state ≡ false → r.1.context.grace_deadline ≡ none)
            (sym same)
            (λ parted.
              complete_step_grace m event.now s c (ground (arith, a.parts, going))
                (ground (arith, going)));
    }

new_machine-Sound :
    (targets : List Target) (plan : UpdatePlan)
    → let m = new_machine targets plan in Sound false (length targets) m.plan m.state m.context
unfolding new_machine new_context empty_report
new_machine-Sound targets plan =
    ground (arith, length-map targets as_image, length-map targets blank_report)

pub new_machine-Valid :
    (targets : List Target) (plan : UpdatePlan) → Valid (length targets) (new_machine targets plan)
unfolding new_machine new_context
new_machine-Valid targets plan = record {
  reports = new_machine-Reports targets plan;
  sound = new_machine-Sound targets plan;
  grace = λ e. refl;
}

pub run-Valid :
    (size : ℕ) (m : Machine) (events : List Event) → Valid size m → Valid size (run m events).1
unfolding run
run-Valid size m [] v = v
run-Valid size m (event ∷ events) v =
    run-Valid size (apply m event).1 events (apply-Valid size m event v)

-- The machine that an update reaches by the events.
abbrev pub reached : List Target → UpdatePlan → List Event → Machine
reached targets plan events = (run (new_machine targets plan) events).1

pub reached-Valid :
    (targets : List Target) (plan : UpdatePlan) (events : List Event)
    → Valid (length targets) (reached targets plan events)
reached-Valid targets plan events =
    run-Valid (length targets) (new_machine targets plan) events (new_machine-Valid targets plan)

consistent_in :
    (size : ℕ) (m : Machine) (state : UpdateState)
    → m.state ≡ state
    → Valid size m
    → 0 < size
    → is_consistent m.state m.context ≡ true
unfolding is_consistent
consistent_in size m UpdateState.idle e v given = ground (arith, e)
consistent_in size m _ e v given = ground (arith, e)

-- The machine's own checks hold of every machine that was given an image.
pub is_consistent_lem :
    (size : ℕ) (m : Machine) → Valid size m → 0 < size → is_consistent m.state m.context ≡ true
is_consistent_lem size m v given = consistent_in size m m.state refl v given

pub checked_decide_lem :
    (size : ℕ) (m : Machine) (event : Event)
    → Valid size m
    → 0 < size
    → is_complete event ≡ true
    → checked_decide m event ≡ decide m.state event m.plan m.context
unfolding checked_decide
checked_decide_lem size m event v given complete =
    ground (arith, is_consistent_lem size m v given, complete)

pub apply_lem :
    (size : ℕ) (m : Machine) (event : Event)
    → Valid size m
    → 0 < size
    → is_complete event ≡ true
    → apply m event ≡ complete_step m event.now (decide m.state event m.plan m.context)
apply_lem size m event v given complete =
    let (a, same) = apply-After false size m event v.reports v.sound in
    same ∙ ap (complete_step m event.now) (checked_decide_lem size m event v given complete)
