-- ===== src/Dfu/Machine/Outcome/Runs.antt =====
-- src/dfu/update_state_machine.cpp: what the report says holds along every run.
use smply.Prelude.{ℕ, inl, inr, ◌&&◌, ◌||◌, arith, Bool-cases, List, [], ◌∷◌}
use Prim.Native.String.{String}
use smply.Error.{error, internal}
use smply.Dfu.Plan.{UpdatePlan, is_terminal}
use smply.Dfu.Machine.Frame.{complete_step-SameCore, complete_step_state}
use smply.Dfu.Machine.Applying.{
  Machine, is_consistent, is_complete, checked_decide, guarded, complete_step, apply, new_machine,
  new_context, empty_report, run,
}
use smply.Dfu.Machine.State.{Event, Target, Decision}
use smply.Dfu.Machine.Outcome.{Outcome, After}
use smply.Dfu.Machine.Outcome.Booting.{fail_with-Outcome}
use smply.Dfu.Machine.Outcome.Rules.{decide-Outcome}

checked_decide-Outcome :
    (m : Machine) (event : Event)
    → Outcome m.plan m.state m.context
    → After m.plan (checked_decide m event)
unfolding checked_decide
checked_decide-Outcome m event o =
    let failed =
      λ (text : String). fail_with-Outcome m.plan (error internal text) m.context o.only in
    elim (Bool-cases
      (is_terminal m.state || is_consistent m.state m.context && is_complete event)) [
        | inl sound ↦ rw (sound, checked_decide) (decide-Outcome m.state event m.plan m.context o)
        | inr unsound ↦ elim (Bool-cases (is_consistent m.state m.context)) [
          | inl consistent ↦ rw (unsound, consistent, checked_decide) (failed _)
          | inr inconsistent ↦ rw (unsound, inconsistent, checked_decide) (failed _)
        ]
      ]

guarded-Outcome : (plan : UpdatePlan) (d : Decision) → After plan d → After plan (guarded d)
unfolding guarded
guarded-Outcome plan (s, c) o =
    ground (arith, fail_with-Outcome plan (error internal "dfu: no image to work on") c)

complete_step-Outcome :
    (m : Machine) (now : ℕ) (d : Decision)
    → After m.plan d
    → let after = (complete_step m now d).1 in Outcome after.plan after.state after.context
complete_step-Outcome m now (s, c) o =
    ground (arith, complete_step-SameCore m now s c, complete_step_state m now s c)

-- The invariant of a machine.
abbrev pub Reports : Machine → Type 0
Reports m = Outcome m.plan m.state m.context

pub apply-Reports : (m : Machine) (event : Event) → Reports m → Reports (apply m event).1
unfolding apply
apply-Reports m event o =
    complete_step-Outcome m event.now (guarded (checked_decide m event))
      (guarded-Outcome m.plan (checked_decide m event) (checked_decide-Outcome m event o))

pub new_machine-Reports :
    (targets : List Target) (plan : UpdatePlan) → Reports (new_machine targets plan)
unfolding new_machine new_context empty_report
new_machine-Reports targets plan = ground arith

pub run-Reports : (m : Machine) (events : List Event) → Reports m → Reports (run m events).1
unfolding run
run-Reports m [] o = o
run-Reports m (event ∷ events) o = run-Reports (apply m event).1 events (apply-Reports m event o)
