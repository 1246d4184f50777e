-- ===== src/Dfu/Machine/Safety.antt =====
-- src/dfu/update_state_machine.cpp: what the machine never asks for.
use smply.Prelude.{
  ℕ, zero, suc, ◌≡◌, ◌≢◌, refl, inl, inr, Bool, true, false, none, some, List, [], ◌∷◌, get_elem?,
  any, arith, Bool-cases, length,
}
use smply.Dfu.Plan.{UpdatePlan, ImageReport}
use smply.Dfu.Machine.State.{Effect, Event, Target, Step, Image}
use smply.Dfu.Machine.Phases.{acts, is_acting}
use smply.Dfu.Machine.Preconditions.{mode_refusal}
use smply.Dfu.Machine.Waiting.{is_client}
use smply.Dfu.Machine.Applying.{Machine, checked_decide, apply, new_machine, run}
use smply.Dfu.Machine.Frame.{complete_step_state}
use smply.Dfu.Machine.Outcome.Runs.{Reports, apply-Reports}
use smply.Dfu.Machine.Sound.{device_applied, Sound}
use smply.Dfu.Machine.Sound.Runs.{
  Valid, apply-After, apply-Sound, apply-Valid, new_machine-Valid, reached, reached-Valid,
}

device_applied_at :
    (images : List Image) (reports : List ImageReport) (at : ℕ) (image : Image)
    (report : ImageReport)
    → device_applied images reports ≡ true
    → get_elem? images at ≡ some image
    → get_elem? reports at ≡ some report
    → is_client image.target.commit ≡ false
    → report.applied ≡ true
device_applied_at [] reports at image report h e f d = absurd (cc)
device_applied_at (x ∷ images) [] at image report h e f d = absurd (cc)
device_applied_at (x ∷ images) (y ∷ reports) zero image report h e f d = ground arith
device_applied_at (x ∷ images) (y ∷ reports) (suc at) image report h e f d =
    device_applied_at images reports at image report (ground arith) e f d

-- The step of an event and the state that it leads to.
apply_effect :
    (size : ℕ) (m : Machine) (event : Event)
    → Valid size m
    → ((apply m event).0.effect ≡ (checked_decide m event).0.effect)
      × ((apply m event).1.state ≡ (checked_decide m event).0.next)
apply_effect size m event v =
    let (a, same) = apply-After false size m event v.reports v.sound in
    let (s, c) = checked_decide m event in
    let going = complete_step_state m event.now s c in ground (arith, same, going)

-- Whatever the events were, a step that confirms an image is taken only when the report says of
-- every image that the device commits itself that the device has applied it.
pub confirm_after_apply :
    (targets : List Target) (plan : UpdatePlan) (events : List Event) (event : Event) (at : ℕ)
    (image : Image) (report : ImageReport)
    → let (s, after) = apply (reached targets plan events) event in
      s.effect ≡ Effect.confirm
      → get_elem? after.context.targets at ≡ some image
      → get_elem? after.context.report.images at ≡ some report
      → is_client image.target.commit ≡ false
      → report.applied ≡ true
confirm_after_apply targets plan events event at image report confirms e f d =
    let m = reached targets plan events in
    let size = length targets in
    let v = reached-Valid targets plan events in
    let after = (apply m event).1 in
    let (a, same) = apply-After false size m event v.reports v.sound in
    let (effects, states) = apply_effect size m event v in
    let h = apply-Sound false size m event v.reports v.sound in
    device_applied_at after.context.targets after.context.report.images at image report
      (h.applied (ground (arith, a.opens, effects, states, confirms))) e f d

-- An event that makes the machine act on the device comes with the checks passed.
acts_checked :
    (size : ℕ) (m : Machine) (event : Event)
    → Valid size m
    → acts (apply m event).0.effect ≡ true
    → let after = (apply m event).1 in
      (after.context.preconditions_checked ≡ true)
      × (after.context.report.refusal ≡ none)
      × (mode_refusal after.plan after.context ≡ none)
acts_checked size m event v acting =
    let (a, same) = apply-After false size m event v.reports v.sound in
    let (effects, states) = apply_effect size m event v in
    let h = apply-Sound false size m event v.reports v.sound in
    let going : is_acting (apply m event).1.state ≡ true =
      ground (arith, a.acting, effects, states, acting) in
    let checked = h.checked going in
    (checked, h.unrefused (ground (arith, going)), h.accepted (ground (arith, going)) checked)

-- Whatever the events were, the machine starts an upload, marks an image or resets the device only
-- under a plan that the bootloader mode it has recorded does not refuse.
pub acts_accepted :
    (targets : List Target) (plan : UpdatePlan) (events : List Event) (event : Event)
    → let (s, after) = apply (reached targets plan events) event in
      acts s.effect ≡ true → mode_refusal after.plan after.context ≡ none
acts_accepted targets plan events event acting =
    let m = reached targets plan events in
    let (checked, unrefused, accepted) =
      acts_checked (length targets) m event (reached-Valid targets plan events) acting in
    accepted

-- Whether one of the steps acted on the device.
abbrev pub acted : List Step → Bool
acted steps = any (λ s. acts s.effect) steps

-- Once the checks have passed, no later event refuses the update.
passed_stays :
    (size : ℕ) (m : Machine) (events : List Event)
    → Reports m
    → Sound true size m.plan m.state m.context
    → (run m events).1.context.report.refusal ≡ none
unfolding run
passed_stays size m [] o h = h.kept_unrefused refl
passed_stays size m (event ∷ events) o h =
    passed_stays size (apply m event).1 events (apply-Reports m event o)
      (apply-Sound true size m event o h)

Sound-passed :
    (size : ℕ) (m : Machine)
    → Sound false size m.plan m.state m.context
    → m.context.preconditions_checked ≡ true
    → m.context.report.refusal ≡ none
    → Sound true size m.plan m.state m.context
Sound-passed size m h checked unrefused = ground arith

refused_from :
    (size : ℕ) (m : Machine) (events : List Event)
    → Valid size m
    → (run m events).1.context.report.refusal ≢ none
    → acted (run m events).0 ≡ false
unfolding run
refused_from size m [] v refused = refl
refused_from size m (event ∷ events) v refused =
    let after = (apply m event).1 in
    let later = apply-Valid size m event v in
    elim (Bool-cases (acts (apply m event).0.effect)) [
      | inl acting ↦
          let (checked, open_still, accepted) = acts_checked size m event v acting in
          absurd (
            refused (
              passed_stays size after events later.reports
                (Sound-passed size after later.sound checked open_still)))
      | inr idle ↦ ground (arith, idle, refused_from size after events later refused)
    ]

-- An update that the report calls refused has not acted on the device: no step of its run, whatever
-- the events were, started an upload, marked an image or reset the device.
pub refused_untouched :
    (targets : List Target) (plan : UpdatePlan) (events : List Event)
    → let (steps, last) = run (new_machine targets plan) events in
      last.context.report.refusal ≢ none → acted steps ≡ false
refused_untouched targets plan events refused =
    refused_from (length targets) (new_machine targets plan) events (new_machine-Valid targets plan)
      refused
