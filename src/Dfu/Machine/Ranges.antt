-- ===== src/Dfu/Machine/Ranges.antt =====
-- src/dfu/update_state_machine.cpp: the image that a decision works on is one that there is.
use smply.Prelude.{◌≡◌, ◌<◌, true, false, List, length, arith, subst}
use smply.Dfu.Plan.{UpdatePlan}
use smply.Dfu.Machine.State.{Event, Target}
use smply.Dfu.Machine.Deciding.{decide}
use smply.Dfu.Machine.Applying.{apply, names_current, needs_current, is_complete, complete_step}
use smply.Dfu.Machine.Sound.{After}
use smply.Dfu.Machine.Sound.Runs.{
  apply-After, apply_lem, checked_decide_lem, reached, reached-Valid,
}

-- Whatever the events were, a machine that was given an image decides on a complete event with an
-- image to work on: a decision that names the current image, or that leads to a state that needs
-- it, has a current image in the range. So no check of the machine on itself ever fails: what the
-- decision gives is what `apply` gives.
pub named_in_range :
    (targets : List Target) (plan : UpdatePlan) (events : List Event) (event : Event)
    → 0 < length targets
    → is_complete event ≡ true
    → let m = reached targets plan events in
      let (s, c) = decide m.state event m.plan m.context in
      (names_current s.effect ≡ true → c.current < length targets)
      × (needs_current s.next ≡ true → c.current < length targets)
      × (length c.report.images ≡ length targets)
      × (apply m event ≡ complete_step m event.now (s, c))
named_in_range targets plan events event given complete =
    let m = reached targets plan events in
    let v = reached-Valid targets plan events in
    let size = length targets in
    let d = decide m.state event m.plan m.context in
    let a : After false size m.plan d =
      subst (After false size m.plan) (checked_decide_lem size m event v given complete)
        (apply-After false size m event v.reports v.sound).0 in
    let applied = apply_lem size m event v given complete in
    ground (arith, a.names, a.sound, applied)
