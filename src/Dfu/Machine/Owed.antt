-- ===== src/Dfu/Machine/Owed.antt =====
-- src/dfu/update_state_machine.cpp: a mark that the device has answered, and the report.
use smply.Prelude.{
  ℕ, ◌+◌, ◌≡◌, ◌<◌, ◌∙◌, refl, ap, Bool, true, false, List, [], ◌∷◌, length, all, arith,
}
use smply.Dfu.Plan.{UpdateState, UpdatePlan}
use smply.Dfu.Machine.State.{Kind, Event, Target, Step, Context, Decision}
use smply.Dfu.Machine.Phases.{is_stopped}
use smply.Dfu.Machine.Preconditions.{fail_with, check_preconditions}
use smply.Dfu.Machine.Waiting.{wait_read_failed, confirm_failed}
use smply.Dfu.Machine.Planning.{staged, next_target, uploaded, upload_finished}
use smply.Dfu.Machine.Deciding.{
  mark_refused, reset_refused, wait_tick, tick, with_recorded, bootloader_failed, reconnected_link,
  told, mode_read, decide_rule, cancel_update, decide_kind, decide,
}
use smply.Dfu.Machine.Applying.{
  Machine, is_complete, checked_decide, guarded, complete_step, apply, run,
}
use smply.Dfu.Machine.Frame.{complete_step-SameCore}
use smply.Dfu.Machine.Sound.Runs.{Valid, apply_lem, apply-Valid, run-Valid, reached, reached-Valid}

-- The events that tell nothing of the slots: all but a slot table that is read back, the answer to
-- a confirm, and the round of planning that looks at the table.
abbrev pub tells_no_slots : Event → Bool
tells_no_slots event = elim event.kind [
  | Kind.state_read ↦ false
  | Kind.confirmed ↦ false
  | Kind.proceed ↦ false
  | _ ↦ true
]

abbrev Owes : Decision → Type 0
Owes (s, c) = c.swap_scheduled ≡ true

staged-Owes : (plan : UpdatePlan) (c : Context) → c.swap_scheduled ≡ true → Owes (staged plan c)
unfolding staged check_preconditions fail_with
staged-Owes plan c h = ground (arith, h)

next_target-Owes :
    (plan : UpdatePlan) (c : Context) → c.swap_scheduled ≡ true → Owes (next_target plan c)
unfolding next_target
next_target-Owes plan c h =
    ground (arith, h, staged-Owes plan (record c { current = c.current + 1; mark_retried = false }))

module _ (event : Event) (plan : UpdatePlan) (c : Context) (h : c.swap_scheduled ≡ true) where
  decide_rule-Owes :
      (state : UpdateState) (kind : Kind)
      → event.kind ≡ kind
      → tells_no_slots event ≡ true
      → Owes (decide_rule state kind event plan c)
  unfolding decide_rule mark_refused reset_refused bootloader_failed wait_read_failed confirm_failed
      fail_with reconnected_link told mode_read with_recorded upload_finished
  decide_rule-Owes UpdateState.inspecting_images Kind.state_read e q = absurd (ground (arith, e, q))
  decide_rule-Owes UpdateState.planning Kind.proceed e q = absurd (ground (arith, e, q))
  decide_rule-Owes UpdateState.verifying_upload Kind.state_read e q = absurd (ground (arith, e, q))
  decide_rule-Owes UpdateState.verifying_booted Kind.state_read e q = absurd (ground (arith, e, q))
  decide_rule-Owes UpdateState.awaiting_device_apply Kind.state_read e q =
      absurd (ground (arith, e, q))
  decide_rule-Owes UpdateState.awaiting_device_commit Kind.state_read e q =
      absurd (ground (arith, e, q))
  decide_rule-Owes UpdateState.confirming Kind.confirmed e q = absurd (ground (arith, e, q))
  decide_rule-Owes UpdateState.verifying_confirmed Kind.state_read e q =
      absurd (ground (arith, e, q))
  decide_rule-Owes UpdateState.uploading Kind.upload_finished e q =
      ground (arith, h, next_target-Owes plan (uploaded event c))
  decide_rule-Owes UpdateState.marking_for_test Kind.marked_for_test e q =
      next_target-Owes plan (record (told event c) { swap_scheduled = true }) refl
  decide_rule-Owes UpdateState.querying_bootloader Kind.failed e q = ground (arith, h)
  decide_rule-Owes UpdateState.marking_for_test Kind.failed e q = ground (arith, h)
  decide_rule-Owes UpdateState.resetting Kind.failed e q = ground (arith, h)
  decide_rule-Owes UpdateState.awaiting_reconnect Kind.reconnected e q = ground (arith, h)
  decide_rule-Owes UpdateState.awaiting_device_apply Kind.failed e q = ground (arith, h)
  decide_rule-Owes UpdateState.awaiting_device_commit Kind.failed e q = ground (arith, h)
  decide_rule-Owes UpdateState.confirming Kind.failed e q = ground (arith, h)
  decide_rule-Owes UpdateState.verifying_confirmed Kind.failed e q = ground (arith, h)
  decide_rule-Owes UpdateState.idle Kind.start e q = h
  decide_rule-Owes UpdateState.querying_parameters Kind.parameters_read e q = h
  decide_rule-Owes UpdateState.querying_parameters Kind.parameters_unavailable e q = h
  decide_rule-Owes UpdateState.querying_bootloader Kind.bootloader_read e q = h
  decide_rule-Owes UpdateState.inspecting_images Kind.failed e q = h
  decide_rule-Owes UpdateState.planning Kind.failed e q = h
  decide_rule-Owes UpdateState.uploading Kind.upload_suspended e q = h
  decide_rule-Owes UpdateState.uploading Kind.failed e q = h
  decide_rule-Owes UpdateState.verifying_upload Kind.failed e q = h
  decide_rule-Owes UpdateState.resetting Kind.reset_accepted e q = h
  decide_rule-Owes UpdateState.awaiting_disconnect Kind.disconnected e q = h
  decide_rule-Owes UpdateState.awaiting_reconnect Kind.reconnect_failed e q = h
  decide_rule-Owes UpdateState.verifying_booted Kind.failed e q = h
  decide_rule-Owes UpdateState.awaiting_confirmation Kind.confirm_approved e q = h
  decide_rule-Owes UpdateState.completed kind e q = h
  decide_rule-Owes UpdateState.failed kind e q = h
  decide_rule-Owes UpdateState.cancelled kind e q = h
  decide_rule-Owes _ _ e q = h

  tick-Owes : (state : UpdateState) → Owes (tick state event.now c)
  unfolding tick wait_tick fail_with
  tick-Owes UpdateState.awaiting_disconnect = ground (arith, h)
  tick-Owes UpdateState.awaiting_device_apply = ground (arith, h)
  tick-Owes UpdateState.awaiting_device_commit = ground (arith, h)
  tick-Owes _ = h

  decide_kind-Owes :
      (kind : Kind) (state : UpdateState)
      → event.kind ≡ kind
      → tells_no_slots event ≡ true
      → Owes (decide_kind kind state event plan c)
  unfolding decide_kind cancel_update
  decide_kind-Owes Kind.cancel state e q = ground (arith, h)
  decide_kind-Owes Kind.tick state e q = tick-Owes state
  decide_kind-Owes kind state e q = decide_rule-Owes state kind e q

checked_decide-Owes :
    (m : Machine) (event : Event)
    → m.context.swap_scheduled ≡ true
    → tells_no_slots event ≡ true
    → Owes (guarded (checked_decide m event))
unfolding guarded checked_decide decide fail_with
checked_decide-Owes m event h q =
    ground (arith, h, decide_kind-Owes event m.plan m.context h event.kind m.state refl q)

apply-Owes :
    (m : Machine) (event : Event)
    → m.context.swap_scheduled ≡ true
    → tells_no_slots event ≡ true
    → (apply m event).1.context.swap_scheduled ≡ true
unfolding apply
apply-Owes m event h q =
    let (s, c) = guarded (checked_decide m event) in
    (complete_step-SameCore m event.now s c).swap_scheduled ∙ checked_decide-Owes m event h q

run-Owes :
    (m : Machine) (events : List Event)
    → m.context.swap_scheduled ≡ true
    → all (λ event. tells_no_slots event) events ≡ true
    → (run m events).1.context.swap_scheduled ≡ true
unfolding run
run-Owes m [] h q = h
run-Owes m (event ∷ events) h q =
    run-Owes (apply m event).1 events (apply-Owes m event h (ground (arith, q))) (ground (arith, q))

-- The device has answered a mark.
marked-Owes :
    (size : ℕ) (m : Machine) (answer : Event)
    → Valid size m
    → 0 < size
    → m.state ≡ UpdateState.marking_for_test
    → answer.kind ≡ Kind.marked_for_test
    → is_complete answer ≡ true
    → (apply m answer).1.context.swap_scheduled ≡ true
unfolding decide decide_kind decide_rule
marked-Owes size m answer v given marking answers complete =
    let d = next_target m.plan (record (told answer m.context) { swap_scheduled = true }) in
    let decided : decide m.state answer m.plan m.context ≡ d = ground (arith, marking, answers) in
    let applied : apply m answer ≡ complete_step m answer.now d =
      apply_lem size m answer v given complete ∙ ap (complete_step m answer.now) decided in
    ap (λ (r : Step × Machine). r.1.context.swap_scheduled) applied
    ∙ (complete_step-SameCore m answer.now d.0 d.1).swap_scheduled
    ∙ next_target-Owes m.plan (record (told answer m.context) { swap_scheduled = true }) refl

-- Let an update of an image or more, whatever its events were before, wait for the answer to a
-- mark, and get it with its slot table. Then, after whatever further events of which none is a slot
-- table that is read back, the answer to a confirm or a round of planning, an update that has
-- failed or was cancelled reports a pending revert.
pub marked_reports :
    (targets : List Target) (plan : UpdatePlan) (before : List Event) (answer : Event)
    (later : List Event)
    → let m = reached targets plan before in
      let last = (run (apply m answer).1 later).1 in
      0 < length targets
      → m.state ≡ UpdateState.marking_for_test
      → answer.kind ≡ Kind.marked_for_test
      → is_complete answer ≡ true
      → all (λ event. tells_no_slots event) later ≡ true
      → is_stopped last.state ≡ true
      → last.context.report.revert_pending ≡ true
marked_reports targets plan before answer later given marking answers complete quiet stopped =
    let m = reached targets plan before in
    let size = length targets in
    let after = (apply m answer).1 in
    let v = reached-Valid targets plan before in
    let last = run-Valid size after later (apply-Valid size m answer v) in
    let owes = marked-Owes size m answer v given marking answers complete in
    last.reports.reported stopped ∙ run-Owes after later owes quiet
