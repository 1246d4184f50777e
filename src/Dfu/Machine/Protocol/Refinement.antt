-- ===== src/Dfu/Machine/Protocol/Refinement.antt =====
-- src/dfu/update_state_machine.cpp: the machine keeps to the order of an update that is promised.
use smply.Prelude.{
  ℕ, ◌≡◌, refl, sym, subst, inl, inr, Bool, true, false, ◌&&◌, ◌||◌, List, [], ◌∷◌, length, arith,
  Bool-cases,
}
use smply.Dfu.Plan.{UpdateState, UpdatePlan, is_terminal}
use smply.Dfu.Machine.State.{Kind, Event, Target, Step, Context, Decision}
use smply.Dfu.Machine.Preconditions.{fail_with}
use smply.Dfu.Machine.Waiting.{
  wait_read_failed, confirm_failed, inspect_boot, await_device, await_commit,
}
use smply.Dfu.Machine.Planning.{
  plan_from_state, verify_upload, next_target, uploaded, upload_finished,
}
use smply.Dfu.Machine.Deciding.{
  mark_refused, reset_refused, wait_tick, tick, bootloader_failed, confirmed_one, verify_confirmed,
  reconnected_link, told, decide_rule, cancel_update, decide_kind, decide,
}
use smply.Dfu.Machine.Applying.{
  Machine, is_consistent, is_complete, checked_decide, apply, new_machine, new_context,
}
use smply.Dfu.Machine.Frame.{complete_step-SameCore, complete_step_state}
use smply.Dfu.Machine.Outcome.{Outcome}
use smply.Dfu.Machine.Outcome.Runs.{Reports, apply-Reports}
use smply.Dfu.Machine.Sound.Runs.{Valid, apply-After, apply-Valid, new_machine-Valid}
use smply.Dfu.Machine.Protocol.{
  Phase, Update, after_boot, after_plan, after_settling, edge, promised, ◌⟶◌, move, Walk, halt,
  further,
}
use smply.Dfu.Machine.Protocol.Entries.{
  booted, planned, settled, await_commit-settled, verify_confirmed-settled, await_device-booted,
  inspect_boot-booted, next_target-planned, plan_from_state-planned, verify_upload-planned,
}

-- A reconnect belongs to the upload that it resumes, if there is one.
unfoldable pub phase_of : UpdateState → Bool → Phase
phase_of UpdateState.uploading sending = Phase.staging
phase_of UpdateState.verifying_upload sending = Phase.staging
phase_of UpdateState.marking_for_test sending = Phase.staging
phase_of UpdateState.resetting sending = Phase.restarting
phase_of UpdateState.awaiting_disconnect sending = Phase.restarting
phase_of UpdateState.awaiting_reconnect true = Phase.staging
phase_of UpdateState.awaiting_reconnect false = Phase.rejoining
phase_of UpdateState.verifying_booted sending = Phase.rejoining
phase_of UpdateState.awaiting_device_apply sending = Phase.applying
phase_of UpdateState.awaiting_confirmation sending = Phase.window
phase_of UpdateState.confirming sending = Phase.window
phase_of UpdateState.verifying_confirmed sending = Phase.settling
phase_of UpdateState.awaiting_device_commit sending = Phase.committing
phase_of UpdateState.completed sending = Phase.success
phase_of UpdateState.failed sending = Phase.stopped
phase_of UpdateState.cancelled sending = Phase.stopped
phase_of _ sending = Phase.preparing

-- What the machine is in the protocol.
unfoldable pub abstract : Machine → Update
abstract m = record {
  phase = phase_of m.state m.context.upload_in_progress;
  owed = m.context.swap_scheduled;
}

abbrev edge_to : UpdateState → Context → Decision → Bool
edge_to state c (s, after) =
    edge (phase_of state c.upload_in_progress) (phase_of s.next after.upload_in_progress)

booted-after_boot :
    (state : UpdateState) (sending : Bool)
    → booted state ≡ true
    → after_boot (phase_of state sending) ≡ true
unfolding phase_of
booted-after_boot UpdateState.idle sending h = absurd (cc)
booted-after_boot _ sending h = ground arith

boots :
    (state : UpdateState) (sending : Bool)
    → booted state ≡ true
    → edge Phase.rejoining (phase_of state sending) ≡ true
boots state sending h = ground (arith, booted-after_boot state sending h)

planned-after_plan :
    (state : UpdateState) (sending : Bool)
    → planned state ≡ true
    → after_plan (phase_of state sending) ≡ true
unfolding phase_of
planned-after_plan UpdateState.idle sending h = absurd (cc)
planned-after_plan _ sending h = ground arith

settled-after_settling :
    (state : UpdateState) (sending : Bool)
    → settled state ≡ true
    → after_settling (phase_of state sending) ≡ true
unfolding phase_of
settled-after_settling UpdateState.idle sending h = absurd (cc)
settled-after_settling _ sending h = ground arith

-- An update may stop wherever it has not ended.
stops :
    (state : UpdateState) (sending : Bool)
    → is_terminal state ≡ false
    → edge (phase_of state sending) Phase.stopped ≡ true
unfolding phase_of
stops UpdateState.completed sending h = absurd (cc)
stops UpdateState.awaiting_reconnect true h = refl
stops UpdateState.awaiting_reconnect false h = refl
stops _ sending h = ground arith

upload_finished-edge :
    (event : Event) (plan : UpdatePlan) (c : Context)
    → edge_to UpdateState.uploading c (upload_finished event plan c) ≡ true
unfolding upload_finished phase_of
upload_finished-edge event plan c =
    let d = next_target plan (uploaded event c) in
    ground (
      arith,
      planned-after_plan d.0.next d.1.upload_in_progress
          (next_target-planned plan (uploaded event c)),
    )

decide_rule-edge :
    (state : UpdateState) (kind : Kind) (event : Event) (plan : UpdatePlan) (c : Context)
    → Outcome plan state c
    → edge_to state c (decide_rule state kind event plan c) ≡ true
unfolding decide_rule phase_of mark_refused reset_refused bootloader_failed wait_read_failed
    confirm_failed fail_with reconnected_link confirmed_one told
decide_rule-edge UpdateState.idle Kind.start event plan c o = ground arith
decide_rule-edge UpdateState.querying_parameters Kind.parameters_read event plan c o = ground arith
decide_rule-edge UpdateState.querying_parameters Kind.parameters_unavailable event plan c o =
    ground arith
decide_rule-edge UpdateState.querying_bootloader Kind.bootloader_read event plan c o = ground arith
decide_rule-edge UpdateState.querying_bootloader Kind.failed event plan c o = ground arith
decide_rule-edge UpdateState.inspecting_images Kind.state_read event plan c o = ground arith
decide_rule-edge UpdateState.inspecting_images Kind.failed event plan c o = ground arith
decide_rule-edge UpdateState.planning Kind.proceed event plan c o =
    let d = plan_from_state plan c in
    planned-after_plan d.0.next d.1.upload_in_progress (plan_from_state-planned plan c)
decide_rule-edge UpdateState.uploading Kind.upload_finished event plan c o =
    upload_finished-edge event plan c
decide_rule-edge UpdateState.uploading Kind.upload_suspended event plan c o = ground arith
decide_rule-edge UpdateState.uploading Kind.failed event plan c o = ground arith
decide_rule-edge UpdateState.verifying_upload Kind.state_read event plan c o =
    let d = verify_upload plan (told event c) in
    planned-after_plan d.0.next d.1.upload_in_progress (verify_upload-planned plan (told event c))
decide_rule-edge UpdateState.verifying_upload Kind.failed event plan c o = ground arith
decide_rule-edge UpdateState.marking_for_test Kind.marked_for_test event plan c o =
    let d = next_target plan (record (told event c) { swap_scheduled = true }) in
    planned-after_plan d.0.next d.1.upload_in_progress
      (next_target-planned plan (record (told event c) { swap_scheduled = true }))
decide_rule-edge UpdateState.marking_for_test Kind.failed event plan c o = ground arith
decide_rule-edge UpdateState.resetting Kind.reset_accepted event plan c o = ground arith
decide_rule-edge UpdateState.resetting Kind.failed event plan c o = ground arith
decide_rule-edge UpdateState.awaiting_disconnect Kind.disconnected event plan c o = ground arith
decide_rule-edge UpdateState.awaiting_reconnect Kind.reconnected event plan c o = ground arith
decide_rule-edge UpdateState.awaiting_reconnect Kind.reconnect_failed event plan c o = ground arith
decide_rule-edge UpdateState.verifying_booted Kind.state_read event plan c o =
    let d = inspect_boot plan (told event c) in
    boots d.0.next d.1.upload_in_progress (inspect_boot-booted plan (told event c))
decide_rule-edge UpdateState.verifying_booted Kind.failed event plan c o = ground arith
decide_rule-edge UpdateState.awaiting_device_apply Kind.state_read event plan c o =
    let d = await_device plan (told event c) in
    boots d.0.next d.1.upload_in_progress (await_device-booted plan (told event c))
decide_rule-edge UpdateState.awaiting_device_apply Kind.failed event plan c o = ground arith
decide_rule-edge UpdateState.awaiting_device_commit Kind.state_read event plan c o =
    let d = await_commit (told event c) in
    settled-after_settling d.0.next d.1.upload_in_progress (await_commit-settled (told event c))
decide_rule-edge UpdateState.awaiting_device_commit Kind.failed event plan c o = ground arith
decide_rule-edge UpdateState.awaiting_confirmation Kind.confirm_approved event plan c o =
    ground arith
decide_rule-edge UpdateState.confirming Kind.confirmed event plan c o = ground arith
decide_rule-edge UpdateState.confirming Kind.failed event plan c o = ground arith
decide_rule-edge UpdateState.verifying_confirmed Kind.state_read event plan c o =
    let d = verify_confirmed (told event c) in
    settled-after_settling d.0.next d.1.upload_in_progress (verify_confirmed-settled (told event c))
decide_rule-edge UpdateState.verifying_confirmed Kind.failed event plan c o = ground arith
decide_rule-edge UpdateState.completed kind event plan c o = refl
decide_rule-edge UpdateState.failed kind event plan c o = refl
decide_rule-edge UpdateState.cancelled kind event plan c o = refl
decide_rule-edge state kind event plan c o = stops state c.upload_in_progress refl

-- Nothing moves an update that stays where it is.
stays :
    (state : UpdateState) (sending : Bool)
    → edge (phase_of state sending) (phase_of state sending) ≡ true
unfolding phase_of
stays UpdateState.awaiting_reconnect true = refl
stays UpdateState.awaiting_reconnect false = refl
stays _ sending = refl

cancel_update-edge :
    (state : UpdateState) (c : Context) → edge_to state c (cancel_update state c) ≡ true
unfolding cancel_update
cancel_update-edge state c = elim (Bool-cases (is_terminal state)) [
  | inl final ↦ rw (final, cancel_update) (stays state c.upload_in_progress)
  | inr going ↦
      rw (going, cancel_update) (unfold phase_of in stops state c.upload_in_progress going)
]

tick-edge :
    (state : UpdateState) (now : ℕ) (plan : UpdatePlan) (c : Context)
    → Outcome plan state c
    → edge_to state c (tick state now c) ≡ true
unfolding tick wait_tick fail_with phase_of
tick-edge UpdateState.awaiting_disconnect now plan c o = ground arith
tick-edge UpdateState.awaiting_device_apply now plan c o = ground arith
tick-edge UpdateState.awaiting_device_commit now plan c o = ground arith
tick-edge state now plan c o = stays state c.upload_in_progress

decide_kind-edge :
    (kind : Kind) (state : UpdateState) (event : Event) (plan : UpdatePlan) (c : Context)
    → Outcome plan state c
    → edge_to state c (decide_kind kind state event plan c) ≡ true
unfolding decide_kind
decide_kind-edge Kind.cancel state event plan c o = cancel_update-edge state c
decide_kind-edge Kind.tick state event plan c o = tick-edge state event.now plan c o
decide_kind-edge kind state event plan c o = decide_rule-edge state kind event plan c o

checked_decide-edge :
    (m : Machine) (event : Event)
    → Reports m
    → edge_to m.state m.context (checked_decide m event) ≡ true
unfolding checked_decide decide fail_with phase_of
checked_decide-edge m event o =
    elim (Bool-cases
      (is_terminal m.state || is_consistent m.state m.context && is_complete event)) [
        | inl sound ↦
            rw (sound, checked_decide)
              (decide_kind-edge event.kind m.state event m.plan m.context o)
        | inr unsound ↦ elim (Bool-cases (is_terminal m.state)) [
          | inl final ↦ absurd (ground (arith, unsound, final))
          | inr going ↦ ground (arith, unsound, stops m.state m.context.upload_in_progress going)
        ]
      ]

promised_in :
    (state : UpdateState) (m : Machine)
    → m.state ≡ state
    → Reports m
    → promised (record {
      phase = phase_of state m.context.upload_in_progress;
      owed = m.context.swap_scheduled;
    })
      ≡ true
unfolding phase_of
promised_in UpdateState.awaiting_reconnect m e o = elim (Bool-cases m.context.upload_in_progress) [
  | inl sending ↦ rw sending refl
  | inr idle ↦ rw idle refl
]
promised_in _ m e o = ground (arith, e)

-- The state after an event, and whether an upload goes on, are as the decision left them.
apply_next :
    (size : ℕ) (m : Machine) (event : Event)
    → Valid size m
    → let after = (apply m event).1 in
      let (s, c) = checked_decide m event in
      (after.state ≡ s.next) × (after.context.upload_in_progress ≡ c.upload_in_progress)
apply_next size m event v =
    let (a, same) = apply-After false size m event v.reports v.sound in
    let (s, c) = checked_decide m event in
    subst
      (λ (r : Step × Machine).
        (r.1.state ≡ s.next) × (r.1.context.upload_in_progress ≡ c.upload_in_progress))
      (sym same)
      (
        (complete_step_state m event.now s c).0,
        (complete_step-SameCore m event.now s c).upload_in_progress,
      )

-- A step of a machine in a run is a move of the protocol.
apply-move :
    (size : ℕ) (m : Machine) (event : Event)
    → Valid size m
    → abstract m ⟶ abstract (apply m event).1
unfolding abstract
apply-move size m event v =
    let after = (apply m event).1 in
    let (states, uploads) = apply_next size m event v in
    move (rw (states, uploads) (checked_decide-edge m event v.reports))
      (promised_in after.state after refl (apply-Reports m event v.reports))

-- What the machine is in the protocol after each of the events.
unfoldable pub updates : Machine → List Event → List Update
updates m [] = []
updates m (event ∷ events) =
    let after = (apply m event).1 in let rest = updates after events in abstract after ∷ rest

updates-Walk :
    (size : ℕ) (m : Machine) (events : List Event)
    → Valid size m
    → Walk (abstract m) (updates m events)
unfolding updates
updates-Walk size m [] v = halt
updates-Walk size m (event ∷ events) v =
    further (apply-move size m event v)
      (updates-Walk size (apply m event).1 events (apply-Valid size m event v))

-- The machine refines the protocol, event by event: whatever the events are, what the machine is
-- after each of them, in their order, is a run of the protocol from a preparing update with nothing
-- owed. No event takes the machine where the protocol has no move.
pub machine_refines :
    (targets : List Target) (plan : UpdatePlan) (events : List Event)
    → Walk
        (record { phase = Phase.preparing; owed = false })
        (updates (new_machine targets plan) events)
unfolding abstract phase_of new_machine new_context
machine_refines targets plan events =
    updates-Walk (length targets) (new_machine targets plan) events (new_machine-Valid targets plan)
