-- ===== src/Dfu/Machine/Tests.antt =====
-- Runs of the update state machine on two images, the second committed by the device.
use smply.Prelude.{
  ℕ, ◌≡◌, ◌<◌, refl, ap, Bool, true, false, none, some, List, [], ◌∷◌, ◌++◌, length, get_elem?,
  arith,
}
use smply.Error.{error, no_error}
use smply.Image.Values.{ImageHash, ImageVersion}
use smply.Dfu.Plan.{
  UpdateMode, UpdateState, CommitBy, Refusal, McubootMode, UpdatePlan, ImageReport, is_terminal,
}
use smply.Dfu.Machine.Phases.{in_window, is_stopped}
use smply.Dfu.Machine.Sound.Runs.{reached}
use smply.Dfu.Machine.Safety.{acted, confirm_after_apply, refused_untouched}
use smply.Dfu.Machine.Endings.{final_absorbs, cancel-in_window}
use smply.Dfu.Machine.Owed.{marked_reports}
use smply.Dfu.Machine.Deadlines.{is_early, tick_waits}
use smply.Dfu.Machine.Ranges.{named_in_range}
use smply.Dfu.Machine.Protocol.{Phase, Walk}
use smply.Dfu.Machine.Protocol.Refinement.{updates, machine_refines}
use smply.Dfu.SlotTable.{ImageSlot, ImageState, same_hash, find_from, find_slot, active_slot}
use smply.Dfu.Machine.Preconditions.{
  fail_with, record_mode, refusal_of, mode_refusal, without_set_state, older, active_of,
  anything_pending, slot_holds, holds, slot_holding, downgrades, is_downgrade, found_refusal,
  check_preconditions,
}
use smply.Dfu.Machine.Waiting.{
  unconfirmed, running_on_trial, trial_from, next_in_trial, confirmation_fork, apply_of,
  commit_images, await_commit, apply_images, await_device, wait_read_failed, confirm_failed,
  no_active_slot, judge_images, boot_verdict, inspect_boot,
}
use smply.Dfu.Machine.Planning.{
  no_image, blank_report, current_image, current_report, staged, listed_slot, consider,
  chosen_build, take_build, choose_build, next_target, mark_or_skip, plan_held, plan_built,
  plan_one, plan_targets, plan_from_state, upload_finished, verify_upload,
}
use smply.Dfu.Machine.Deciding.{
  mark_refused, reset_refused, wait_tick, tick, with_recorded, bootloader_failed, confirmed_one,
  is_confirmed, verify_confirmed, reconnected_link, told, mode_read, decide_rule, cancel_update,
  decide_kind, decide,
}
use smply.Dfu.Machine.Applying.{
  Machine, as_image, names_current, needs_current, summarise, finish_report, parameterise, arm_wait,
  clear_grace, arm, keep_time, is_consistent, checked_decide, guarded, complete_step, apply,
  next_deadline, empty_report, new_context, new_machine, run,
}
use smply.Dfu.Machine.State.{Effect, Kind, Event, Target, Step, Image, no_hash}

abbrev new_hash : ImageHash
new_hash = record { contents = 7 ∷ 7 ∷ []; size = 2 }

abbrev old_hash : ImageHash
old_hash = record { contents = 1 ∷ 1 ∷ []; size = 2 }

abbrev version : ImageVersion
version = record { major = 2; minor = 0; revision = 0; build = 0 }

abbrev target : ℕ → CommitBy → Target
target image commit = record {
  image = image;
  commit = commit;
  hash = new_hash;
  version = version;
  builds = none;
}

abbrev two_targets : List Target
two_targets = target 0 CommitBy.client ∷ target 1 CommitBy.device ∷ []

abbrev plan : UpdateMode → UpdatePlan
plan mode = record {
  mode = mode;
  fallback_mode = none;
  allow_no_revert = false;
  check_downgrade = true;
  skip_if_already_present = true;
  disconnect_grace = 10;
  apply_timeout = 300;
  apply_poll_interval = 2;
}

abbrev slot_with : ℕ → ℕ → ImageHash → Bool → Bool → Bool → ImageSlot
slot_with image slot hash pending active confirmed = record {
  image = image;
  slot = slot;
  version = [];
  hash = some hash;
  bootable = true;
  pending = pending;
  confirmed = confirmed;
  active = active;
  permanent = false;
}

-- Both images run the old file, with the new one marked or not.
abbrev before_reset : Bool → ImageState
before_reset marked = record {
  slots =
      slot_with 0 0 old_hash false true true
      ∷ slot_with 0 1 new_hash marked false false
      ∷ slot_with 1 2 old_hash false true true
      ∷ slot_with 1 3 new_hash marked false false
      ∷ [];
}

-- Both images run the new file on trial.
abbrev on_trial_table : ImageState
on_trial_table = record {
  slots = slot_with 0 0 new_hash false true false ∷ slot_with 1 2 new_hash false true false ∷ [];
}

abbrev event : Kind → ℕ → Event
event kind now = record {
  kind = kind;
  now = now;
  buf_size = 0;
  bootloader = record { mode = McubootMode.unknown; no_downgrade = false };
  state = none;
  transferred = 0;
  already_present = false;
  error = error no_error "";
}

abbrev table_read : Kind → ImageState → Event
table_read kind table = record (event kind 0) { state = some table }

abbrev mode_told : McubootMode → Event
mode_told mode = record (event Kind.bootloader_read 0) {
  bootloader = record { mode = mode; no_downgrade = false };
}

abbrev asked : McubootMode → ImageState → List Event
asked mode table =
    event Kind.start 0
    ∷ event Kind.parameters_unavailable 0
    ∷ mode_told mode
    ∷ table_read Kind.state_read table
    ∷ event Kind.proceed 0
    ∷ []

abbrev restarted : List Event
restarted =
    asked McubootMode.swap_using_move (before_reset true) ++ event Kind.reset_accepted 100 ∷ []

abbrev back : List Event
back = restarted ++ event Kind.disconnected 0 ∷ event Kind.reconnected 0 ∷ []

abbrev booted : List Event
booted = back ++ table_read Kind.state_read on_trial_table ∷ []

-- The witnesses' runs.
abbrev confirming_step : Step × Machine
confirming_step =
    apply (reached two_targets (plan UpdateMode.confirm_immediately) back)
      (table_read Kind.state_read on_trial_table)

abbrev second_image : Image
second_image = as_image (target 1 CommitBy.device)

abbrev second_report : ImageReport
second_report = record (blank_report (target 1 CommitBy.device)) {
  upload_skipped = true;
  upload_slot = some 3;
  applied = true;
}

confirms : confirming_step.0.effect ≡ Effect.confirm
unfolding same_hash find_from find_slot active_slot fail_with record_mode refusal_of mode_refusal
    without_set_state older active_of anything_pending slot_holds holds slot_holding downgrades
    is_downgrade found_refusal check_preconditions unconfirmed running_on_trial trial_from
    next_in_trial confirmation_fork apply_of commit_images await_commit apply_images await_device
    wait_read_failed confirm_failed no_active_slot judge_images boot_verdict inspect_boot no_image
    blank_report current_image current_report staged listed_slot consider chosen_build take_build
    choose_build next_target mark_or_skip plan_held plan_built plan_one plan_targets plan_from_state
    upload_finished verify_upload mark_refused reset_refused wait_tick tick with_recorded
    bootloader_failed confirmed_one is_confirmed verify_confirmed reconnected_link told mode_read
    decide_rule cancel_update decide_kind decide summarise finish_report parameterise arm_wait
    clear_grace arm keep_time is_consistent checked_decide guarded complete_step apply empty_report
    new_context new_machine run no_hash
confirms = refl

second_listed : get_elem? confirming_step.1.context.targets 1 ≡ some second_image
unfolding same_hash find_from find_slot active_slot fail_with record_mode refusal_of mode_refusal
    without_set_state older active_of anything_pending slot_holds holds slot_holding downgrades
    is_downgrade found_refusal check_preconditions unconfirmed running_on_trial trial_from
    next_in_trial confirmation_fork apply_of commit_images await_commit apply_images await_device
    wait_read_failed confirm_failed no_active_slot judge_images boot_verdict inspect_boot no_image
    blank_report current_image current_report staged listed_slot consider chosen_build take_build
    choose_build next_target mark_or_skip plan_held plan_built plan_one plan_targets plan_from_state
    upload_finished verify_upload mark_refused reset_refused wait_tick tick with_recorded
    bootloader_failed confirmed_one is_confirmed verify_confirmed reconnected_link told mode_read
    decide_rule cancel_update decide_kind decide summarise finish_report parameterise arm_wait
    clear_grace arm keep_time is_consistent checked_decide guarded complete_step apply empty_report
    new_context new_machine run no_hash
second_listed = refl

second_told : get_elem? confirming_step.1.context.report.images 1 ≡ some second_report
unfolding same_hash find_from find_slot active_slot fail_with record_mode refusal_of mode_refusal
    without_set_state older active_of anything_pending slot_holds holds slot_holding downgrades
    is_downgrade found_refusal check_preconditions unconfirmed running_on_trial trial_from
    next_in_trial confirmation_fork apply_of commit_images await_commit apply_images await_device
    wait_read_failed confirm_failed no_active_slot judge_images boot_verdict inspect_boot no_image
    blank_report current_image current_report staged listed_slot consider chosen_build take_build
    choose_build next_target mark_or_skip plan_held plan_built plan_one plan_targets plan_from_state
    upload_finished verify_upload mark_refused reset_refused wait_tick tick with_recorded
    bootloader_failed confirmed_one is_confirmed verify_confirmed reconnected_link told mode_read
    decide_rule cancel_update decide_kind decide summarise finish_report parameterise arm_wait
    clear_grace arm keep_time is_consistent checked_decide guarded complete_step apply empty_report
    new_context new_machine run no_hash
second_told = refl

confirm_after_apply_example : second_report.applied ≡ true
confirm_after_apply_example =
    confirm_after_apply two_targets (plan UpdateMode.confirm_immediately) back
      (table_read Kind.state_read on_trial_table) 1 second_image second_report confirms
      second_listed second_told refl

abbrev refused_run : List Step × Machine
refused_run =
    run (new_machine two_targets (plan UpdateMode.test_then_confirm))
      (asked McubootMode.upgrade_only (before_reset false))

refused : refused_run.1.context.report.refusal ≡ some Refusal.revert_unavailable
unfolding same_hash find_from find_slot active_slot fail_with record_mode refusal_of mode_refusal
    without_set_state older active_of anything_pending slot_holds holds slot_holding downgrades
    is_downgrade found_refusal check_preconditions unconfirmed running_on_trial trial_from
    next_in_trial confirmation_fork apply_of commit_images await_commit apply_images await_device
    wait_read_failed confirm_failed no_active_slot judge_images boot_verdict inspect_boot no_image
    blank_report current_image current_report staged listed_slot consider chosen_build take_build
    choose_build next_target mark_or_skip plan_held plan_built plan_one plan_targets plan_from_state
    upload_finished verify_upload mark_refused reset_refused wait_tick tick with_recorded
    bootloader_failed confirmed_one is_confirmed verify_confirmed reconnected_link told mode_read
    decide_rule cancel_update decide_kind decide summarise finish_report parameterise arm_wait
    clear_grace arm keep_time is_consistent checked_decide guarded complete_step apply empty_report
    new_context new_machine run no_hash
refused = refl

refused_untouched_example : acted refused_run.0 ≡ false
refused_untouched_example =
    refused_untouched two_targets (plan UpdateMode.test_then_confirm)
      (asked McubootMode.upgrade_only (before_reset false)) (λ e. absurd (cc (refused, e)))

-- An update that resets acts on the device.
acts_run :
    acted (run (new_machine two_targets (plan UpdateMode.test_then_confirm)) restarted).0 ≡ true
unfolding same_hash find_from find_slot active_slot fail_with record_mode refusal_of mode_refusal
    without_set_state older active_of anything_pending slot_holds holds slot_holding downgrades
    is_downgrade found_refusal check_preconditions unconfirmed running_on_trial trial_from
    next_in_trial confirmation_fork apply_of commit_images await_commit apply_images await_device
    wait_read_failed confirm_failed no_active_slot judge_images boot_verdict inspect_boot no_image
    blank_report current_image current_report staged listed_slot consider chosen_build take_build
    choose_build next_target mark_or_skip plan_held plan_built plan_one plan_targets plan_from_state
    upload_finished verify_upload mark_refused reset_refused wait_tick tick with_recorded
    bootloader_failed confirmed_one is_confirmed verify_confirmed reconnected_link told mode_read
    decide_rule cancel_update decide_kind decide summarise finish_report parameterise arm_wait
    clear_grace arm keep_time is_consistent checked_decide guarded complete_step apply empty_report
    new_context new_machine run no_hash
acts_run = refl

-- The first image is in its slot, and the device marks it.
abbrev marking : List Event
marking = asked McubootMode.swap_using_move (before_reset false)

abbrev mark_answered : Event
mark_answered = table_read Kind.marked_for_test (before_reset true)

abbrev cancelled_after : Machine
cancelled_after =
    (run (apply (reached two_targets (plan UpdateMode.test_then_confirm) marking) mark_answered).1
      (event Kind.cancel 0 ∷ [])).1

marks :
    (reached two_targets (plan UpdateMode.test_then_confirm) marking).state
    ≡ UpdateState.marking_for_test
unfolding same_hash find_from find_slot active_slot fail_with record_mode refusal_of mode_refusal
    without_set_state older active_of anything_pending slot_holds holds slot_holding downgrades
    is_downgrade found_refusal check_preconditions unconfirmed running_on_trial trial_from
    next_in_trial confirmation_fork apply_of commit_images await_commit apply_images await_device
    wait_read_failed confirm_failed no_active_slot judge_images boot_verdict inspect_boot no_image
    blank_report current_image current_report staged listed_slot consider chosen_build take_build
    choose_build next_target mark_or_skip plan_held plan_built plan_one plan_targets plan_from_state
    upload_finished verify_upload mark_refused reset_refused wait_tick tick with_recorded
    bootloader_failed confirmed_one is_confirmed verify_confirmed reconnected_link told mode_read
    decide_rule cancel_update decide_kind decide summarise finish_report parameterise arm_wait
    clear_grace arm keep_time is_consistent checked_decide guarded complete_step apply empty_report
    new_context new_machine run no_hash
marks = refl

cancels : is_stopped cancelled_after.state ≡ true
unfolding same_hash find_from find_slot active_slot fail_with record_mode refusal_of mode_refusal
    without_set_state older active_of anything_pending slot_holds holds slot_holding downgrades
    is_downgrade found_refusal check_preconditions unconfirmed running_on_trial trial_from
    next_in_trial confirmation_fork apply_of commit_images await_commit apply_images await_device
    wait_read_failed confirm_failed no_active_slot judge_images boot_verdict inspect_boot no_image
    blank_report current_image current_report staged listed_slot consider chosen_build take_build
    choose_build next_target mark_or_skip plan_held plan_built plan_one plan_targets plan_from_state
    upload_finished verify_upload mark_refused reset_refused wait_tick tick with_recorded
    bootloader_failed confirmed_one is_confirmed verify_confirmed reconnected_link told mode_read
    decide_rule cancel_update decide_kind decide summarise finish_report parameterise arm_wait
    clear_grace arm keep_time is_consistent checked_decide guarded complete_step apply empty_report
    new_context new_machine run no_hash
cancels = refl

marked_reports_example : cancelled_after.context.report.revert_pending ≡ true
marked_reports_example =
    marked_reports two_targets (plan UpdateMode.test_then_confirm) marking mark_answered
      (event Kind.cancel 0 ∷ []) (omega arith) marks refl refl refl cancels

waits_for_approval :
    (reached two_targets (plan UpdateMode.test_then_confirm) booted).state
    ≡ UpdateState.awaiting_confirmation
unfolding same_hash find_from find_slot active_slot fail_with record_mode refusal_of mode_refusal
    without_set_state older active_of anything_pending slot_holds holds slot_holding downgrades
    is_downgrade found_refusal check_preconditions unconfirmed running_on_trial trial_from
    next_in_trial confirmation_fork apply_of commit_images await_commit apply_images await_device
    wait_read_failed confirm_failed no_active_slot judge_images boot_verdict inspect_boot no_image
    blank_report current_image current_report staged listed_slot consider chosen_build take_build
    choose_build next_target mark_or_skip plan_held plan_built plan_one plan_targets plan_from_state
    upload_finished verify_upload mark_refused reset_refused wait_tick tick with_recorded
    bootloader_failed confirmed_one is_confirmed verify_confirmed reconnected_link told mode_read
    decide_rule cancel_update decide_kind decide summarise finish_report parameterise arm_wait
    clear_grace arm keep_time is_consistent checked_decide guarded complete_step apply empty_report
    new_context new_machine run no_hash
waits_for_approval = refl

in_confirmation :
    in_window (reached two_targets (plan UpdateMode.test_then_confirm) booted).state ≡ true
in_confirmation = ap in_window waits_for_approval

cancel-in_window_example :
    let (s, after) =
      apply
        (reached two_targets (plan UpdateMode.test_then_confirm) booted)
        (event Kind.cancel 0) in
    (after.state ≡ UpdateState.cancelled)
    × (s.effect ≡ Effect.finish)
    × (after.context.report.revert_pending ≡ true)
cancel-in_window_example =
    cancel-in_window two_targets (plan UpdateMode.test_then_confirm) booted (event Kind.cancel 0)
      refl in_confirmation (omega arith)

named_in_range_example :
    let m = reached two_targets (plan UpdateMode.confirm_immediately) back in
    let told_table = table_read Kind.state_read on_trial_table in
    let (s, c) = decide m.state told_table m.plan m.context in
    (names_current s.effect ≡ true → c.current < 2)
    × (needs_current s.next ≡ true → c.current < 2)
    × (length c.report.images ≡ 2)
    × (apply m told_table ≡ complete_step m 0 (s, c))
named_in_range_example =
    named_in_range two_targets (plan UpdateMode.confirm_immediately) back
      (table_read Kind.state_read on_trial_table) (omega arith) refl

abbrev refused_machine : Machine
refused_machine = refused_run.1

refused_final : is_terminal refused_machine.state ≡ true
unfolding same_hash find_from find_slot active_slot fail_with record_mode refusal_of mode_refusal
    without_set_state older active_of anything_pending slot_holds holds slot_holding downgrades
    is_downgrade found_refusal check_preconditions unconfirmed running_on_trial trial_from
    next_in_trial confirmation_fork apply_of commit_images await_commit apply_images await_device
    wait_read_failed confirm_failed no_active_slot judge_images boot_verdict inspect_boot no_image
    blank_report current_image current_report staged listed_slot consider chosen_build take_build
    choose_build next_target mark_or_skip plan_held plan_built plan_one plan_targets plan_from_state
    upload_finished verify_upload mark_refused reset_refused wait_tick tick with_recorded
    bootloader_failed confirmed_one is_confirmed verify_confirmed reconnected_link told mode_read
    decide_rule cancel_update decide_kind decide summarise finish_report parameterise arm_wait
    clear_grace arm keep_time is_consistent checked_decide guarded complete_step apply empty_report
    new_context new_machine run no_hash
refused_final = refl

final_absorbs_example :
    let (s, after) = apply refused_machine (event Kind.state_read 0) in
    (s.effect ≡ Effect.no_effect)
    × (after.state ≡ refused_machine.state)
    × (after.context.report.cause ≡ refused_machine.context.report.cause)
    × (after.context.report.revert_pending ≡ refused_machine.context.report.revert_pending)
    × (after.context.report.refusal ≡ refused_machine.context.report.refusal)
    × (after.context.report.images ≡ refused_machine.context.report.images)
final_absorbs_example = final_absorbs refused_machine (event Kind.state_read 0) refused_final

abbrev parting : Machine
parting = reached two_targets (plan UpdateMode.test_then_confirm) restarted

early : is_early 109 (next_deadline parting) ≡ true
unfolding same_hash find_from find_slot active_slot fail_with record_mode refusal_of mode_refusal
    without_set_state older active_of anything_pending slot_holds holds slot_holding downgrades
    is_downgrade found_refusal check_preconditions unconfirmed running_on_trial trial_from
    next_in_trial confirmation_fork apply_of commit_images await_commit apply_images await_device
    wait_read_failed confirm_failed no_active_slot judge_images boot_verdict inspect_boot no_image
    blank_report current_image current_report staged listed_slot consider chosen_build take_build
    choose_build next_target mark_or_skip plan_held plan_built plan_one plan_targets plan_from_state
    upload_finished verify_upload mark_refused reset_refused wait_tick tick with_recorded
    bootloader_failed confirmed_one is_confirmed verify_confirmed reconnected_link told mode_read
    decide_rule cancel_update decide_kind decide summarise finish_report parameterise arm_wait
    clear_grace arm keep_time is_consistent checked_decide guarded complete_step apply empty_report
    new_context new_machine run no_hash next_deadline
early = refl

tick_waits_example :
    let (s, after) = apply parting (event Kind.tick 109) in
    (s.effect ≡ Effect.no_effect)
    × (after.state ≡ parting.state)
    × (after.context.device ≡ parting.context.device)
    × (after.context.report.images ≡ parting.context.report.images)
    × (after.context.report.cause ≡ parting.context.report.cause)
tick_waits_example =
    tick_waits two_targets (plan UpdateMode.test_then_confirm) restarted (event Kind.tick 109)
      (omega arith) refl early

-- At the deadline the machine asks for the reconnect.
parted : (apply parting (event Kind.tick 110)).0.effect ≡ Effect.request_reconnect
unfolding same_hash find_from find_slot active_slot fail_with record_mode refusal_of mode_refusal
    without_set_state older active_of anything_pending slot_holds holds slot_holding downgrades
    is_downgrade found_refusal check_preconditions unconfirmed running_on_trial trial_from
    next_in_trial confirmation_fork apply_of commit_images await_commit apply_images await_device
    wait_read_failed confirm_failed no_active_slot judge_images boot_verdict inspect_boot no_image
    blank_report current_image current_report staged listed_slot consider chosen_build take_build
    choose_build next_target mark_or_skip plan_held plan_built plan_one plan_targets plan_from_state
    upload_finished verify_upload mark_refused reset_refused wait_tick tick with_recorded
    bootloader_failed confirmed_one is_confirmed verify_confirmed reconnected_link told mode_read
    decide_rule cancel_update decide_kind decide summarise finish_report parameterise arm_wait
    clear_grace arm keep_time is_consistent checked_decide guarded complete_step apply empty_report
    new_context new_machine run no_hash
parted = refl

machine_refines_example :
    Walk
      (record { phase = Phase.preparing; owed = false })
      (updates (new_machine two_targets (plan UpdateMode.test_then_confirm)) booted)
machine_refines_example = machine_refines two_targets (plan UpdateMode.test_then_confirm) booted
