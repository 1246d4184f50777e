-- ===== src/Dfu/Machine/Outcome/Rules.antt =====
-- src/dfu/update_state_machine.cpp: every rule of the table, a cancel and a tick keep what the
-- report says.
use smply.Prelude.{ℕ, ◌≡◌, refl, inl, inr, true, false, none, arith, Option-cases}
use smply.Dfu.Plan.{UpdateState, UpdatePlan}
use smply.Dfu.Machine.State.{Event, Kind, Context}
use smply.Dfu.Machine.Preconditions.{fail_with, is_upload_only, slot_holding, record_mode}
use smply.Dfu.Machine.Deciding.{
  tick, wait_tick, cancel_update, decide_kind, decide, decide_rule, mark_refused, reset_refused,
  bootloader_failed, confirmed_one, verify_confirmed, reconnected_link, mode_read, with_recorded,
  told,
}
use smply.Dfu.Machine.Planning.{found_in, current_image, uploaded, upload_finished, verify_upload}
use smply.Dfu.Machine.Waiting.{wait_read_failed, confirm_failed}
use smply.Dfu.Machine.Outcome.{Outcome, Working, After}
use smply.Dfu.Machine.Outcome.Booting.{
  fail_with-Outcome, await_commit-Outcome, await_device-Outcome, inspect_boot-Outcome,
}
use smply.Dfu.Machine.Outcome.Planned.{
  next_target-Outcome, mark_or_skip-Outcome, plan_from_state-Outcome,
}

module _ (plan : UpdatePlan) (c : Context) (w : Working plan c) where
  pub verify_upload-Outcome : is_upload_only plan.mode ≡ false → After plan (verify_upload plan c)
  unfolding verify_upload fail_with
  verify_upload-Outcome late = elim (Option-cases (slot_holding c (current_image c).target)) [
    | inl absent ↦ rw (absent, verify_upload) (ground arith)
    | inr (holder, found) ↦
        rw (found, verify_upload)
          (mark_or_skip-Outcome plan (found_in holder.slot.slot c) (ground arith) late)
  ]

  pub confirmed_one-Outcome :
      is_upload_only plan.mode ≡ false → c.swap_scheduled ≡ true → After plan (confirmed_one c)
  unfolding confirmed_one
  confirmed_one-Outcome late owed = ground arith

  pub verify_confirmed-Outcome :
      is_upload_only plan.mode ≡ false → c.swap_scheduled ≡ false → After plan (verify_confirmed c)
  unfolding verify_confirmed fail_with
  verify_confirmed-Outcome late settled = ground (arith, await_commit-Outcome plan c)

pub upload_finished-Outcome :
    (event : Event) (plan : UpdatePlan) (c : Context)
    → c.report.cause ≡ none
    → c.report.revert_pending ≡ false
    → (is_upload_only plan.mode ≡ true → c.swap_scheduled ≡ false)
    → After plan (upload_finished event plan c)
unfolding upload_finished
upload_finished-Outcome event plan c no_cause quiet only =
    let after = uploaded event c in ground (arith, next_target-Outcome plan after)

-- Every rule of the table keeps the invariant, and so do a cancel and a tick.
pub decide_rule-Outcome :
    (state : UpdateState) (kind : Kind) (event : Event) (plan : UpdatePlan) (c : Context)
    → Outcome plan state c
    → After plan (decide_rule state kind event plan c)
unfolding decide_rule mark_refused reset_refused bootloader_failed told wait_read_failed
    confirm_failed fail_with reconnected_link mode_read with_recorded record_mode
decide_rule-Outcome UpdateState.idle Kind.start event plan c o = ground arith
decide_rule-Outcome UpdateState.querying_parameters Kind.parameters_read event plan c o =
    ground arith
decide_rule-Outcome UpdateState.querying_parameters Kind.parameters_unavailable event plan c o =
    ground arith
decide_rule-Outcome UpdateState.querying_bootloader Kind.bootloader_read event plan c o =
    ground arith
decide_rule-Outcome UpdateState.querying_bootloader Kind.failed event plan c o = ground arith
decide_rule-Outcome UpdateState.inspecting_images Kind.state_read event plan c o = ground arith
decide_rule-Outcome UpdateState.inspecting_images Kind.failed event plan c o = ground arith
decide_rule-Outcome UpdateState.planning Kind.proceed event plan c o =
    plan_from_state-Outcome plan c (ground arith)
decide_rule-Outcome UpdateState.uploading Kind.upload_finished event plan c o =
    upload_finished-Outcome event plan c (o.no_cause refl) (o.quiet refl) o.only
decide_rule-Outcome UpdateState.uploading Kind.upload_suspended event plan c o = ground arith
decide_rule-Outcome UpdateState.uploading Kind.failed event plan c o = ground arith
decide_rule-Outcome UpdateState.verifying_upload Kind.state_read event plan c o =
    verify_upload-Outcome plan (told event c) (ground arith) (o.late refl)
decide_rule-Outcome UpdateState.verifying_upload Kind.failed event plan c o = ground arith
decide_rule-Outcome UpdateState.marking_for_test Kind.marked_for_test event plan c o =
    next_target-Outcome plan (record (told event c) { swap_scheduled = true }) (ground arith)
decide_rule-Outcome UpdateState.marking_for_test Kind.failed event plan c o = ground arith
decide_rule-Outcome UpdateState.resetting Kind.reset_accepted event plan c o = ground arith
decide_rule-Outcome UpdateState.resetting Kind.failed event plan c o = ground arith
decide_rule-Outcome UpdateState.awaiting_disconnect Kind.disconnected event plan c o = ground arith
decide_rule-Outcome UpdateState.awaiting_reconnect Kind.reconnected event plan c o = ground arith
decide_rule-Outcome UpdateState.awaiting_reconnect Kind.reconnect_failed event plan c o =
    ground arith
decide_rule-Outcome UpdateState.verifying_booted Kind.state_read event plan c o =
    inspect_boot-Outcome plan (told event c) (ground arith) (o.late refl)
decide_rule-Outcome UpdateState.verifying_booted Kind.failed event plan c o = ground arith
decide_rule-Outcome UpdateState.awaiting_device_apply Kind.state_read event plan c o =
    await_device-Outcome plan (told event c) (ground arith) (o.late refl)
decide_rule-Outcome UpdateState.awaiting_device_apply Kind.failed event plan c o = ground arith
decide_rule-Outcome UpdateState.awaiting_device_commit Kind.state_read event plan c o =
    await_commit-Outcome plan (told event c) (ground arith) (o.late refl) (ground arith)
decide_rule-Outcome UpdateState.awaiting_device_commit Kind.failed event plan c o = ground arith
decide_rule-Outcome UpdateState.awaiting_confirmation Kind.confirm_approved event plan c o =
    ground arith
decide_rule-Outcome UpdateState.confirming Kind.confirmed event plan c o =
    confirmed_one-Outcome plan (told event c) (ground arith) (o.late refl) (ground arith)
decide_rule-Outcome UpdateState.confirming Kind.failed event plan c o = ground arith
decide_rule-Outcome UpdateState.verifying_confirmed Kind.state_read event plan c o =
    verify_confirmed-Outcome plan (told event c) (ground arith) (o.late refl) (ground arith)
decide_rule-Outcome UpdateState.verifying_confirmed Kind.failed event plan c o = ground arith
decide_rule-Outcome UpdateState.completed kind event plan c o = o
decide_rule-Outcome UpdateState.failed kind event plan c o = o
decide_rule-Outcome UpdateState.cancelled kind event plan c o = o
decide_rule-Outcome _ _ event plan c o = fail_with-Outcome plan _ c o.only

pub cancel_update-Outcome :
    (state : UpdateState) (plan : UpdatePlan) (c : Context)
    → Outcome plan state c
    → After plan (cancel_update state c)
unfolding cancel_update
cancel_update-Outcome UpdateState.idle plan c o = ground arith
cancel_update-Outcome _ plan c o = ground arith

pub tick-Outcome :
    (state : UpdateState) (now : ℕ) (plan : UpdatePlan) (c : Context)
    → Outcome plan state c
    → After plan (tick state now c)
unfolding tick wait_tick fail_with
tick-Outcome UpdateState.idle now plan c o = ground arith
tick-Outcome _ now plan c o = ground arith

pub decide_kind-Outcome :
    (kind : Kind) (state : UpdateState) (event : Event) (plan : UpdatePlan) (c : Context)
    → Outcome plan state c
    → After plan (decide_kind kind state event plan c)
unfolding decide_kind
decide_kind-Outcome Kind.cancel state event plan c o = cancel_update-Outcome state plan c o
decide_kind-Outcome Kind.tick state event plan c o = tick-Outcome state event.now plan c o
decide_kind-Outcome kind state event plan c o = decide_rule-Outcome state kind event plan c o

pub decide-Outcome :
    (state : UpdateState) (event : Event) (plan : UpdatePlan) (c : Context)
    → Outcome plan state c
    → After plan (decide state event plan c)
unfolding decide
decide-Outcome state event plan c o = decide_kind-Outcome event.kind state event plan c o
