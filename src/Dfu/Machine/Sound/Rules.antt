-- ===== src/Dfu/Machine/Sound/Rules.antt =====
-- src/dfu/update_state_machine.cpp: every rule of the table, a cancel and a tick keep the context
-- sound.
use smply.Prelude.{
  ℕ, zero, suc, ◌≡◌, refl, Bool, true, false, List, [], ◌∷◌, length-set, set, get_or, all, arith,
  inl, inr, Bool-cases,
}
use smply.Error.{Error}
use smply.Dfu.Plan.{UpdateState, UpdatePlan, ImageReport}
use smply.Dfu.Machine.State.{Effect, Kind, Event, Image, Context}
use smply.Dfu.Machine.Preconditions.{fail_with, mode_refusal, record_mode}
use smply.Dfu.Machine.Waiting.{next_in_trial, in_trial_as, wait_read_failed, confirm_failed}
use smply.Dfu.Machine.Planning.{no_image, current_image, write_image}
use smply.Dfu.Machine.Deciding.{
  mark_refused, reset_refused, wait_tick, tick, with_recorded, bootloader_failed, confirmed_one,
  is_confirmed, verify_confirmed, reconnected_link, told, mode_read, decide_rule, cancel_update,
  decide_kind, decide, same,
}
use smply.Dfu.Machine.Outcome.{Outcome}
use smply.Dfu.Machine.Sound.{device_applied, Working, Sound, After}
use smply.Dfu.Machine.Sound.Booting.{
  next_in_trial_le, fail_with-After, await_commit-After, await_device-After, inspect_boot-After,
}
use smply.Dfu.Machine.Sound.Planned.{
  next_target-After, plan_from_state-After, upload_finished-After, verify_upload-After,
  write_report-Staging,
}

-- A confirm does not change who commits the image.
device_applied-set :
    (images : List Image) (reports : List ImageReport) (at : ℕ) (d : Image)
    → device_applied (set images at (in_trial_as false (get_or images at d))) reports
      ≡ device_applied images reports
device_applied-set [] reports at d = refl
device_applied-set (image ∷ images) [] zero d = refl
device_applied-set (image ∷ images) [] (suc at) d = refl
device_applied-set (image ∷ images) (report ∷ reports) zero d = refl
device_applied-set (image ∷ images) (report ∷ reports) (suc at) d =
    ground (arith, device_applied-set images reports at d)

confirmed_one-After :
    (passed : Bool) (size : ℕ) (plan : UpdatePlan) (c : Context)
    → Working passed size plan c
    → device_applied c.targets c.report.images ≡ true
    → After passed size plan (confirmed_one c)
unfolding confirmed_one current_image mode_refusal
confirmed_one-After passed size plan c w applied =
    let settled : Context = write_image (in_trial_as false (current_image c)) c in
    ground (
      arith,
      length-set c.targets c.current (in_trial_as false (get_or c.targets c.current no_image)),
      device_applied-set c.targets c.report.images c.current no_image,
      next_in_trial_le settled c.current,
    )

verify_confirmed-After :
    (passed : Bool) (size : ℕ) (plan : UpdatePlan) (c : Context)
    → Working passed size plan c
    → After passed size plan (verify_confirmed c)
unfolding verify_confirmed
verify_confirmed-After passed size plan c w =
    let unsettled : Context = record c { swap_scheduled = true } in
    elim (Bool-cases (all (is_confirmed c) c.targets)) [
      | inl every ↦ rw (every, verify_confirmed) (await_commit-After passed size plan c w)
      | inr some_not ↦
          rw (some_not, verify_confirmed)
            (fail_with-After passed size plan _ unsettled (unfold mode_refusal in ground arith))
    ]

-- The update may fail in any state.
pub failing-After :
    (passed : Bool) (size : ℕ) (plan : UpdatePlan) (e : Error) (state : UpdateState) (c : Context)
    → Sound passed size plan state c
    → After passed size plan (fail_with e c)
unfolding fail_with
failing-After passed size plan e state c h = ground arith

stays-After :
    (passed : Bool) (size : ℕ) (plan : UpdatePlan) (state : UpdateState) (c : Context)
    → Sound passed size plan state c
    → After passed size plan (same state Effect.no_effect c)
stays-After passed size plan state c h = ground arith

decide_rule-After :
    (state : UpdateState) (kind : Kind) (passed : Bool) (size : ℕ) (event : Event)
    (plan : UpdatePlan) (c : Context)
    → Outcome plan state c
    → Sound passed size plan state c
    → After passed size plan (decide_rule state kind event plan c)
unfolding decide_rule mark_refused reset_refused bootloader_failed told wait_read_failed
    confirm_failed fail_with reconnected_link mode_read with_recorded record_mode mode_refusal
    next_in_trial
decide_rule-After UpdateState.idle Kind.start passed size event plan c o h = ground arith
decide_rule-After UpdateState.querying_parameters Kind.parameters_read passed size event plan c o
      h =
    ground arith
decide_rule-After UpdateState.querying_parameters Kind.parameters_unavailable passed size event plan
      c o h =
    ground arith
decide_rule-After UpdateState.querying_bootloader Kind.bootloader_read passed size event plan c o
      h =
    ground arith
decide_rule-After UpdateState.querying_bootloader Kind.failed passed size event plan c o h =
    ground arith
decide_rule-After UpdateState.inspecting_images Kind.state_read passed size event plan c o h =
    ground arith
decide_rule-After UpdateState.inspecting_images Kind.failed passed size event plan c o h =
    failing-After passed size plan _ _ c h
decide_rule-After UpdateState.planning Kind.proceed passed size event plan c o h =
    plan_from_state-After passed size plan c (ground arith)
decide_rule-After UpdateState.uploading Kind.upload_finished passed size event plan c o h =
    upload_finished-After passed size event plan c
      (write_report-Staging passed size plan _ (record c { upload_in_progress = false })
        (ground arith))
      (ground arith) (ground arith)
decide_rule-After UpdateState.uploading Kind.upload_suspended passed size event plan c o h =
    ground arith
decide_rule-After UpdateState.uploading Kind.failed passed size event plan c o h =
    failing-After passed size plan _ _ c h
decide_rule-After UpdateState.verifying_upload Kind.state_read passed size event plan c o h =
    verify_upload-After passed size plan (told event c) (ground arith) (ground arith) (ground arith)
decide_rule-After UpdateState.verifying_upload Kind.failed passed size event plan c o h =
    failing-After passed size plan _ _ c h
decide_rule-After UpdateState.marking_for_test Kind.marked_for_test passed size event plan c o h =
    next_target-After passed size plan (record (told event c) { swap_scheduled = true })
      (ground arith) (ground arith)
decide_rule-After UpdateState.marking_for_test Kind.failed passed size event plan c o h =
    ground arith
decide_rule-After UpdateState.resetting Kind.reset_accepted passed size event plan c o h =
    ground arith
decide_rule-After UpdateState.resetting Kind.failed passed size event plan c o h = ground arith
decide_rule-After UpdateState.awaiting_disconnect Kind.disconnected passed size event plan c o h =
    ground arith
decide_rule-After UpdateState.awaiting_reconnect Kind.reconnected passed size event plan c o h =
    ground arith
decide_rule-After UpdateState.awaiting_reconnect Kind.reconnect_failed passed size event plan c o
      h =
    ground arith
decide_rule-After UpdateState.verifying_booted Kind.state_read passed size event plan c o h =
    inspect_boot-After passed size plan (told event c) (ground arith)
decide_rule-After UpdateState.verifying_booted Kind.failed passed size event plan c o h =
    failing-After passed size plan _ _ c h
decide_rule-After UpdateState.awaiting_device_apply Kind.state_read passed size event plan c o h =
    await_device-After passed size plan (told event c) (ground arith) (ground arith)
decide_rule-After UpdateState.awaiting_device_apply Kind.failed passed size event plan c o h =
    ground arith
decide_rule-After UpdateState.awaiting_device_commit Kind.state_read passed size event plan c o h =
    await_commit-After passed size plan (told event c) (ground arith)
decide_rule-After UpdateState.awaiting_device_commit Kind.failed passed size event plan c o h =
    ground arith
decide_rule-After UpdateState.awaiting_confirmation Kind.confirm_approved passed size event plan c o
      h =
    ground arith
decide_rule-After UpdateState.confirming Kind.confirmed passed size event plan c o h =
    confirmed_one-After passed size plan (told event c) (ground arith) (ground arith)
decide_rule-After UpdateState.confirming Kind.failed passed size event plan c o h = ground arith
decide_rule-After UpdateState.verifying_confirmed Kind.state_read passed size event plan c o h =
    verify_confirmed-After passed size plan (told event c) (ground arith)
decide_rule-After UpdateState.verifying_confirmed Kind.failed passed size event plan c o h =
    ground arith
decide_rule-After UpdateState.completed kind passed size event plan c o h =
    stays-After passed size plan UpdateState.completed c h
decide_rule-After UpdateState.failed kind passed size event plan c o h =
    stays-After passed size plan UpdateState.failed c h
decide_rule-After UpdateState.cancelled kind passed size event plan c o h =
    stays-After passed size plan UpdateState.cancelled c h
decide_rule-After _ _ passed size event plan c o h = failing-After passed size plan _ _ c h

cancel_update-After :
    (passed : Bool) (size : ℕ) (state : UpdateState) (plan : UpdatePlan) (c : Context)
    → Sound passed size plan state c
    → After passed size plan (cancel_update state c)
unfolding cancel_update mode_refusal
cancel_update-After passed size UpdateState.idle plan c h = ground arith
cancel_update-After passed size _ plan c h = ground arith

tick-After :
    (passed : Bool) (size : ℕ) (state : UpdateState) (now : ℕ) (plan : UpdatePlan) (c : Context)
    → Outcome plan state c
    → Sound passed size plan state c
    → After passed size plan (tick state now c)
unfolding tick wait_tick fail_with mode_refusal next_in_trial
tick-After passed size UpdateState.idle now plan c o h =
    stays-After passed size plan UpdateState.idle c h
tick-After passed size UpdateState.awaiting_disconnect now plan c o h = ground arith
tick-After passed size UpdateState.awaiting_device_apply now plan c o h = ground arith
tick-After passed size UpdateState.awaiting_device_commit now plan c o h = ground arith
tick-After passed size state now plan c o h = stays-After passed size plan state c h

decide_kind-After :
    (kind : Kind) (passed : Bool) (size : ℕ) (state : UpdateState) (event : Event)
    (plan : UpdatePlan) (c : Context)
    → Outcome plan state c
    → Sound passed size plan state c
    → After passed size plan (decide_kind kind state event plan c)
unfolding decide_kind
decide_kind-After Kind.cancel passed size state event plan c o h =
    cancel_update-After passed size state plan c h
decide_kind-After Kind.tick passed size state event plan c o h =
    tick-After passed size state event.now plan c o h
decide_kind-After kind passed size state event plan c o h =
    decide_rule-After state kind passed size event plan c o h

pub decide-After :
    (passed : Bool) (size : ℕ) (state : UpdateState) (event : Event) (plan : UpdatePlan)
    (c : Context)
    → Outcome plan state c
    → Sound passed size plan state c
    → After passed size plan (decide state event plan c)
unfolding decide
decide-After passed size state event plan c o h =
    decide_kind-After event.kind passed size state event plan c o h
