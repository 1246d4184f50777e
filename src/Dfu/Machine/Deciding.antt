-- ===== src/Dfu/Machine/Deciding.antt =====
-- src/dfu/update_state_machine.cpp: the refusals of single commands, and the table of the states.
use Prim.Native.String.{String}
use smply.Prelude.{
  ℕ, Bool, true, false, ◌&&◌, ◌||◌, not, Option, none, some, ltb, leb, ◌==◌, if◌then◌else◌, length,
  all,
}
use smply.Error.{
  ErrorCode, Error, smp_error, smp_error_busy, smp_error_bad_state, timeout, update_failed,
  protocol_error, cbor_decode, internal,
}
use smply.Dfu.SlotTable.{image_error, image_already_pending}
use smply.Dfu.Plan.{UpdateState, McubootMode, UpdatePlan, is_terminal}
use smply.Dfu.Machine.State.{Effect, Kind, Event, Image, Context, step, Decision}
use smply.Dfu.Machine.Preconditions.{fail_with, fail_as, record_mode, active_of, holds}
use smply.Dfu.Machine.Waiting.{
  is_client, unconfirmed, next_in_trial, await_commit, await_device, is_disconnected, is_timeout,
  wait_read_failed, confirm_failed, inspect_boot, in_trial_as,
}
use smply.Dfu.Machine.Planning.{
  current_image, write_image, next_target, plan_from_state, upload_finished, verify_upload,
}

abbrev pub is_some_number : ℕ → Option ℕ → Bool
is_some_number expected given = elim given [ none ↦ false | some n ↦ n == expected ]

unfoldable pub mark_refused : Error → Context → Decision
mark_refused e c =
    let recoverable =
      is_some_number image_already_pending (image_error e)
      || is_some_number smp_error_bad_state (smp_error e) in
    if recoverable && not c.mark_retried
    then (step UpdateState.inspecting_images Effect.read_state, record c { mark_retried = true })
    else fail_with e c

unfoldable pub reset_refused : Error → Context → Decision
reset_refused e c =
    if is_some_number smp_error_busy (smp_error e) && not c.reset_forced
    then (step UpdateState.resetting Effect.force_reset, record c { reset_forced = true })
    else if is_disconnected e.code || is_timeout e.code
    then (step UpdateState.awaiting_disconnect Effect.await_disconnect, c)
    else fail_with e c

-- Whether an optional deadline is set and has passed.
abbrev pub is_due : ℕ → Option ℕ → Bool
is_due now deadline = elim deadline [ none ↦ false | some at ↦ leb at now ]

-- A `Tick` in one of the two waits.
unfoldable pub wait_tick : UpdateState → String → ℕ → Context → Decision
wait_tick state text now c =
    let read : Context = record c { apply_poll = none } in
    if not (is_due now c.apply_poll)
    then (step state Effect.no_effect, c)
    else if is_due now c.apply_deadline
    then fail_as timeout text read
    else (step state Effect.read_state, read)

unfoldable pub tick : UpdateState → ℕ → Context → Decision
tick UpdateState.awaiting_disconnect now c =
    if is_due now c.grace_deadline
    then (step UpdateState.awaiting_reconnect Effect.request_reconnect, c)
    else (step UpdateState.awaiting_disconnect Effect.no_effect, c)
tick UpdateState.awaiting_device_apply now c =
    wait_tick UpdateState.awaiting_device_apply "dfu: device did not apply an image in time" now c
tick UpdateState.awaiting_device_commit now c =
    wait_tick UpdateState.awaiting_device_commit "dfu: device did not commit an image in time" now c
tick state now c = (step state Effect.no_effect, c)

abbrev pub answers_without_mode : ErrorCode → Bool
answers_without_mode protocol_error = true
answers_without_mode cbor_decode = true
answers_without_mode _ = false

-- `InspectingImages` is entered with the mode recorded.
unfoldable pub with_recorded : McubootMode → UpdatePlan → Context → Context
with_recorded mode plan c = record c { report = record_mode mode plan c.report }

unfoldable pub bootloader_failed : Error → UpdatePlan → Context → Decision
bootloader_failed e plan c =
    if answers_without_mode e.code
    then (
      step UpdateState.inspecting_images Effect.read_state,
      with_recorded McubootMode.unknown plan c,
    )
    else fail_with e c

-- `Confirming`, on `Confirmed`, with the table recorded: the next image that is owed a confirm, or the read-back.
unfoldable pub confirmed_one : Context → Decision
confirmed_one c =
    let settled : Context = write_image (in_trial_as false (current_image c)) c in
    let moved : Context = record settled { current = next_in_trial settled c.current } in
    if ltb moved.current (length moved.targets)
    then (step UpdateState.confirming Effect.confirm, moved)
    else (
      step UpdateState.verifying_confirmed Effect.read_state,
      record moved { swap_scheduled = false },
    )

-- The test of `all_confirmed` for one target.
unfoldable pub is_confirmed : Context → Image → Bool
is_confirmed c image =
    let running = active_of c image.target.image in
    not (is_client image.target.commit) || holds running image.target && not (unconfirmed running)

-- `VerifyingConfirmed`, on `StateRead`, with the table recorded.
unfoldable pub verify_confirmed : Context → Decision
verify_confirmed c =
    if all (is_confirmed c) c.targets
    then await_commit c
    else fail_as update_failed "dfu: device did not report the image as confirmed"
        (record c { swap_scheduled = true })

abbrev pub not_legal : Context → Decision
not_legal = fail_as internal "dfu: event not legal in this state"

abbrev pub same : UpdateState → Effect → Context → Decision
same next effect c = (step next effect, c)

-- `AwaitingReconnect`, on `Reconnected`.
unfoldable pub reconnected_link : Context → Decision
reconnected_link c =
    if c.upload_in_progress
    then same UpdateState.uploading Effect.resume_upload c
    else same UpdateState.verifying_booted Effect.read_state c

-- `context.device = *event.state`; `apply` lets no null pointer come here.
unfoldable pub told : Event → Context → Context
told event c = elim event.state [ none ↦ c | some state ↦ record c { device = some state } ]

unfoldable pub mode_read : Event → UpdatePlan → Context → Context
mode_read event plan c = record (with_recorded event.bootloader.mode plan c) {
  no_downgrade = event.bootloader.no_downgrade;
}

-- The `switch` over the states; the last clause is an event that its state has no rule for.
unfoldable pub decide_rule : UpdateState → Kind → Event → UpdatePlan → Context → Decision
decide_rule UpdateState.idle Kind.start event plan c =
    same UpdateState.querying_parameters Effect.query_parameters c
decide_rule UpdateState.querying_parameters Kind.parameters_read event plan c =
    same UpdateState.querying_bootloader Effect.query_bootloader
      (record c { buf_size = event.buf_size })
decide_rule UpdateState.querying_parameters Kind.parameters_unavailable event plan c =
    same UpdateState.querying_bootloader Effect.query_bootloader c
decide_rule UpdateState.querying_bootloader Kind.bootloader_read event plan c =
    same UpdateState.inspecting_images Effect.read_state (mode_read event plan c)
decide_rule UpdateState.querying_bootloader Kind.failed event plan c =
    bootloader_failed event.error plan c
decide_rule UpdateState.inspecting_images Kind.state_read event plan c =
    same UpdateState.planning Effect.proceed (told event c)
decide_rule UpdateState.inspecting_images Kind.failed event plan c = fail_with event.error c
decide_rule UpdateState.planning Kind.proceed event plan c = plan_from_state plan c
decide_rule UpdateState.uploading Kind.upload_finished event plan c = upload_finished event plan c
decide_rule UpdateState.uploading Kind.upload_suspended event plan c =
    same UpdateState.awaiting_reconnect Effect.request_reconnect c
decide_rule UpdateState.uploading Kind.failed event plan c = fail_with event.error c
decide_rule UpdateState.verifying_upload Kind.state_read event plan c =
    verify_upload plan (told event c)
decide_rule UpdateState.verifying_upload Kind.failed event plan c = fail_with event.error c
decide_rule UpdateState.marking_for_test Kind.marked_for_test event plan c =
    next_target plan (record (told event c) { swap_scheduled = true })
decide_rule UpdateState.marking_for_test Kind.failed event plan c = mark_refused event.error c
decide_rule UpdateState.resetting Kind.reset_accepted event plan c =
    same UpdateState.awaiting_disconnect Effect.await_disconnect c
decide_rule UpdateState.resetting Kind.failed event plan c = reset_refused event.error c
decide_rule UpdateState.awaiting_disconnect Kind.disconnected event plan c =
    same UpdateState.awaiting_reconnect Effect.request_reconnect c
decide_rule UpdateState.awaiting_reconnect Kind.reconnected event plan c = reconnected_link c
decide_rule UpdateState.awaiting_reconnect Kind.reconnect_failed event plan c =
    fail_with event.error c
decide_rule UpdateState.verifying_booted Kind.state_read event plan c =
    inspect_boot plan (told event c)
decide_rule UpdateState.verifying_booted Kind.failed event plan c = fail_with event.error c
decide_rule UpdateState.awaiting_device_apply Kind.state_read event plan c =
    await_device plan (told event c)
decide_rule UpdateState.awaiting_device_apply Kind.failed event plan c =
    wait_read_failed UpdateState.awaiting_device_apply event.error c
decide_rule UpdateState.awaiting_device_commit Kind.state_read event plan c =
    await_commit (told event c)
decide_rule UpdateState.awaiting_device_commit Kind.failed event plan c =
    wait_read_failed UpdateState.awaiting_device_commit event.error c
decide_rule UpdateState.awaiting_confirmation Kind.confirm_approved event plan c =
    same UpdateState.confirming Effect.confirm (record c { confirm_approved = true })
decide_rule UpdateState.confirming Kind.confirmed event plan c = confirmed_one (told event c)
decide_rule UpdateState.confirming Kind.failed event plan c = confirm_failed event.error c
decide_rule UpdateState.verifying_confirmed Kind.state_read event plan c =
    verify_confirmed (told event c)
decide_rule UpdateState.verifying_confirmed Kind.failed event plan c = confirm_failed event.error c
decide_rule UpdateState.completed kind event plan c = same UpdateState.completed Effect.no_effect c
decide_rule UpdateState.failed kind event plan c = same UpdateState.failed Effect.no_effect c
decide_rule UpdateState.cancelled kind event plan c = same UpdateState.cancelled Effect.no_effect c
decide_rule _ _ event plan c = not_legal c

-- `Cancel`, which is the same in every state that is not final.
unfoldable pub cancel_update : UpdateState → Context → Decision
cancel_update state c =
    if is_terminal state
    then same state Effect.no_effect c
    else same UpdateState.cancelled Effect.finish
        (record c { report = record c.report { revert_pending = c.swap_scheduled } })

-- Cancelling and time passing are legal in every state.
unfoldable pub decide_kind : Kind → UpdateState → Event → UpdatePlan → Context → Decision
decide_kind Kind.cancel state event plan c = cancel_update state c
decide_kind Kind.tick state event plan c = tick state event.now c
decide_kind kind state event plan c = decide_rule state kind event plan c

unfoldable pub decide : UpdateState → Event → UpdatePlan → Context → Decision
decide state event plan c = decide_kind event.kind state event plan c
