-- ===== src/Dfu/Machine/Phases.antt =====
-- src/dfu/update_state_machine.cpp: the states by what they have in common.
use smply.Prelude.{Bool, true, false, ◌||◌}
use smply.Dfu.Plan.{UpdateState}
use smply.Dfu.Machine.State.{Effect}

abbrev pub is_failed : UpdateState → Bool
is_failed UpdateState.failed = true
is_failed _ = false

abbrev pub is_stopped : UpdateState → Bool
is_stopped UpdateState.failed = true
is_stopped UpdateState.cancelled = true
is_stopped _ = false

-- The states in which no swap is owed.
abbrev pub is_settled : UpdateState → Bool
is_settled UpdateState.completed = true
is_settled UpdateState.awaiting_device_commit = true
is_settled UpdateState.verifying_confirmed = true
is_settled _ = false

abbrev pub in_window : UpdateState → Bool
in_window UpdateState.awaiting_confirmation = true
in_window UpdateState.confirming = true
in_window _ = false

-- The states that an update which only uploads never reaches.
abbrev pub past_upload : UpdateState → Bool
past_upload UpdateState.verifying_upload = true
past_upload UpdateState.marking_for_test = true
past_upload UpdateState.resetting = true
past_upload UpdateState.awaiting_disconnect = true
past_upload UpdateState.verifying_booted = true
past_upload UpdateState.awaiting_device_apply = true
past_upload UpdateState.awaiting_confirmation = true
past_upload UpdateState.confirming = true
past_upload UpdateState.verifying_confirmed = true
past_upload UpdateState.awaiting_device_commit = true
past_upload _ = false

abbrev pub is_reconnecting : UpdateState → Bool
is_reconnecting UpdateState.awaiting_reconnect = true
is_reconnecting _ = false

abbrev pub is_sending : UpdateState → Bool
is_sending UpdateState.uploading = true
is_sending _ = false

abbrev pub may_upload : UpdateState → Bool
may_upload UpdateState.uploading = true
may_upload UpdateState.awaiting_reconnect = true
may_upload UpdateState.failed = true
may_upload UpdateState.cancelled = true
may_upload _ = false

abbrev pub is_restarting : UpdateState → Bool
is_restarting UpdateState.resetting = true
is_restarting UpdateState.awaiting_disconnect = true
is_restarting _ = false

abbrev pub is_applying : UpdateState → Bool
is_applying UpdateState.awaiting_device_apply = true
is_applying _ = false

-- The states that work on the current image, or wait for the application to let them.
abbrev pub needs_image : UpdateState → Bool
needs_image UpdateState.uploading = true
needs_image UpdateState.verifying_upload = true
needs_image UpdateState.marking_for_test = true
needs_image UpdateState.awaiting_confirmation = true
needs_image UpdateState.confirming = true
needs_image _ = false

-- The states after a command that changes the device, up to the boot.
abbrev pub is_acting : UpdateState → Bool
is_acting UpdateState.uploading = true
is_acting UpdateState.verifying_upload = true
is_acting UpdateState.marking_for_test = true
is_acting UpdateState.resetting = true
is_acting UpdateState.awaiting_disconnect = true
is_acting _ = false

abbrev pub is_querying : UpdateState → Bool
is_querying UpdateState.idle = true
is_querying UpdateState.querying_parameters = true
is_querying UpdateState.querying_bootloader = true
is_querying _ = false

abbrev pub before_boot : UpdateState → Bool
before_boot UpdateState.inspecting_images = true
before_boot UpdateState.planning = true
before_boot state = is_querying state || is_acting state

-- The effects that change what the device holds or runs, before it boots.
abbrev pub acts : Effect → Bool
acts Effect.start_upload = true
acts Effect.mark_for_test = true
acts Effect.reset = true
acts Effect.force_reset = true
acts _ = false

abbrev pub is_await_apply : Effect → Bool
is_await_apply Effect.await_apply = true
is_await_apply _ = false

abbrev pub is_await_disconnect : Effect → Bool
is_await_disconnect Effect.await_disconnect = true
is_await_disconnect _ = false

-- The effects that ask for the confirm, or send it.
abbrev pub opens_window : Effect → Bool
opens_window Effect.request_confirmation = true
opens_window Effect.confirm = true
opens_window _ = false
