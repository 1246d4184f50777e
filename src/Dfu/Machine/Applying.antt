-- ===== src/Dfu/Machine/Applying.antt =====
-- src/dfu/update_state_machine.cpp: `Machine`, which applies one event at a time.
use smply.Prelude.{
  ℕ, ◌+◌, ◌%◌, ◌^◌, Bool, true, false, ◌&&◌, ◌||◌, not, Option, none, some, List, [], ◌∷◌, ltb,
  if◌then◌else◌, length, all, any, map,
}
use smply.Error.{internal}
use smply.Dfu.Plan.{
  UpdateState, McubootMode, ModeSource, UpdatePlan, ImageReport, UpdateReport, is_terminal,
}
use smply.Dfu.Machine.State.{Effect, Kind, Event, Target, Image, Step, Context, no_hash, Decision}
use smply.Dfu.Machine.Preconditions.{fail_as}
use smply.Dfu.Machine.Planning.{current_image, blank_report}
use smply.Dfu.Machine.Deciding.{decide}

pub record Machine : Type 0 where
  pub plan : UpdatePlan
  pub state : UpdateState
  pub context : Context

abbrev pub sum_transferred : List ImageReport → ℕ
sum_transferred [] = 0
sum_transferred (image ∷ images) = (image.bytes_transferred + sum_transferred images) % 2 ^ 64

-- The summary fields over at least one image, the first of which is given.
abbrev pub summary : ImageReport → UpdateReport → UpdateReport
summary first report = record report {
  bytes_transferred = sum_transferred report.images;
  upload_skipped = all (λ image. image.upload_skipped) report.images;
  rolled_back = any (λ image. image.rolled_back) report.images;
  upload_slot = first.upload_slot;
}

unfoldable pub summarise : Context → Context
summarise c = elim c.report.images [
  | [] ↦ c
  | first ∷ others ↦ record c { report = summary first c.report }
]

abbrev pub needs_current : UpdateState → Bool
needs_current UpdateState.uploading = true
needs_current UpdateState.verifying_upload = true
needs_current UpdateState.marking_for_test = true
needs_current UpdateState.confirming = true
needs_current _ = false

abbrev pub names_current : Effect → Bool
names_current Effect.start_upload = true
names_current Effect.mark_for_test = true
names_current Effect.confirm = true
names_current _ = false

abbrev pub carries_table : Kind → Bool
carries_table Kind.state_read = true
carries_table Kind.marked_for_test = true
carries_table Kind.confirmed = true
carries_table _ = false

-- The last step: the final state, the hash of the first image and the last slot table.
unfoldable pub finish_report : Step → Context → Context
finish_report s c = record c {
  report = record c.report {
    final_state = s.next;
    target_hash = elim c.targets [ [] ↦ some no_hash | first ∷ others ↦ some first.target.hash ];
    final_device_state = c.device;
  };
}

-- The parameters of `MarkForTest` and `Confirm`.
abbrev pub named_step : Step → Context → Step
named_step s c = record s {
  image = (current_image c).target.image;
  hash = (current_image c).target.hash;
}

unfoldable pub parameterise : Decision → Decision
parameterise (s, c) = elim s.effect [
  | Effect.start_upload ↦ (
    record s {
      target = c.current;
      build = (current_image c).chosen;
      image = (current_image c).target.image;
      buf_size = c.buf_size;
    },
    c,
  )
  | Effect.mark_for_test ↦ (named_step s c, c)
  | Effect.confirm ↦ (named_step s c, c)
  | Effect.finish ↦ (s, finish_report s c)
  | other ↦ (s, c)
]

abbrev pub same_wait : Option UpdateState → UpdateState → Bool
same_wait (some UpdateState.awaiting_device_apply) UpdateState.awaiting_device_apply = true
same_wait (some UpdateState.awaiting_device_commit) UpdateState.awaiting_device_commit = true
same_wait _ _ = false

abbrev pub keeps_grace : UpdateState → Bool
keeps_grace UpdateState.awaiting_disconnect = true
keeps_grace _ = false

-- The deadline of the wait, armed once for each wait.
unfoldable pub arm_wait : UpdateState → ℕ → UpdatePlan → Context → Context
arm_wait next now plan c =
    if same_wait c.apply_phase next
    then c
    else record c { apply_phase = some next; apply_deadline = some (now + plan.apply_timeout) }

unfoldable pub clear_grace : UpdateState → Context → Context
clear_grace next c = if keeps_grace next then c else record c { grace_deadline = none }

-- The `switch` of `keep_time`.
unfoldable pub arm : Effect → UpdateState → ℕ → UpdatePlan → Context → Context
arm Effect.await_disconnect next now plan c = record c {
  grace_deadline = some (now + plan.disconnect_grace);
}
arm Effect.await_apply next now plan c = record (arm_wait next now plan c) {
  apply_poll = some (now + plan.apply_poll_interval);
}
arm Effect.finish next now plan c = record c {
  apply_poll = none;
  apply_deadline = none;
  apply_phase = none;
}
arm other next now plan c = c

unfoldable pub keep_time : Step → ℕ → UpdatePlan → Context → Context
keep_time s now plan c = arm s.effect s.next now plan (clear_grace s.next c)

-- The checks on the machine's own state, and on the event.
unfoldable pub is_consistent : UpdateState → Context → Bool
is_consistent state c =
    ltb 0 (length c.targets) && (not (needs_current state) || ltb c.current (length c.targets))

abbrev pub has_table : Event → Bool
has_table event = elim event.state [ none ↦ false | some state ↦ true ]

abbrev pub is_complete : Event → Bool
is_complete event = not (carries_table event.kind) || has_table event

unfoldable pub checked_decide : Machine → Event → Decision
checked_decide m event =
    if is_terminal m.state || is_consistent m.state m.context && is_complete event
    then decide m.state event m.plan m.context
    else if is_consistent m.state m.context
    then fail_as internal "dfu: answer without a slot table" m.context
    else fail_as internal "dfu: no image to work on" m.context

-- An effect on the current image is only for one that there is.
unfoldable pub guarded : Decision → Decision
guarded (s, c) =
    if names_current s.effect && not (ltb c.current (length c.targets))
    then fail_as internal "dfu: no image to work on" c
    else (s, c)

-- What follows every decision: the summary, the parameters and the deadlines.
unfoldable pub complete_step : Machine → ℕ → Decision → Step × Machine
complete_step m now (s, c) =
    let (done, after) = parameterise (s, summarise c) in
    (done, record m { state = done.next; context = keep_time done now m.plan after })

unfoldable pub apply : Machine → Event → Step × Machine
apply m event = complete_step m event.now (guarded (checked_decide m event))

unfoldable pub next_deadline : Machine → Option ℕ
next_deadline m = elim m.context.grace_deadline [
  | none ↦ m.context.apply_poll
  | some grace ↦ some grace
]

unfoldable pub empty_report : UpdateReport
empty_report = record {
  final_state = UpdateState.idle;
  bytes_transferred = 0;
  upload_skipped = false;
  target_hash = none;
  final_device_state = none;
  cause = none;
  rolled_back = false;
  upload_slot = none;
  revert_pending = false;
  bootloader_mode = McubootMode.unknown;
  mode_source = ModeSource.assumed;
  refusal = none;
  images = [];
}

-- `Image{target}`.
abbrev pub as_image : Target → Image
as_image target = record { target = target; chosen = 0; chosen_known = false; in_trial = false }

unfoldable pub new_context : List Target → Context
new_context targets = record {
  targets = map as_image targets;
  current = 0;
  device = none;
  buf_size = 0;
  no_downgrade = false;
  report = record empty_report { images = map blank_report targets };
  upload_in_progress = false;
  swap_scheduled = false;
  mark_retried = false;
  reset_forced = false;
  confirm_approved = false;
  confirm_reread = false;
  preconditions_checked = false;
  grace_deadline = none;
  apply_poll = none;
  apply_deadline = none;
  apply_phase = none;
}

unfoldable pub new_machine : List Target → UpdatePlan → Machine
new_machine targets plan = record {
  plan = plan;
  state = UpdateState.idle;
  context = new_context targets;
}

-- A run: the machine after the events, and the steps it gave, in their order.
unfoldable pub run : Machine → List Event → List Step × Machine
run m [] = ([], m)
run m (event ∷ events) =
    let (s, after) = apply m event in let (steps, last) = run after events in (s ∷ steps, last)
