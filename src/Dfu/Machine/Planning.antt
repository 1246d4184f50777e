-- ===== src/Dfu/Machine/Planning.antt =====
-- src/dfu/update_state_machine.cpp: what, if anything, needs doing for each image in turn.
use smply.Prelude.{
  ℕ, zero, suc, ◌+◌, ◌-◌, ◌*◌, ◌%◌, ◌^◌, Bool, true, false, ◌&&◌, ◌||◌, not, Option, none, some,
  ltb, ◌==◌, if◌then◌else◌, length, get_or, set, any, map,
}
use smply.Error.{invalid_argument, image_mismatch}
use smply.Image.Values.{ImageVersion}
use smply.Dfu.SlotTable.{SlotPointer, find_slot, has_hash}
use smply.Dfu.Plan.{UpdateState, CommitBy, McubootMode, UpdatePlan, ImageReport}
use smply.Dfu.Machine.State.{
  Effect, Build, Event, Target, Image, Step, Context, step, no_hash, Decision,
}
use smply.Dfu.Machine.Preconditions.{
  fail_as, is_upload_only, check_preconditions, without_set_state, is_direct_xip, active_of,
  slot_holding,
}
use smply.Dfu.Machine.Waiting.{running_on_trial, inspect_boot, with_images}

abbrev no_version : ImageVersion
no_version = record { major = 0; minor = 0; revision = 0; build = 0 }

-- What an index past the end gives here; the source has no such read.
unfoldable pub no_image : Image
no_image = record {
  target = record {
    image = 0;
    commit = CommitBy.client;
    hash = no_hash;
    version = no_version;
    builds = none;
  };
  chosen = 0;
  chosen_known = false;
  in_trial = false;
}

unfoldable pub blank_report : Target → ImageReport
blank_report target = record {
  image = target.image;
  commit = target.commit;
  target_hash = target.hash;
  bytes_transferred = 0;
  upload_skipped = false;
  upload_slot = none;
  rolled_back = false;
  applied = false;
  committed = false;
}

-- `context.targets[context.current]` and `context.report.images[context.current]`.
unfoldable pub current_image : Context → Image
unfolding no_image
current_image c = get_or c.targets c.current no_image

unfoldable pub current_report : Context → ImageReport
unfolding no_image
current_report c = get_or c.report.images c.current (blank_report no_image.target)

abbrev pub write_image : Image → Context → Context
write_image image c = record c { targets = set c.targets c.current image }

abbrev pub write_report : ImageReport → Context → Context
write_report report c = with_images (set c.report.images c.current report) c

-- The check of the preconditions, with what follows when nothing is refused.
abbrev pub unless_refused : UpdatePlan → Context → (Context → Decision) → Decision
unless_refused plan c continues =
    let (refused, checked) = check_preconditions plan c in
    elim refused [ none ↦ continues checked | some refusal ↦ (refusal, checked) ]

abbrev pub reset_device : Context → Decision
reset_device c = (step UpdateState.resetting Effect.reset, c)

-- Every image is staged, or needed nothing.
unfoldable pub staged : UpdatePlan → Context → Decision
staged plan c =
    if is_upload_only plan.mode
    then (step UpdateState.completed Effect.finish, c)
    else if c.swap_scheduled
    then unless_refused plan c reset_device
    else inspect_boot plan c

unfoldable pub listed_slot : Context → ℕ → ℕ → Option SlotPointer
listed_slot c image global = elim c.device [
  | none ↦ none
  | some state ↦ find_slot (λ slot. slot.image == image && slot.slot == global) state
]

abbrev pub is_with_revert : McubootMode → Bool
is_with_revert McubootMode.direct_xip_with_revert = true
is_with_revert _ = false

-- `slot == running` for a slot that is not null.
abbrev pub same_pointer : SlotPointer → Option SlotPointer → Bool
same_pointer slot running = elim running [ none ↦ false | some r ↦ slot.position == r.position ]

-- One round of the loop of `choose_build`: the choice so far, and whether a build is present.
unfoldable pub consider : Option SlotPointer → Option SlotPointer → Build → ℕ → ℕ × Bool → ℕ × Bool
consider slot running build index (chosen, present) = elim slot [
  | none ↦ (chosen, present)
  | some p ↦
      if not (has_hash build.hash p.slot)
      then (chosen, present)
      else if not present || same_pointer p running
      then (index, true)
      else (chosen, present)
]

-- The build of the slot that is not running, or the secondary's when nothing runs.
abbrev pub free_build : Option SlotPointer → ℕ → ℕ
free_build running base = elim running [
  | none ↦ 1
  | some r ↦ if r.slot.slot == (base + 1) % 2 ^ 32 then 0 else 1
]

unfoldable pub chosen_build : Context → Target → Build → Build → ℕ
chosen_build c target primary backup =
    let base = target.image * 2 % 2 ^ 32 in
    let running = active_of c target.image in
    let first =
      consider (listed_slot c target.image base) running primary 0
        (free_build running base, false) in
    let second =
      consider (listed_slot c target.image ((base + 1) % 2 ^ 32)) running backup 1 first in
    second.0

abbrev pub with_build : Build → ℕ → Image → Image
with_build build chosen image = record image {
  target = record image.target { hash = build.hash; version = build.version };
  chosen = chosen;
  chosen_known = true;
}

-- The choice made: the image takes the build, and its report the hash.
unfoldable pub take_build : Build → ℕ → Context → Context
take_build build chosen c =
    write_report (record (current_report c) { target_hash = build.hash })
      (write_image (with_build build chosen (current_image c)) c)

abbrev pub pick_build : Build → Build → ℕ → Context → Option Step × Context
pick_build primary backup chosen c =
    (none, take_build (if chosen == 0 then primary else backup) chosen c)

abbrev pub needs_direct_xip : Context → Option Step × Context
needs_direct_xip c =
    let (failure, after) =
      fail_as invalid_argument "dfu: one file per slot needs a direct-XIP device" c in
    (some failure, after)

unfoldable pub choose_build : Context → Option Step × Context
choose_build c =
    let image = current_image c in
    elim image.target.builds [
      | none ↦ (none, c)
      | some (primary, backup) ↦
          if image.chosen_known
          then (none, c)
          else if not (is_direct_xip c.report.bootloader_mode)
              && not (is_with_revert c.report.bootloader_mode)
          then needs_direct_xip c
          else pick_build primary backup (chosen_build c image.target primary backup) c
    ]

-- Moves on to the next image once the current one is staged.
unfoldable pub next_target : UpdatePlan → Context → Decision
next_target plan c =
    let moved : Context = record c { current = c.current + 1; mark_retried = false } in
    if ltb moved.current (length moved.targets)
    then (step UpdateState.planning Effect.proceed, moved)
    else staged plan moved

unfoldable pub mark_or_skip : UpdatePlan → Context → Decision
mark_or_skip plan c =
    if without_set_state c
    then next_target plan (record c { swap_scheduled = true })
    else (step UpdateState.marking_for_test Effect.mark_for_test, c)

-- How one round of the loop of `plan_from_state` ends: with `continue`, or with a step.
pub data Round : Type 0 where
  next_round : Context → Round
  returns : Decision → Round

abbrev pub skipped : Context → Context
skipped c = write_report (record (current_report c) { upload_skipped = true }) c

abbrev pub found_in : ℕ → Context → Context
found_in slot c = write_report (record (current_report c) { upload_slot = some slot }) c

abbrev pub start_upload : Context → Decision
start_upload c =
    (step UpdateState.uploading Effect.start_upload, record c { upload_in_progress = true })

-- Case 2, and case 3 once nothing refuses it.
abbrev pub already_marked : UpdatePlan → SlotPointer → Context → Context
already_marked plan holder c = record (found_in holder.slot.slot (skipped c)) {
  swap_scheduled = c.swap_scheduled || not (is_upload_only plan.mode);
}

abbrev pub mark_held : UpdatePlan → SlotPointer → Context → Decision
mark_held plan holder c = mark_or_skip plan (found_in holder.slot.slot c)

-- The cases of the loop, for the slot that holds the file.
unfoldable pub plan_held : UpdatePlan → Context → SlotPointer → Round
plan_held plan c holder =
    let known = skipped c in
    if same_pointer holder (active_of c (current_image c).target.image)
    then next_round known
    else if holder.slot.pending
    then next_round (already_marked plan holder c)
    else if plan.skip_if_already_present
    then if is_upload_only plan.mode
      then next_round known
      else returns (unless_refused plan known (mark_held plan holder))
    else returns (unless_refused plan c start_upload)

-- A round once the build is chosen.
unfoldable pub plan_built : UpdatePlan → Context → Round
plan_built plan c = elim (slot_holding c (current_image c).target) [
  | none ↦ returns (unless_refused plan c start_upload)
  | some holder ↦ plan_held plan c holder
]

unfoldable pub plan_one : UpdatePlan → Context → Round
plan_one plan c =
    let (failed, built) = choose_build c in
    elim failed [ none ↦ plan_built plan built | some failure ↦ returns (failure, built) ]

-- The loop, with the number of targets from the current one on.
unfoldable pub plan_targets : ℕ → UpdatePlan → Context → Decision
plan_targets zero plan c = staged plan c
plan_targets (suc rest) plan c = elim (plan_one plan c) [
  | returns decision ↦ decision
  | next_round after ↦ plan_targets rest plan (record after { current = after.current + 1 })
]

abbrev pub as_skipped : ImageReport → ImageReport
as_skipped report = record report { upload_skipped = true }

unfoldable pub plan_from_state : UpdatePlan → Context → Decision
plan_from_state plan c =
    let after_reset = c.current == 0 && any (λ image. running_on_trial c image.target) c.targets in
    if after_reset && not (is_upload_only plan.mode)
    then inspect_boot plan (with_images (map as_skipped c.report.images) c)
    else plan_targets (length c.targets - c.current) plan c

-- What a finished upload records.
abbrev pub uploaded : Event → Context → Context
uploaded event c =
    let report = current_report c in
    write_report
      (record report {
        bytes_transferred = event.transferred;
        upload_skipped = report.upload_skipped || event.already_present;
      })
      (record c { upload_in_progress = false })

-- `Uploading`, on `UploadFinished`.
unfoldable pub upload_finished : Event → UpdatePlan → Context → Decision
upload_finished event plan c =
    if is_upload_only plan.mode
    then next_target plan (uploaded event c)
    else (step UpdateState.verifying_upload Effect.read_state, uploaded event c)

-- `VerifyingUpload`, on `StateRead`, with the table recorded.
unfoldable pub verify_upload : UpdatePlan → Context → Decision
verify_upload plan c = elim (slot_holding c (current_image c).target) [
  | none ↦ fail_as image_mismatch "dfu: uploaded image not present in any slot" c
  | some holder ↦ mark_or_skip plan (found_in holder.slot.slot c)
]
