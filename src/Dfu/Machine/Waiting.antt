-- ===== src/Dfu/Machine/Waiting.antt =====
-- src/dfu/update_state_machine.cpp: what booted, what the device applies and commits itself, and
-- the confirm. A loop over `targets` and `report.images` walks the two lists, which match entry
-- for entry.
use smply.Prelude.{
  ℕ, ◌+◌, Bool, true, false, ◌&&◌, ◌||◌, not, Option, none, some, List, [], ◌∷◌, ltb, if◌then◌else◌,
  length, any,
}
use smply.Error.{ErrorCode, Error, disconnected, timeout, update_failed}
use smply.Dfu.SlotTable.{SlotPointer}
use smply.Dfu.Plan.{UpdateMode, UpdateState, CommitBy, UpdatePlan, ImageReport}
use smply.Dfu.Machine.State.{Effect, Target, Image, Context, step, Decision}
use smply.Dfu.Machine.Preconditions.{
  fail_with, fail_as, without_set_state, active_of, anything_pending, holds, slot_holding,
}

abbrev pub is_client : CommitBy → Bool
is_client CommitBy.client = true
is_client CommitBy.device = false

-- Whether the slot that runs is one that holds the target and is not confirmed.
unfoldable pub unconfirmed : Option SlotPointer → Bool
unconfirmed pointer = elim pointer [ none ↦ false | some p ↦ not p.slot.confirmed ]

unfoldable pub running_on_trial : Context → Target → Bool
running_on_trial c target =
    let running = active_of c target.image in
    is_client target.commit && holds running target && unconfirmed running

-- The loop of `next_in_trial` over the targets from the index on.
unfoldable pub trial_from : ℕ → ℕ → List Image → ℕ
trial_from start index [] = index
trial_from start index (image ∷ images) =
    let rest = trial_from start (index + 1) images in
    if not (ltb index start) && image.in_trial then index else rest

unfoldable pub next_in_trial : Context → ℕ → ℕ
next_in_trial c start = trial_from start 0 c.targets

abbrev pub confirms_immediately : UpdateMode → Bool
confirms_immediately UpdateMode.confirm_immediately = true
confirms_immediately _ = false

unfoldable pub confirmation_fork : UpdatePlan → Context → Decision
confirmation_fork plan c =
    let chosen : Context = record c { current = next_in_trial c 0 } in
    if confirms_immediately plan.mode || c.confirm_approved
    then (step UpdateState.confirming Effect.confirm, chosen)
    else (step UpdateState.awaiting_confirmation Effect.request_confirmation, chosen)

pub data Apply : Type 0 where
  applying on_trial committed failed : Apply

unfoldable pub apply_of : Context → Target → Apply
apply_of c target =
    let running = active_of c target.image in
    if holds running target
    then if unconfirmed running then Apply.on_trial else Apply.committed
    else elim (slot_holding c target) [
      | none ↦ Apply.failed
      | some holder ↦ if holder.slot.pending then Apply.applying else Apply.failed
    ]

-- How a loop over the images ends: the device is done, still at it, or has failed.
pub data Progress : Type 0 where
  done still broken : Progress

abbrev pub still_at_it : Progress → Progress
still_at_it Progress.broken = Progress.broken
still_at_it _ = Progress.still

abbrev pub as_applied : ImageReport → ImageReport
as_applied report = record report { applied = true }

abbrev pub as_committed : ImageReport → ImageReport
as_committed report = record report { applied = true; committed = true }

abbrev pub as_lost : ImageReport → ImageReport
as_lost report = record report { applied = false }

-- One more image in front of those after it.
abbrev pub onto : ImageReport → Progress × List ImageReport → Progress × List ImageReport
onto report (progress, reports) = (progress, report ∷ reports)

-- The loop of `await_commit`: a failure leaves the images after it as they are.
unfoldable pub commit_images : Context → List Image → List ImageReport → Progress × List ImageReport
commit_images c [] reports = (Progress.done, reports)
commit_images c (image ∷ images) [] = (Progress.done, [])
commit_images c (image ∷ images) (report ∷ reports) =
    let (progress, after) = commit_images c images reports in
    if is_client image.target.commit
    then (progress, report ∷ after)
    else elim (apply_of c image.target) [
      | Apply.committed ↦ (progress, as_committed report ∷ after)
      | Apply.on_trial ↦ (still_at_it progress, as_applied report ∷ after)
      | Apply.applying ↦ (Progress.broken, as_lost report ∷ reports)
      | Apply.failed ↦ (Progress.broken, as_lost report ∷ reports)
    ]

abbrev pub with_images : List ImageReport → Context → Context
with_images images c = record c { report = record c.report { images = images } }

unfoldable pub await_commit : Context → Decision
await_commit c =
    let (progress, images) = commit_images c c.targets c.report.images in
    let after = with_images images c in
    elim progress [
      | Progress.done ↦ (step UpdateState.completed Effect.finish, after)
      | Progress.still ↦ (step UpdateState.awaiting_device_commit Effect.await_apply, after)
      | Progress.broken ↦ fail_as update_failed "dfu: device did not commit an image" after
    ]

-- The loop of `await_device`.
unfoldable pub apply_images : Context → List Image → List ImageReport → Progress × List ImageReport
apply_images c [] reports = (Progress.done, reports)
apply_images c (image ∷ images) [] = (Progress.done, [])
apply_images c (image ∷ images) (report ∷ reports) =
    let (progress, after) = apply_images c images reports in
    if is_client image.target.commit
    then (progress, report ∷ after)
    else elim (apply_of c image.target) [
      | Apply.committed ↦ (progress, as_committed report ∷ after)
      | Apply.on_trial ↦ (progress, as_applied report ∷ after)
      | Apply.applying ↦ (still_at_it progress, report ∷ after)
      | Apply.failed ↦ (Progress.broken, report ∷ reports)
    ]

unfoldable pub await_device : UpdatePlan → Context → Decision
await_device plan c =
    let (progress, images) = apply_images c c.targets c.report.images in
    let after = with_images images c in
    elim progress [
      | Progress.done ↦
          if not c.swap_scheduled then await_commit after else confirmation_fork plan after
      | Progress.still ↦ (step UpdateState.awaiting_device_apply Effect.await_apply, after)
      | Progress.broken ↦ fail_as update_failed "dfu: device did not apply an image" after
    ]

abbrev pub is_disconnected : ErrorCode → Bool
is_disconnected disconnected = true
is_disconnected _ = false

abbrev pub is_timeout : ErrorCode → Bool
is_timeout timeout = true
is_timeout _ = false

unfoldable pub wait_read_failed : UpdateState → Error → Context → Decision
wait_read_failed state e c =
    if is_disconnected e.code
    then (step UpdateState.awaiting_reconnect Effect.request_reconnect, c)
    else if is_timeout e.code
    then (step state Effect.await_apply, c)
    else fail_with e c

unfoldable pub confirm_failed : Error → Context → Decision
confirm_failed e c =
    let owed : Context = record c { swap_scheduled = true } in
    if is_disconnected e.code
    then (step UpdateState.awaiting_reconnect Effect.request_reconnect, owed)
    else if is_timeout e.code && not c.confirm_reread
    then (
      step UpdateState.verifying_booted Effect.read_state,
      record owed { confirm_reread = true },
    )
    else fail_with e owed

abbrev pub is_null : Option SlotPointer → Bool
is_null none = true
is_null (some pointer) = false

-- The test of the first loop of `inspect_boot`.
unfoldable pub no_active_slot : Context → Image → Bool
no_active_slot c image = is_client image.target.commit && is_null (active_of c image.target.image)

-- What the second loop of `inspect_boot` finds and writes.
pub record Boot : Type 0 where
  pub reverted : Bool
  pub not_booted : Bool
  pub targets : List Image
  pub images : List ImageReport

abbrev pub in_trial_as : Bool → Image → Image
in_trial_as flag image = record image { in_trial = flag }

unfoldable pub judge_images : Context → List Image → List ImageReport → Boot
judge_images c [] reports = record {
  reverted = false;
  not_booted = false;
  targets = [];
  images = reports;
}
judge_images c (image ∷ images) [] = record {
  reverted = false;
  not_booted = false;
  targets = image ∷ images;
  images = [];
}
judge_images c (image ∷ images) (report ∷ reports) =
    let rest = judge_images c images reports in
    let running = active_of c image.target.image in
    let judged : Boot = record rest {
      targets = in_trial_as false image ∷ rest.targets;
      images = report ∷ rest.images;
    } in
    if not (is_client image.target.commit)
    then judged
    else if not (holds running image.target)
    then if anything_pending c image.target.image
      then record judged { not_booted = true }
      else record judged {
        reverted = true;
        images = record report { rolled_back = true } ∷ rest.images;
      }
    else record judged {
      targets = in_trial_as (not (without_set_state c) && unconfirmed running) image ∷ rest.targets;
    }

-- The tests on what the loop found, a revert first.
unfoldable pub boot_verdict : Bool → Bool → UpdatePlan → Context → Decision
boot_verdict true not_booted plan c =
    fail_as update_failed "dfu: device reverted to the old image" c
boot_verdict false true plan c = fail_as update_failed "dfu: device did not boot the new image" c
boot_verdict false false plan c = await_device plan c

unfoldable pub inspect_boot : UpdatePlan → Context → Decision
inspect_boot plan c =
    let boot = judge_images c c.targets c.report.images in
    let judged : Context = record (with_images boot.images c) { targets = boot.targets } in
    let after : Context = record judged {
      swap_scheduled = boot.not_booted || ltb (next_in_trial judged 0) (length judged.targets);
    } in
    if any (no_active_slot c) c.targets
    then fail_as update_failed "dfu: no active slot after reboot" c
    else boot_verdict boot.reverted boot.not_booted plan after
