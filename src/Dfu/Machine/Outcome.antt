-- ===== src/Dfu/Machine/Outcome.antt =====
-- src/dfu/update_state_machine.cpp: what the report says of a swap that is left, in every state.
use smply.Prelude.{
  ℕ, zero, suc, ◌+◌, ◌-◌, ◌≡◌, refl, inl, inr, Bool, true, false, ◌&&◌, ◌||◌, none, some, ltb,
  length, arith, Bool-cases, Option-cases, ◌≢◌, map, List, [], ◌∷◌,
}
use Prim.Native.String.{String}
use smply.Error.{Error, error, internal, update_failed}
use smply.Dfu.Machine.Phases.{
  is_failed, is_stopped, is_restarting, is_settled, in_window, past_upload, is_reconnecting,
  is_sending, may_upload,
}
use smply.Dfu.Plan.{UpdateState, UpdatePlan, is_terminal}
use smply.Dfu.Machine.Frame.{complete_step-SameCore, complete_step_state}
use smply.Dfu.Machine.Applying.{
  Machine, is_consistent, is_complete, checked_decide, guarded, complete_step, apply, new_machine,
  new_context, empty_report, run,
}
use smply.Dfu.Machine.State.{Event, Kind, Target, Context, Decision}
use smply.Dfu.Machine.Preconditions.{
  fail_with, is_upload_only, check_preconditions, slot_holding, record_mode,
}
use smply.Dfu.Machine.Deciding.{
  tick, wait_tick, cancel_update, decide_kind, decide, decide_rule, mark_refused, reset_refused,
  bootloader_failed, confirmed_one, verify_confirmed, reconnected_link, mode_read, with_recorded,
  told,
}
use smply.Dfu.SlotTable.{SlotPointer}
use smply.Dfu.Machine.Planning.{
  unless_refused, start_upload, skipped, mark_held, found_in, Round, next_round, returns, staged,
  next_target, mark_or_skip, choose_build, take_build, plan_held, plan_built, plan_one,
  current_image, as_skipped, plan_targets, plan_from_state, uploaded, upload_finished,
  verify_upload,
}
use smply.Dfu.Machine.Waiting.{
  await_commit, await_device, confirmation_fork, judge_images, wait_read_failed, confirm_failed,
  with_images, inspect_boot, boot_verdict, next_in_trial,
}
pub mod Booting
pub mod Planned
pub mod Rules
pub mod Runs

pub record Outcome (plan : UpdatePlan) (state : UpdateState) (c : Context) : Type 0 where
  pub no_cause : is_failed state ≡ false → c.report.cause ≡ none
  pub cause : is_failed state ≡ true → c.report.cause ≢ none
  pub reported : is_stopped state ≡ true → c.report.revert_pending ≡ c.swap_scheduled
  pub quiet : is_stopped state ≡ false → c.report.revert_pending ≡ false
  pub settled : is_settled state ≡ true → c.swap_scheduled ≡ false
  pub owed : in_window state ≡ true → c.swap_scheduled ≡ true
  pub restarts : is_restarting state ≡ true → c.swap_scheduled ≡ true
  pub late : past_upload state ≡ true → is_upload_only plan.mode ≡ false
  pub resumes :
      is_reconnecting state ≡ true → is_upload_only plan.mode ≡ true → c.upload_in_progress ≡ true
  pub started : is_sending state ≡ true → c.upload_in_progress ≡ true
  pub only : is_upload_only plan.mode ≡ true → c.swap_scheduled ≡ false
  pub no_upload : may_upload state ≡ false → c.upload_in_progress ≡ false

-- What the functions need of a context that is still being worked on.
pub record Working (plan : UpdatePlan) (c : Context) : Type 0 where
  pub no_cause : c.report.cause ≡ none
  pub quiet : c.report.revert_pending ≡ false
  pub only : is_upload_only plan.mode ≡ true → c.swap_scheduled ≡ false
  pub no_upload : c.upload_in_progress ≡ false

abbrev pub After : UpdatePlan → Decision → Type 0
After plan (s, c) = Outcome plan s.next c
