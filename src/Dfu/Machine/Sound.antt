-- ===== src/Dfu/Machine/Sound.antt =====
-- src/dfu/update_state_machine.cpp: what holds of the machine between two events.
use smply.Prelude.{
  ℕ, suc, ◌≤◌, ◌<◌, ◌≡◌, Bool, true, false, ◌&&◌, ◌||◌, none, List, [], ◌∷◌, length,
}
use smply.Dfu.Plan.{UpdateState, UpdatePlan, ImageReport}
use smply.Dfu.Machine.Phases.{
  is_failed, is_stopped, in_window, is_applying, needs_image, is_acting, is_querying, before_boot,
  acts, opens_window, is_await_apply, is_await_disconnect,
}
use smply.Dfu.Machine.State.{Effect, Step, Image, Context, Decision}
use smply.Dfu.Machine.Preconditions.{mode_refusal}
use smply.Dfu.Machine.Applying.{names_current, keeps_grace}
use smply.Dfu.Machine.Waiting.{is_client, next_in_trial}
pub mod Booting
pub mod Planned
pub mod Rules
pub mod Runs

-- Whether the report says of every image that the device commits that it is applied.
abbrev pub device_applied : List Image → List ImageReport → Bool
device_applied [] reports = true
device_applied (image ∷ images) [] = false
device_applied (image ∷ images) (report ∷ reports) =
    (is_client image.target.commit || report.applied) && device_applied images reports

-- `size` is the number of images, and `passed` stands for a fact that an event keeps: that the
-- checks have run and found nothing.
pub record Sound (passed : Bool) (size : ℕ) (plan : UpdatePlan) (state : UpdateState) (c : Context)
    : Type 0 where
  pub sizes : length c.report.images ≡ length c.targets
  pub counted : length c.targets ≡ size
  pub bounded : c.current ≤ length c.targets
  pub range : needs_image state ≡ true → c.current < length c.targets
  pub resumable : c.upload_in_progress ≡ true → c.current < length c.targets
  pub trial :
      is_applying state ≡ true → c.swap_scheduled ≡ true → next_in_trial c 0 < length c.targets
  pub applied : in_window state ≡ true → device_applied c.targets c.report.images ≡ true
  pub checked : is_acting state ≡ true → c.preconditions_checked ≡ true
  pub upload_checked : c.upload_in_progress ≡ true → c.preconditions_checked ≡ true
  pub accepted :
      is_stopped state ≡ false → c.preconditions_checked ≡ true → mode_refusal plan c ≡ none
  pub fresh : is_querying state ≡ true → c.preconditions_checked ≡ false
  pub unrefused : is_failed state ≡ false → c.report.refusal ≡ none
  pub kept : passed ≡ true → c.preconditions_checked ≡ true
  pub kept_unrefused : passed ≡ true → c.report.refusal ≡ none
  pub unarmed : before_boot state ≡ true → c.apply_poll ≡ none
  pub upload_unarmed : c.upload_in_progress ≡ true → c.apply_poll ≡ none

-- What the functions that run after the boot need of the context.
pub record Working (passed : Bool) (size : ℕ) (plan : UpdatePlan) (c : Context) : Type 0 where
  pub sizes : length c.report.images ≡ length c.targets
  pub counted : length c.targets ≡ size
  pub bounded : c.current ≤ length c.targets
  pub no_upload : c.upload_in_progress ≡ false
  pub accepted : c.preconditions_checked ≡ true → mode_refusal plan c ≡ none
  pub unrefused : c.report.refusal ≡ none
  pub kept : passed ≡ true → c.preconditions_checked ≡ true

-- What the functions that run before the boot need besides.
pub record Staging (passed : Bool) (size : ℕ) (plan : UpdatePlan) (c : Context) : Type 0 where
  pub working : Working passed size plan c
  pub unarmed : c.apply_poll ≡ none

-- The step goes to a state that the context is sound in, and arms only what belongs there.
pub record After (passed : Bool) (size : ℕ) (plan : UpdatePlan) (d : Decision) : Type 0 where
  pub sound : Sound passed size plan d.0.next d.1
  pub waits : is_await_apply d.0.effect ≡ true → before_boot d.0.next ≡ false
  pub waits_idle : is_await_apply d.0.effect ≡ true → d.1.upload_in_progress ≡ false
  pub names : names_current d.0.effect ≡ true → needs_image d.0.next ≡ true
  pub parts : is_await_disconnect d.0.effect ≡ true → keeps_grace d.0.next ≡ true
  pub opens : opens_window d.0.effect ≡ true → in_window d.0.next ≡ true
  pub acting : acts d.0.effect ≡ true → is_acting d.0.next ≡ true
