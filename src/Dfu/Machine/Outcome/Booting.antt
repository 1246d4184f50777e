-- ===== src/Dfu/Machine/Outcome/Booting.antt =====
-- src/dfu/update_state_machine.cpp: the boot and the waits keep what the report says.
use smply.Prelude.{◌≡◌, Bool, true, false, ◌||◌, ltb, length, arith}
use smply.Error.{Error, error, update_failed}
use smply.Dfu.Plan.{UpdatePlan}
use smply.Dfu.Machine.State.{Context}
use smply.Dfu.Machine.Preconditions.{fail_with, is_upload_only}
use smply.Dfu.Machine.Waiting.{
  await_commit, await_device, confirmation_fork, judge_images, with_images, inspect_boot,
  boot_verdict, next_in_trial,
}
use smply.Dfu.Machine.Outcome.{Working, After}

pub fail_with-Outcome :
    (plan : UpdatePlan) (e : Error) (c : Context)
    → (is_upload_only plan.mode ≡ true → c.swap_scheduled ≡ false)
    → After plan (fail_with e c)
unfolding fail_with
fail_with-Outcome plan e c h = ground arith

pub await_commit-Outcome :
    (plan : UpdatePlan) (c : Context)
    → Working plan c
    → is_upload_only plan.mode ≡ false
    → c.swap_scheduled ≡ false
    → After plan (await_commit c)
unfolding await_commit fail_with
await_commit-Outcome plan c w late settled = ground arith

module _ (plan : UpdatePlan) (c : Context) (w : Working plan c) where
  pub await_device-Outcome : is_upload_only plan.mode ≡ false → After plan (await_device plan c)
  unfolding await_device await_commit confirmation_fork fail_with
  await_device-Outcome late = ground arith

pub boot_verdict-Outcome :
    (reverted not_booted : Bool) (plan : UpdatePlan) (c : Context)
    → Working plan c
    → is_upload_only plan.mode ≡ false
    → After plan (boot_verdict reverted not_booted plan c)
unfolding boot_verdict
boot_verdict-Outcome true not_booted plan c w late = fail_with-Outcome plan _ c w.only
boot_verdict-Outcome false true plan c w late = fail_with-Outcome plan _ c w.only
boot_verdict-Outcome false false plan c w late = await_device-Outcome plan c w late

module _ (plan : UpdatePlan) (c : Context) (w : Working plan c) where
  pub inspect_boot-Outcome : is_upload_only plan.mode ≡ false → After plan (inspect_boot plan c)
  unfolding inspect_boot
  inspect_boot-Outcome late =
      let boot = judge_images c c.targets c.report.images in
      let judged : Context = record (with_images boot.images c) { targets = boot.targets } in
      let after : Context = record judged {
        swap_scheduled = boot.not_booted || ltb (next_in_trial judged 0) (length judged.targets);
      } in
      let verdict =
        boot_verdict-Outcome boot.reverted boot.not_booted plan after (ground arith) late in
      ground (
        arith,
        verdict,
        fail_with-Outcome plan (error update_failed "dfu: no active slot after reboot") c,
      )
