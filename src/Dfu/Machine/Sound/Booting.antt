-- ===== src/Dfu/Machine/Sound/Booting.antt =====
-- src/dfu/update_state_machine.cpp: the boot and the waits keep the context sound.
use smply.Prelude.{
  ℕ, ◌+◌, ◌≡◌, ◌≤◌, ◌<◌, refl, Bool, true, false, ◌||◌, List, [], ◌∷◌, ltb, length, arith,
}
use smply.Error.{Error, error, update_failed}
use smply.Dfu.Plan.{UpdatePlan, ImageReport}
use smply.Dfu.Machine.State.{Image, Context}
use smply.Dfu.Machine.Preconditions.{fail_with, mode_refusal}
use smply.Dfu.Machine.Waiting.{
  Progress, commit_images, await_commit, apply_images, await_device, confirmation_fork,
  judge_images, boot_verdict, inspect_boot, trial_from, next_in_trial, with_images,
}
use smply.Dfu.Machine.Sound.{device_applied, Working, After}

length-commit_images :
    (c : Context) (images : List Image) (reports : List ImageReport)
    → length reports ≡ length images
    → length (commit_images c images reports).1 ≡ length images
unfolding commit_images
length-commit_images c [] reports e = e
length-commit_images c (image ∷ images) [] e = e
length-commit_images c (image ∷ images) (report ∷ reports) e =
    ground (arith, length-commit_images c images reports)

length-apply_images :
    (c : Context) (images : List Image) (reports : List ImageReport)
    → length reports ≡ length images
    → length (apply_images c images reports).1 ≡ length images
unfolding apply_images
length-apply_images c [] reports e = e
length-apply_images c (image ∷ images) [] e = e
length-apply_images c (image ∷ images) (report ∷ reports) e =
    ground (arith, length-apply_images c images reports)

-- A loop that ends with the device done has marked every image of the device as applied.
device_applied-apply_images :
    (c : Context) (images : List Image) (reports : List ImageReport)
    → length reports ≡ length images
    → (apply_images c images reports).0 ≡ Progress.done
    → device_applied images (apply_images c images reports).1 ≡ true
unfolding apply_images
device_applied-apply_images c [] reports e d = refl
device_applied-apply_images c (image ∷ images) [] e d = absurd (omega (arith, e))
device_applied-apply_images c (image ∷ images) (report ∷ reports) e d =
    ground (arith, device_applied-apply_images c images reports)

length-judge_images :
    (c : Context) (images : List Image) (reports : List ImageReport)
    → length reports ≡ length images
    → (length (judge_images c images reports).targets ≡ length images)
      × (length (judge_images c images reports).images ≡ length images)
unfolding judge_images
length-judge_images c [] reports e = (refl, e)
length-judge_images c (image ∷ images) [] e = (refl, e)
length-judge_images c (image ∷ images) (report ∷ reports) e =
    ground (arith, length-judge_images c images reports)

trial_from_le :
    (start index : ℕ) (images : List Image) → trial_from start index images ≤ index + length images
unfolding trial_from
trial_from_le start index [] = omega arith
trial_from_le start index (image ∷ images) = ground (arith, trial_from_le start (index + 1) images)

pub next_in_trial_le : (c : Context) (start : ℕ) → next_in_trial c start ≤ length c.targets
unfolding next_in_trial
next_in_trial_le c start = omega (arith, trial_from_le start 0 c.targets)

pub fail_with-After :
    (passed : Bool) (size : ℕ) (plan : UpdatePlan) (e : Error) (c : Context)
    → Working passed size plan c
    → After passed size plan (fail_with e c)
unfolding fail_with mode_refusal
fail_with-After passed size plan e c w = ground arith

pub await_commit-After :
    (passed : Bool) (size : ℕ) (plan : UpdatePlan) (c : Context)
    → Working passed size plan c
    → After passed size plan (await_commit c)
unfolding await_commit fail_with mode_refusal
await_commit-After passed size plan c w =
    ground (arith, length-commit_images c c.targets c.report.images)

confirmation_fork-After :
    (passed : Bool) (size : ℕ) (plan : UpdatePlan) (c : Context)
    → Working passed size plan c
    → next_in_trial c 0 < length c.targets
    → device_applied c.targets c.report.images ≡ true
    → After passed size plan (confirmation_fork plan c)
unfolding confirmation_fork mode_refusal
confirmation_fork-After passed size plan c w owed applied = ground arith

-- A swap that is scheduled has an image on trial.
pub await_device-After :
    (passed : Bool) (size : ℕ) (plan : UpdatePlan) (c : Context)
    → Working passed size plan c
    → (c.swap_scheduled ≡ true → next_in_trial c 0 < length c.targets)
    → After passed size plan (await_device plan c)
unfolding await_device fail_with mode_refusal next_in_trial
await_device-After passed size plan c w owed =
    let after = with_images (apply_images c c.targets c.report.images).1 c in
    ground (
      arith,
      length-apply_images c c.targets c.report.images,
      device_applied-apply_images c c.targets c.report.images,
      await_commit-After passed size plan after,
      confirmation_fork-After passed size plan after,
    )

boot_verdict-After :
    (passed : Bool) (size : ℕ) (reverted not_booted : Bool) (plan : UpdatePlan) (c : Context)
    → Working passed size plan c
    → (not_booted ≡ false → c.swap_scheduled ≡ true → next_in_trial c 0 < length c.targets)
    → After passed size plan (boot_verdict reverted not_booted plan c)
unfolding boot_verdict
boot_verdict-After passed size true not_booted plan c w owed =
    fail_with-After passed size plan _ c w
boot_verdict-After passed size false true plan c w owed = fail_with-After passed size plan _ c w
boot_verdict-After passed size false false plan c w owed =
    await_device-After passed size plan c w (owed refl)

pub inspect_boot-After :
    (passed : Bool) (size : ℕ) (plan : UpdatePlan) (c : Context)
    → Working passed size plan c
    → After passed size plan (inspect_boot plan c)
unfolding inspect_boot fail_with mode_refusal next_in_trial
inspect_boot-After passed size plan c w =
    let boot = judge_images c c.targets c.report.images in
    let judged : Context = record (with_images boot.images c) { targets = boot.targets } in
    let after : Context = record judged {
      swap_scheduled = boot.not_booted || ltb (next_in_trial judged 0) (length judged.targets);
    } in
    let verdict =
      boot_verdict-After passed size boot.reverted boot.not_booted plan after
        (ground (arith, length-judge_images c c.targets c.report.images))
        (λ booted scheduled. ground arith) in
    ground (
      arith,
      verdict,
      fail_with-After passed size plan (error update_failed "dfu: no active slot after reboot") c,
    )
