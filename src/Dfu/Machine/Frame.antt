-- ===== src/Dfu/Machine/Frame.antt =====
-- src/dfu/update_state_machine.cpp: what the steps after a decision leave as it is.
use smply.Prelude.{ℕ, ◌≡◌, ◌∙◌, refl, Option, arith}
use smply.Dfu.Plan.{UpdateState}
use smply.Dfu.Plan.{UpdatePlan}
use smply.Dfu.Machine.State.{Effect, Step, Context}
use smply.Dfu.Machine.Applying.{
  Machine, parameterise, finish_report, summarise, arm_wait, clear_grace, arm, keep_time,
  complete_step,
}

-- The fields that no step after a decision writes.
pub record SameCore (c d : Context) : Type 0 where
  pub targets : d.targets ≡ c.targets
  pub current : d.current ≡ c.current
  pub device : d.device ≡ c.device
  pub upload_in_progress : d.upload_in_progress ≡ c.upload_in_progress
  pub swap_scheduled : d.swap_scheduled ≡ c.swap_scheduled
  pub mark_retried : d.mark_retried ≡ c.mark_retried
  pub reset_forced : d.reset_forced ≡ c.reset_forced
  pub confirm_reread : d.confirm_reread ≡ c.confirm_reread
  pub confirm_approved : d.confirm_approved ≡ c.confirm_approved
  pub preconditions_checked : d.preconditions_checked ≡ c.preconditions_checked
  pub cause : d.report.cause ≡ c.report.cause
  pub revert_pending : d.report.revert_pending ≡ c.report.revert_pending
  pub bootloader_mode : d.report.bootloader_mode ≡ c.report.bootloader_mode
  pub refusal : d.report.refusal ≡ c.report.refusal
  pub images : d.report.images ≡ c.report.images

trans : {b c d : Context} → SameCore b c → SameCore c d → SameCore b d
trans p q = record {
  targets = q.targets ∙ p.targets;
  current = q.current ∙ p.current;
  device = q.device ∙ p.device;
  upload_in_progress = q.upload_in_progress ∙ p.upload_in_progress;
  swap_scheduled = q.swap_scheduled ∙ p.swap_scheduled;
  mark_retried = q.mark_retried ∙ p.mark_retried;
  reset_forced = q.reset_forced ∙ p.reset_forced;
  confirm_reread = q.confirm_reread ∙ p.confirm_reread;
  confirm_approved = q.confirm_approved ∙ p.confirm_approved;
  preconditions_checked = q.preconditions_checked ∙ p.preconditions_checked;
  cause = q.cause ∙ p.cause;
  revert_pending = q.revert_pending ∙ p.revert_pending;
  bootloader_mode = q.bootloader_mode ∙ p.bootloader_mode;
  refusal = q.refusal ∙ p.refusal;
  images = q.images ∙ p.images;
}

summarise-SameCore : (c : Context) → SameCore c (summarise c)
unfolding summarise
summarise-SameCore c = ground arith

parameterise-SameCore :
    (effect : Effect) (s : Step) (c : Context)
    → s.effect ≡ effect
    → SameCore c (parameterise (s, c)).1
unfolding parameterise finish_report
parameterise-SameCore Effect.no_effect s c e = ground arith
parameterise-SameCore _ s c e = ground arith

pub parameterise_keeps :
    (effect : Effect) (s : Step) (c : Context)
    → s.effect ≡ effect
    → ((parameterise (s, c)).0.next ≡ s.next) × ((parameterise (s, c)).0.effect ≡ s.effect)
unfolding parameterise
parameterise_keeps Effect.no_effect s c e = ground arith
parameterise_keeps _ s c e = ground arith

arm_wait-SameCore :
    (next : UpdateState) (now : ℕ) (plan : UpdatePlan) (c : Context)
    → SameCore c (arm_wait next now plan c)
unfolding arm_wait
arm_wait-SameCore next now plan c = ground arith

clear_grace-SameCore : (next : UpdateState) (c : Context) → SameCore c (clear_grace next c)
unfolding clear_grace
clear_grace-SameCore next c = ground arith

same_poll : (c : Context) (poll : Option ℕ) → SameCore c (record c { apply_poll = poll })
same_poll c poll = ground arith

arm-SameCore :
    (effect : Effect) (next : UpdateState) (now : ℕ) (plan : UpdatePlan) (c : Context)
    → SameCore c (arm effect next now plan c)
unfolding arm
arm-SameCore Effect.await_apply next now plan c =
    let waiting = arm_wait next now plan c in
    trans (arm_wait-SameCore next now plan c) (same_poll waiting _)
arm-SameCore _ next now plan c = ground arith

keep_time-SameCore :
    (s : Step) (now : ℕ) (plan : UpdatePlan) (c : Context) → SameCore c (keep_time s now plan c)
unfolding keep_time
keep_time-SameCore s now plan c =
    trans (clear_grace-SameCore s.next c)
      (arm-SameCore s.effect s.next now plan (clear_grace s.next c))

pub complete_step-SameCore :
    (m : Machine) (now : ℕ) (s : Step) (c : Context)
    → SameCore c (complete_step m now (s, c)).1.context
unfolding complete_step
complete_step-SameCore m now s c =
    let p = parameterise (s, summarise c) in
    trans (summarise-SameCore c) (
      trans (parameterise-SameCore s.effect s (summarise c) refl)
        (keep_time-SameCore p.0 now m.plan p.1))

pub complete_step_state :
    (m : Machine) (now : ℕ) (s : Step) (c : Context)
    → ((complete_step m now (s, c)).1.state ≡ s.next)
      × ((complete_step m now (s, c)).1.plan ≡ m.plan)
      × ((complete_step m now (s, c)).0.effect ≡ s.effect)
unfolding complete_step
complete_step_state m now s c = ground (arith, parameterise_keeps s.effect s (summarise c))
