-- ===== src/Dfu/Machine/Protocol/Entries.antt =====
-- src/dfu/update_state_machine.cpp: the states that each decision leads to.
use smply.Prelude.{
  ℕ, zero, suc, ◌+◌, ◌-◌, ◌≡◌, refl, Bool, true, false, ◌||◌, none, some, ltb, length, arith, inl,
  inr, Option-cases, map,
}
use smply.Dfu.SlotTable.{SlotPointer}
use smply.Dfu.Plan.{UpdateState, UpdatePlan}
use smply.Dfu.Machine.State.{Context, Decision}
use smply.Dfu.Machine.Preconditions.{fail_with, check_preconditions, slot_holding}
use smply.Dfu.Machine.Waiting.{
  await_commit, confirmation_fork, await_device, boot_verdict, inspect_boot, with_images,
  judge_images, next_in_trial,
}
use smply.Dfu.Machine.Planning.{
  unless_refused, start_upload, mark_held, staged, next_target, mark_or_skip, choose_build, Round,
  next_round, returns, plan_held, plan_built, plan_one, plan_targets, plan_from_state, as_skipped,
  skipped, current_image, found_in, verify_upload,
}
use smply.Dfu.Machine.Deciding.{verify_confirmed}

-- The states of a judged boot.
abbrev pub booted : UpdateState → Bool
booted UpdateState.awaiting_device_apply = true
booted UpdateState.awaiting_confirmation = true
booted UpdateState.confirming = true
booted UpdateState.awaiting_device_commit = true
booted UpdateState.completed = true
booted UpdateState.failed = true
booted _ = false

-- The states that come after a round of planning.
abbrev pub planned : UpdateState → Bool
planned UpdateState.planning = true
planned UpdateState.uploading = true
planned UpdateState.marking_for_test = true
planned UpdateState.resetting = true
planned state = booted state

abbrev pub settled : UpdateState → Bool
settled UpdateState.awaiting_device_commit = true
settled UpdateState.completed = true
settled UpdateState.failed = true
settled _ = false

pub await_commit-settled : (c : Context) → settled (await_commit c).0.next ≡ true
unfolding await_commit fail_with
await_commit-settled c = ground arith

pub verify_confirmed-settled : (c : Context) → settled (verify_confirmed c).0.next ≡ true
unfolding verify_confirmed fail_with
verify_confirmed-settled c = ground (arith, await_commit-settled c)

pub await_device-booted :
    (plan : UpdatePlan) (c : Context) → booted (await_device plan c).0.next ≡ true
unfolding await_device await_commit confirmation_fork fail_with
await_device-booted plan c = ground arith

boot_verdict-booted :
    (reverted not_booted : Bool) (plan : UpdatePlan) (c : Context)
    → booted (boot_verdict reverted not_booted plan c).0.next ≡ true
unfolding boot_verdict fail_with
boot_verdict-booted true not_booted plan c = refl
boot_verdict-booted false true plan c = refl
boot_verdict-booted false false plan c = await_device-booted plan c

pub inspect_boot-booted :
    (plan : UpdatePlan) (c : Context) → booted (inspect_boot plan c).0.next ≡ true
unfolding inspect_boot fail_with
inspect_boot-booted plan c =
    let boot = judge_images c c.targets c.report.images in
    let judged : Context = record (with_images boot.images c) { targets = boot.targets } in
    let after : Context = record judged {
      swap_scheduled = boot.not_booted || ltb (next_in_trial judged 0) (length judged.targets);
    } in
    ground (arith, boot_verdict-booted boot.reverted boot.not_booted plan after)

staged-planned : (plan : UpdatePlan) (c : Context) → planned (staged plan c).0.next ≡ true
unfolding staged check_preconditions fail_with
staged-planned plan c = ground (arith, inspect_boot-booted plan c)

pub next_target-planned :
    (plan : UpdatePlan) (c : Context) → planned (next_target plan c).0.next ≡ true
unfolding next_target
next_target-planned plan c =
    let moved : Context = record c { current = c.current + 1; mark_retried = false } in
    ground (arith, staged-planned plan moved)

mark_or_skip-planned :
    (plan : UpdatePlan) (c : Context) → planned (mark_or_skip plan c).0.next ≡ true
unfolding mark_or_skip
mark_or_skip-planned plan c =
    ground (arith, next_target-planned plan (record c { swap_scheduled = true }))

unless_refused-planned :
    (plan : UpdatePlan) (c : Context) (continues : Context → Decision)
    → ((after : Context) → planned (continues after).0.next ≡ true)
    → planned (unless_refused plan c continues).0.next ≡ true
unfolding check_preconditions fail_with
unless_refused-planned plan c continues h =
    ground (arith, h c, h (record c { preconditions_checked = true }))

-- A round of the loop ends in one of the states, or goes on.
abbrev Ends : Round → Type 0
Ends (next_round c) = Unit {0}
Ends (returns d) = planned d.0.next ≡ true

plan_held-Ends :
    (plan : UpdatePlan) (c : Context) (holder : SlotPointer) → Ends (plan_held plan c holder)
unfolding plan_held
plan_held-Ends plan c holder =
    let uploads = unless_refused-planned plan c start_upload (λ after. refl) in
    let marks =
      unless_refused-planned plan (skipped c) (mark_held plan holder)
        (λ after. mark_or_skip-planned plan (found_in holder.slot.slot after)) in
    ground (arith, uploads, marks)

plan_built-Ends : (plan : UpdatePlan) (c : Context) → Ends (plan_built plan c)
unfolding plan_built
plan_built-Ends plan c = elim (Option-cases (slot_holding c (current_image c).target)) [
  | inl absent ↦
      rw (absent, plan_built) (unless_refused-planned plan c start_upload (λ after. refl))
  | inr (holder, found) ↦ rw (found, plan_built) (plan_held-Ends plan c holder)
]

choose_build-failed :
    (c : Context)
    → (elim (choose_build c).0 as (λ x. Bool) [ none ↦ true | some s ↦ planned s.next ]) ≡ true
unfolding choose_build fail_with
choose_build-failed c = ground arith

plan_one-Ends : (plan : UpdatePlan) (c : Context) → Ends (plan_one plan c)
unfolding plan_one
plan_one-Ends plan c =
    ground (arith, choose_build-failed c, plan_built-Ends plan (choose_build c).1)

Ends-cases :
    (round : Round) (P : Round → Type 0)
    → Ends round
    → ((d : Decision) → planned d.0.next ≡ true → P (returns d))
    → ((c : Context) → P (next_round c))
    → P round
Ends-cases (next_round c) P h ends goes = goes c
Ends-cases (returns d) P h ends goes = ends d h

plan_targets-planned :
    (count : ℕ) (plan : UpdatePlan) (c : Context)
    → planned (plan_targets count plan c).0.next ≡ true
unfolding plan_targets
plan_targets-planned zero plan c = staged-planned plan c
plan_targets-planned (suc count) plan c =
    Ends-cases (plan_one plan c)
      (λ (r : Round).
        planned
          (elim r as (λ x. Decision) [
            | returns decision ↦ decision
            | next_round after ↦
                plan_targets count plan (record after { current = after.current + 1 })
          ]).0.next
        ≡ true)
      (plan_one-Ends plan c) (λ d e. e)
      (λ after. plan_targets-planned count plan (record after { current = after.current + 1 }))

pub plan_from_state-planned :
    (plan : UpdatePlan) (c : Context) → planned (plan_from_state plan c).0.next ≡ true
unfolding plan_from_state
plan_from_state-planned plan c = ground (
  arith,
  plan_targets-planned (length c.targets - c.current) plan c,
  inspect_boot-booted plan (with_images (map as_skipped c.report.images) c),
)

pub verify_upload-planned :
    (plan : UpdatePlan) (c : Context) → planned (verify_upload plan c).0.next ≡ true
unfolding verify_upload fail_with
verify_upload-planned plan c = elim (Option-cases (slot_holding c (current_image c).target)) [
  | inl absent ↦ rw (absent, verify_upload) refl
  | inr (holder, found) ↦
      rw (found, verify_upload) (mark_or_skip-planned plan (found_in holder.slot.slot c))
]
