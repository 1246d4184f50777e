-- ===== src/Dfu/Machine/Outcome/Planned.antt =====
-- src/dfu/update_state_machine.cpp: planning and staging keep what the report says.
use smply.Prelude.{
  ℕ, zero, suc, ◌+◌, ◌-◌, ◌≡◌, inl, inr, true, false, none, some, length, arith, Bool-cases,
  Option-cases, map,
}
use smply.Dfu.Plan.{UpdatePlan}
use smply.Dfu.Machine.State.{Context, Decision}
use smply.Dfu.Machine.Preconditions.{fail_with, is_upload_only, check_preconditions, slot_holding}
use smply.Dfu.SlotTable.{SlotPointer}
use smply.Dfu.Machine.Planning.{
  unless_refused, start_upload, skipped, mark_held, found_in, Round, next_round, returns, staged,
  next_target, mark_or_skip, choose_build, take_build, plan_held, plan_built, plan_one,
  current_image, as_skipped, plan_targets, plan_from_state,
}
use smply.Dfu.Machine.Waiting.{with_images}
use smply.Dfu.Machine.Outcome.{Working, After}
use smply.Dfu.Machine.Outcome.Booting.{inspect_boot-Outcome}

module _ (plan : UpdatePlan) (c : Context) (w : Working plan c) where
  pub staged-Outcome : After plan (staged plan c)
  unfolding staged check_preconditions fail_with
  staged-Outcome = ground (arith, inspect_boot-Outcome plan c w)

pub next_target-Outcome :
    (plan : UpdatePlan) (c : Context) → Working plan c → After plan (next_target plan c)
unfolding next_target
next_target-Outcome plan c w =
    let moved : Context = record c { current = c.current + 1; mark_retried = false } in
    ground (arith, staged-Outcome plan moved)

pub mark_or_skip-Outcome :
    (plan : UpdatePlan) (c : Context)
    → Working plan c
    → is_upload_only plan.mode ≡ false
    → After plan (mark_or_skip plan c)
unfolding mark_or_skip
mark_or_skip-Outcome plan c w late =
    ground (arith, next_target-Outcome plan (record c { swap_scheduled = true }))

-- A round of the loop leaves a context that is still worked on, or ends the update's step.
abbrev Rounds : UpdatePlan → Round → Type 0
Rounds plan (next_round c) = Working plan c
Rounds plan (returns decision) = After plan decision

-- What holds of a round holds of what the loop does with it.
pub Rounds-cases :
    {plan : UpdatePlan} (round : Round) (P : Round → Type 0)
    → Rounds plan round
    → ((d : Decision) → After plan d → P (returns d))
    → ((c : Context) → Working plan c → P (next_round c))
    → P round
Rounds-cases (next_round c) P h ends goes = goes c h
Rounds-cases (returns d) P h ends goes = ends d h

pub choose_build-Outcome :
    (plan : UpdatePlan) (c : Context)
    → Working plan c
    → Rounds plan (elim (choose_build c).0 [
      | none ↦ next_round (choose_build c).1
      | some s ↦ returns (s, (choose_build c).1)
    ])
unfolding choose_build fail_with take_build
choose_build-Outcome plan c w = ground arith

pub unless_refused-Outcome :
    (plan : UpdatePlan) (c : Context) (continues : Context → Decision)
    → Working plan c
    → ((after : Context) → Working plan after → After plan (continues after))
    → After plan (unless_refused plan c continues)
unfolding check_preconditions fail_with
unless_refused-Outcome plan c continues w h =
    let passed : Context = record c { preconditions_checked = true } in
    ground (arith, h c w, h passed (ground arith))

pub start_upload-Outcome :
    (plan : UpdatePlan) (c : Context)
    → Working plan c
    → After plan (unless_refused plan c start_upload)
start_upload-Outcome plan c w =
    unless_refused-Outcome plan c start_upload w (λ after w'. ground arith)

pub plan_held-Outcome :
    (plan : UpdatePlan) (c : Context) (holder : SlotPointer)
    → Working plan c
    → Rounds plan (plan_held plan c holder)
unfolding plan_held
plan_held-Outcome plan c holder w = elim (Bool-cases (is_upload_only plan.mode)) [
  | inl only ↦ ground (arith, start_upload-Outcome plan c w)
  | inr late ↦ ground (
    arith,
    start_upload-Outcome plan c w,
    unless_refused-Outcome plan (skipped c) (mark_held plan holder) (ground arith)
        (λ (after : Context) (w' : Working plan after).
          mark_or_skip-Outcome plan (found_in holder.slot.slot after) (ground arith) late),
  )
]

module _ (plan : UpdatePlan) (c : Context) (w : Working plan c) where
  pub plan_built-Outcome : Rounds plan (plan_built plan c)
  unfolding plan_built
  plan_built-Outcome = elim (Option-cases (slot_holding c (current_image c).target)) [
    | inl absent ↦ rw (absent, plan_built) (start_upload-Outcome plan c w)
    | inr (holder, found) ↦ rw (found, plan_built) (plan_held-Outcome plan c holder w)
  ]

pub plan_one-Outcome :
    (plan : UpdatePlan) (c : Context) → Working plan c → Rounds plan (plan_one plan c)
unfolding plan_one
plan_one-Outcome plan c w =
    ground (arith, choose_build-Outcome plan c w, plan_built-Outcome plan (choose_build c).1)

pub plan_targets-Outcome :
    (count : ℕ) (plan : UpdatePlan) (c : Context)
    → Working plan c
    → After plan (plan_targets count plan c)
unfolding plan_targets
plan_targets-Outcome zero plan c w = staged-Outcome plan c w
plan_targets-Outcome (suc count) plan c w =
    Rounds-cases (plan_one plan c)
      (λ (r : Round). After plan (elim r [
        | returns decision ↦ decision
        | next_round after ↦ plan_targets count plan (record after { current = after.current + 1 })
      ]))
      (plan_one-Outcome plan c w) (λ d a. a)
      (λ after w'.
        plan_targets-Outcome count plan (record after { current = after.current + 1 })
          (ground arith))

pub plan_from_state-Outcome :
    (plan : UpdatePlan) (c : Context) → Working plan c → After plan (plan_from_state plan c)
unfolding plan_from_state
plan_from_state-Outcome plan c w = ground (
  arith,
  plan_targets-Outcome (length c.targets - c.current) plan c w,
  inspect_boot-Outcome plan (with_images (map as_skipped c.report.images) c),
)
