-- ===== src/Dfu/Machine/Sound/Planned.antt =====
-- src/dfu/update_state_machine.cpp: planning and staging keep the context sound.
use smply.Prelude.{
  ℕ, zero, suc, ◌+◌, ◌-◌, ◌≡◌, ◌<◌, refl, inl, inr, Bool, true, false, none, some, length,
  length-set, length-map, map, arith, Option-cases,
}
use smply.Error.{error, invalid_argument}
use smply.Dfu.SlotTable.{SlotPointer}
use smply.Dfu.Plan.{UpdatePlan, ImageReport}
use smply.Dfu.Machine.State.{Event, Build, Image, Context, Decision}
use smply.Dfu.Machine.Preconditions.{
  fail_with, mode_refusal, found_refusal, check_preconditions, slot_holding,
}
use smply.Dfu.Machine.Waiting.{with_images}
use smply.Dfu.Machine.Planning.{
  chosen_build, write_image, write_report, with_build, current_report, already_marked,
  unless_refused, reset_device, staged, choose_build, take_build, current_image, next_target,
  mark_or_skip, Round, next_round, returns, skipped, found_in, start_upload, mark_held, plan_held,
  plan_built, plan_one, plan_targets, as_skipped, plan_from_state, uploaded, upload_finished,
  verify_upload,
}
use smply.Dfu.Machine.Sound.{Staging, After}
use smply.Dfu.Machine.Sound.Booting.{fail_with-After, inspect_boot-After}

-- The checks that find nothing find no refusal for the mode in particular.
found_refusal-none :
    (plan : UpdatePlan) (c : Context) → found_refusal plan c ≡ none → mode_refusal plan c ≡ none
unfolding found_refusal
found_refusal-none plan c e = ground arith

unless_refused-After :
    (passed : Bool) (size : ℕ) (plan : UpdatePlan) (c : Context) (continues : Context → Decision)
    → Staging passed size plan c
    → (c.preconditions_checked ≡ true → After passed size plan (continues c))
    → (let checked : Context = record c { preconditions_checked = true } in
        Staging passed size plan checked → After passed size plan (continues checked))
    → After passed size plan (unless_refused plan c continues)
unfolding check_preconditions fail_with
unless_refused-After passed size plan c continues w again first =
    let checked : Context = record c { preconditions_checked = true } in
    let first_time : found_refusal plan checked ≡ none
        → After passed size plan (continues checked) =
      λ nothing. first (ground (arith, found_refusal-none plan checked)) in
    unfold mode_refusal in ground (arith, first_time)

staged-After :
    (passed : Bool) (size : ℕ) (plan : UpdatePlan) (c : Context)
    → Staging passed size plan c
    → After passed size plan (staged plan c)
unfolding staged mode_refusal
staged-After passed size plan c w =
    let resets =
      unless_refused-After passed size plan c reset_device w (λ b. ground arith)
        (λ w'. ground arith) in
    ground (arith, resets, inspect_boot-After passed size plan c)

pub next_target-After :
    (passed : Bool) (size : ℕ) (plan : UpdatePlan) (c : Context)
    → Staging passed size plan c
    → c.current < length c.targets
    → After passed size plan (next_target plan c)
unfolding next_target mode_refusal
next_target-After passed size plan c w inside =
    let moved : Context = record c { current = c.current + 1; mark_retried = false } in
    ground (arith, staged-After passed size plan moved)

mark_or_skip-After :
    (passed : Bool) (size : ℕ) (plan : UpdatePlan) (c : Context)
    → Staging passed size plan c
    → c.current < length c.targets
    → c.preconditions_checked ≡ true
    → After passed size plan (mark_or_skip plan c)
unfolding mark_or_skip mode_refusal
mark_or_skip-After passed size plan c w inside checked =
    ground (arith, next_target-After passed size plan (record c { swap_scheduled = true }))

start_upload-After :
    (passed : Bool) (size : ℕ) (plan : UpdatePlan) (c : Context)
    → Staging passed size plan c
    → c.current < length c.targets
    → After passed size plan (unless_refused plan c start_upload)
unfolding mode_refusal
start_upload-After passed size plan c w inside =
    unless_refused-After passed size plan c start_upload w (λ b. ground arith) (λ w'. ground arith)

-- A round of the loop with so many targets after the current one: it goes on with as many, or ends.
abbrev Rounds : ℕ → Bool → ℕ → UpdatePlan → Round → Type 0
Rounds count passed size plan (next_round c) =
    Staging passed size plan c × (c.current + suc count ≡ length c.targets)
Rounds count passed size plan (returns decision) = After passed size plan decision

pub write_report-Staging :
    (passed : Bool) (size : ℕ) (plan : UpdatePlan) (report : ImageReport) (c : Context)
    → Staging passed size plan c
    → Staging passed size plan (write_report report c)
unfolding mode_refusal
write_report-Staging passed size plan report c w =
    ground (arith, length-set c.report.images c.current report)

write_image-Staging :
    (passed : Bool) (size : ℕ) (plan : UpdatePlan) (image : Image) (c : Context)
    → Staging passed size plan c
    → Staging passed size plan (write_image image c)
unfolding mode_refusal
write_image-Staging passed size plan image c w =
    ground (arith, length-set c.targets c.current image)

take_build-Staging :
    (passed : Bool) (size : ℕ) (plan : UpdatePlan) (build : Build) (chosen : ℕ) (c : Context)
    → Staging passed size plan c
    → Staging passed size plan (take_build build chosen c)
unfolding take_build
take_build-Staging passed size plan build chosen c w =
    write_report-Staging passed size plan _
      (write_image (with_build build chosen (current_image c)) c)
      (write_image-Staging passed size plan _ c w)

take_build-Rounds :
    (count : ℕ) (passed : Bool) (size : ℕ) (plan : UpdatePlan) (build : Build) (chosen : ℕ)
    (c : Context)
    → Staging passed size plan c
    → c.current + suc count ≡ length c.targets
    → Rounds count passed size plan (next_round (take_build build chosen c))
take_build-Rounds count passed size plan build chosen c w left = (
  take_build-Staging passed size plan build chosen c w,
  unfold take_build in
      omega
        (arith, left, length-set c.targets c.current (with_build build chosen (current_image c))),
)

choose_build-After :
    (count : ℕ) (passed : Bool) (size : ℕ) (plan : UpdatePlan) (c : Context)
    → Staging passed size plan c
    → c.current + suc count ≡ length c.targets
    → Rounds count passed size plan (elim (choose_build c).0 [
      | none ↦ next_round (choose_build c).1
      | some s ↦ returns (s, (choose_build c).1)
    ])
unfolding choose_build fail_with
choose_build-After count passed size plan c w left =
    elim (Option-cases (current_image c).target.builds) [
      | inl single ↦ ground arith
      | inr ((primary, backup), pair) ↦
          let chosen = chosen_build c (current_image c).target primary backup in
          ground (
            arith,
            pair,
            take_build-Rounds count passed size plan primary chosen c w left,
            take_build-Rounds count passed size plan backup chosen c w left,
            fail_with-After passed size plan
                (error invalid_argument "dfu: one file per slot needs a direct-XIP device") c,
          )
    ]

plan_held-After :
    (count : ℕ) (passed : Bool) (size : ℕ) (plan : UpdatePlan) (c : Context) (holder : SlotPointer)
    → Staging passed size plan c
    → c.current + suc count ≡ length c.targets
    → Rounds count passed size plan (plan_held plan c holder)
unfolding plan_held
plan_held-After count passed size plan c holder w left =
    let known = skipped c in
    let skips =
      write_report-Staging passed size plan (record (current_report c) { upload_skipped = true }) c
        w in
    let finds = λ (b : Context) (w' : Staging passed size plan b).
      write_report-Staging passed size plan
        (record (current_report b) { upload_slot = some holder.slot.slot }) b w' in
    let uploads = start_upload-After passed size plan c w (omega (arith, left)) in
    let marks =
      unless_refused-After passed size plan known (mark_held plan holder) skips
        (λ b.
          mark_or_skip-After passed size plan (found_in holder.slot.slot known) (finds known skips)
            (omega (arith, left)) b)
        (λ w'.
          let checked : Context = record known { preconditions_checked = true } in
          mark_or_skip-After passed size plan (found_in holder.slot.slot checked) (finds checked w')
            (omega (arith, left)) refl) in
    let marked : Staging passed size plan (already_marked plan holder c) =
      unfold mode_refusal in ground (arith, finds known skips) in
    ground (arith, uploads, marks, marked, skips)

module _ (count : ℕ) (passed : Bool) (size : ℕ) (plan : UpdatePlan) where
  plan_built-After :
      (c : Context)
      → Staging passed size plan c
      → c.current + suc count ≡ length c.targets
      → Rounds count passed size plan (plan_built plan c)
  unfolding plan_built
  plan_built-After c w left = elim (Option-cases (slot_holding c (current_image c).target)) [
    | inl absent ↦
        rw (absent, plan_built) (start_upload-After passed size plan c w (omega (arith, left)))
    | inr (holder, found) ↦
        rw (found, plan_built) (plan_held-After count passed size plan c holder w left)
  ]

  plan_one-After :
      (c : Context)
      → Staging passed size plan c
      → c.current + suc count ≡ length c.targets
      → Rounds count passed size plan (plan_one plan c)
  unfolding plan_one
  plan_one-After c w left = ground (
    arith,
    choose_build-After count passed size plan c w left,
    plan_built-After (choose_build c).1,
  )

  -- What holds of a round holds of what the loop does with it.
  Rounds-cases :
      (round : Round) (P : Round → Type 0)
      → Rounds count passed size plan round
      → ((d : Decision) → After passed size plan d → P (returns d))
      → ((c : Context)
          → Staging passed size plan c
          → c.current + suc count ≡ length c.targets
          → P (next_round c))
      → P round
  Rounds-cases (next_round c) P h ends goes = goes c h.0 h.1
  Rounds-cases (returns d) P h ends goes = ends d h

advanced :
    (passed : Bool) (size : ℕ) (plan : UpdatePlan) (c : Context)
    → Staging passed size plan c
    → c.current < length c.targets
    → Staging passed size plan (record c { current = c.current + 1 })
unfolding mode_refusal
advanced passed size plan c w inside = ground arith

plan_targets-After :
    (count : ℕ) (passed : Bool) (size : ℕ) (plan : UpdatePlan) (c : Context)
    → Staging passed size plan c
    → c.current + count ≡ length c.targets
    → After passed size plan (plan_targets count plan c)
unfolding plan_targets
plan_targets-After zero passed size plan c w left = staged-After passed size plan c w
plan_targets-After (suc count) passed size plan c w left =
    Rounds-cases count passed size plan (plan_one plan c)
      (λ (r : Round). After passed size plan (elim r [
        | returns decision ↦ decision
        | next_round after ↦ plan_targets count plan (record after { current = after.current + 1 })
      ]))
      (plan_one-After count passed size plan c w left) (λ d a. a)
      (λ after w' left'.
        plan_targets-After count passed size plan (record after { current = after.current + 1 })
          (advanced passed size plan after w' (omega (arith, left'))) (omega (arith, left')))

pub plan_from_state-After :
    (passed : Bool) (size : ℕ) (plan : UpdatePlan) (c : Context)
    → Staging passed size plan c
    → After passed size plan (plan_from_state plan c)
unfolding plan_from_state
plan_from_state-After passed size plan c w =
    let skips : Staging passed size plan (with_images (map as_skipped c.report.images) c) =
      unfold mode_refusal in ground (arith, length-map c.report.images as_skipped) in
    ground (
      arith,
      skips,
      plan_targets-After (length c.targets - c.current) passed size plan c w
          (omega (arith, w.working.bounded)),
      inspect_boot-After passed size plan (with_images (map as_skipped c.report.images) c),
    )

pub upload_finished-After :
    (passed : Bool) (size : ℕ) (event : Event) (plan : UpdatePlan) (c : Context)
    → Staging passed size plan (uploaded event c)
    → c.current < length c.targets
    → c.preconditions_checked ≡ true
    → After passed size plan (upload_finished event plan c)
unfolding upload_finished mode_refusal
upload_finished-After passed size event plan c w inside checked =
    ground (arith, next_target-After passed size plan (uploaded event c))

pub verify_upload-After :
    (passed : Bool) (size : ℕ) (plan : UpdatePlan) (c : Context)
    → Staging passed size plan c
    → c.current < length c.targets
    → c.preconditions_checked ≡ true
    → After passed size plan (verify_upload plan c)
unfolding verify_upload
verify_upload-After passed size plan c w inside checked =
    elim (Option-cases (slot_holding c (current_image c).target)) [
      | inl absent ↦ rw (absent, verify_upload) (fail_with-After passed size plan _ c w.working)
      | inr (holder, found) ↦
          rw (found, verify_upload)
            (mark_or_skip-After passed size plan (found_in holder.slot.slot c)
              (write_report-Staging passed size plan _ c w) inside checked)
    ]
