-- ===== src/Dfu/Machine/Preconditions.antt =====
-- src/dfu/update_state_machine.cpp: how an update fails, and what refuses it before it changes the
-- device.
use Prim.Native.String.{String}
use smply.Prelude.{
  ℕ, Bool, true, false, ◌&&◌, ◌||◌, not, Option, none, some, ltb, ◌==◌, if◌then◌else◌, length, any,
}
use smply.Error.{ErrorCode, Error, error, ok, err, update_refused}
use smply.Image.Values.{ImageVersion, parse_version}
use smply.Dfu.SlotTable.{ImageSlot, SlotPointer, same_hash, active_slot, find_slot}
use smply.Dfu.Plan.{
  UpdateMode, UpdateState, ModeSource, Refusal, McubootMode, UpdatePlan, UpdateReport,
}
use smply.Dfu.Machine.State.{Effect, Target, Image, Step, Context, step, Decision}

-- `fail` with an error, and with a code and a place.
unfoldable pub fail_with : Error → Context → Decision
fail_with e c = (
  step UpdateState.failed Effect.finish,
  record c { report = record c.report { revert_pending = c.swap_scheduled; cause = some e } },
)

abbrev pub fail_as : ErrorCode → String → Context → Decision
fail_as code location = fail_with (error code location)

abbrev pub is_unknown : McubootMode → Bool
is_unknown McubootMode.unknown = true
is_unknown _ = false

-- The mode and where it came from.
abbrev pub with_mode : McubootMode → ModeSource → UpdateReport → UpdateReport
with_mode mode source report = record report { bootloader_mode = mode; mode_source = source }

unfoldable pub record_mode : McubootMode → UpdatePlan → UpdateReport → UpdateReport
record_mode mode plan report =
    let assumed = with_mode McubootMode.unknown ModeSource.assumed report in
    if not (is_unknown mode)
    then with_mode mode ModeSource.reported report
    else elim plan.fallback_mode [
      | none ↦ assumed
      | some fallback ↦
          if not (is_unknown fallback)
          then with_mode fallback ModeSource.supplied report
          else assumed
    ]

abbrev pub is_upload_only : UpdateMode → Bool
is_upload_only UpdateMode.upload_only = true
is_upload_only _ = false

-- The cases of `mode_refusal`: whether it accepts to have no revert, and how many images there are.
unfoldable pub refusal_of : McubootMode → Bool → ℕ → Option Refusal
refusal_of McubootMode.single_slot accepts count = some Refusal.unsupported_mode
refusal_of McubootMode.firmware_loader accepts count = some Refusal.unsupported_mode
refusal_of McubootMode.ram_load accepts count = some Refusal.unsupported_mode
refusal_of McubootMode.single_slot_ram_load accepts count = some Refusal.unsupported_mode
refusal_of McubootMode.upgrade_only accepts count =
    if accepts then none else some Refusal.revert_unavailable
refusal_of McubootMode.direct_xip accepts count =
    if ltb 1 count
    then some Refusal.multi_image_unsupported
    else if accepts
    then none
    else some Refusal.revert_unavailable
refusal_of McubootMode.direct_xip_with_revert accepts count =
    if ltb 1 count then some Refusal.multi_image_unsupported else none
refusal_of McubootMode.unknown accepts count = none
refusal_of McubootMode.swap_using_scratch accepts count = none
refusal_of McubootMode.swap_using_move accepts count = none
refusal_of McubootMode.swap_using_offset accepts count = none

unfoldable pub mode_refusal : UpdatePlan → Context → Option Refusal
mode_refusal plan c =
    refusal_of c.report.bootloader_mode (is_upload_only plan.mode || plan.allow_no_revert)
      (length c.targets)

abbrev pub is_direct_xip : McubootMode → Bool
is_direct_xip McubootMode.direct_xip = true
is_direct_xip _ = false

unfoldable pub without_set_state : Context → Bool
without_set_state c = is_direct_xip c.report.bootloader_mode

unfoldable pub older : ImageVersion → ImageVersion → Bool
older image running =
    if not (image.major == running.major)
    then ltb image.major running.major
    else if not (image.minor == running.minor)
    then ltb image.minor running.minor
    else ltb image.revision running.revision

abbrev pub refusal_text : Refusal → String
refusal_text Refusal.revert_unavailable = "dfu: the bootloader cannot revert this update"
refusal_text Refusal.downgrade = "dfu: the device refuses an image older than the one it runs"
refusal_text Refusal.unsupported_mode = "dfu: no update path for this bootloader mode"
refusal_text Refusal.multi_image_unsupported = "dfu: this bootloader mode updates one image only"

unfoldable pub active_of : Context → ℕ → Option SlotPointer
active_of c image = elim c.device [ none ↦ none | some state ↦ active_slot image state ]

unfoldable pub anything_pending : Context → ℕ → Bool
anything_pending c image = elim c.device [
  | none ↦ false
  | some state ↦ any (λ slot. slot.image == image && slot.pending) state.slots
]

-- `holds` on a slot that is not null.
unfoldable pub slot_holds : Target → ImageSlot → Bool
slot_holds target slot =
    not (target.hash.size == 0)
    && elim slot.hash [ none ↦ false | some reported ↦ same_hash reported target.hash ]

unfoldable pub holds : Option SlotPointer → Target → Bool
holds pointer target = elim pointer [ none ↦ false | some p ↦ slot_holds target p.slot ]

unfoldable pub slot_holding : Context → Target → Option SlotPointer
slot_holding c target = elim c.device [
  | none ↦ none
  | some state ↦ find_slot (λ slot. slot.image == target.image && slot_holds target slot) state
]

-- The body of the test in `is_downgrade`, for one target.
unfoldable pub downgrades : Context → Image → Bool
downgrades c image =
    let target = image.target in
    elim (active_of c target.image) [
      | none ↦ false
      | some running ↦
          if slot_holds target running.slot
          then false
          else elim (parse_version running.slot.version) [
            | ok version ↦ older target.version version
            | err e ↦ false
          ]
    ]

unfoldable pub is_downgrade : UpdatePlan → Context → Bool
is_downgrade plan c =
    if not plan.check_downgrade || not c.no_downgrade then false else any (downgrades c) c.targets

-- What the checks find, if anything.
unfoldable pub found_refusal : UpdatePlan → Context → Option Refusal
found_refusal plan c = elim (mode_refusal plan c) [
  | none ↦ if is_downgrade plan c then some Refusal.downgrade else none
  | some refusal ↦ some refusal
]

unfoldable pub check_preconditions : UpdatePlan → Context → Option Step × Context
check_preconditions plan c =
    if c.preconditions_checked
    then (none, c)
    else let checked : Context = record c { preconditions_checked = true } in
      elim (found_refusal plan checked) [
        | none ↦ (none, checked)
        | some refusal ↦
            let reported : Context = record checked {
              report = record checked.report { refusal = some refusal };
            } in
            let (failure, after) = fail_as update_refused (refusal_text refusal) reported in
            (some failure, after)
      ]
