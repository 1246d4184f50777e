-- ===== src/Dfu/Plan.antt =====
-- include/smply/dfu/firmware_updater.hpp and groups/os.hpp: what an update is told and reports.
use smply.Prelude.{ℕ, Bool, true, false, Option, List}
use smply.Error.{Error}
use smply.Image.Values.{ImageHash}
use smply.Dfu.SlotTable.{ImageState}

pub data UpdateMode : Type 0 where
  test_then_confirm confirm_immediately upload_only : UpdateMode

pub data UpdateState : Type 0 where
  idle querying_parameters querying_bootloader inspecting_images planning uploading : UpdateState
  verifying_upload marking_for_test resetting awaiting_disconnect awaiting_reconnect : UpdateState
  verifying_booted awaiting_device_apply awaiting_confirmation confirming : UpdateState
  verifying_confirmed awaiting_device_commit completed failed cancelled : UpdateState

abbrev pub is_terminal : UpdateState → Bool
is_terminal UpdateState.completed = true
is_terminal UpdateState.failed = true
is_terminal UpdateState.cancelled = true
is_terminal _ = false

pub data ModeSource : Type 0 where
  reported supplied assumed : ModeSource

pub data Refusal : Type 0 where
  revert_unavailable downgrade unsupported_mode multi_image_unsupported : Refusal

pub data CommitBy : Type 0 where
  client device : CommitBy

pub data McubootMode : Type 0 where
  unknown single_slot swap_using_scratch upgrade_only swap_using_move direct_xip : McubootMode
  direct_xip_with_revert ram_load firmware_loader single_slot_ram_load : McubootMode
  swap_using_offset : McubootMode

-- Without `raw_mode`, which is only shown to the application.
pub record BootloaderMode : Type 0 where
  pub mode : McubootMode
  pub no_downgrade : Bool

-- Without `upload` and `reconnect_hint`, which the machine does not read. Durations are in ticks of
-- the clock and not negative.
pub record UpdatePlan : Type 0 where
  pub mode : UpdateMode
  pub fallback_mode : Option McubootMode
  pub allow_no_revert : Bool
  pub check_downgrade : Bool
  pub skip_if_already_present : Bool
  pub disconnect_grace : ℕ
  pub apply_timeout : ℕ
  pub apply_poll_interval : ℕ

pub record ImageReport : Type 0 where
  pub image : ℕ
  pub commit : CommitBy
  pub target_hash : ImageHash
  pub bytes_transferred : ℕ
  pub upload_skipped : Bool
  pub upload_slot : Option ℕ
  pub rolled_back : Bool
  pub applied : Bool
  pub committed : Bool

pub record UpdateReport : Type 0 where
  pub final_state : UpdateState
  pub bytes_transferred : ℕ
  pub upload_skipped : Bool
  pub target_hash : Option ImageHash
  pub final_device_state : Option ImageState
  pub cause : Option Error
  pub rolled_back : Bool
  pub upload_slot : Option ℕ
  pub revert_pending : Bool
  pub bootloader_mode : McubootMode
  pub mode_source : ModeSource
  pub refusal : Option Refusal
  pub images : List ImageReport
