-- ===== src/Dfu/Machine/State.antt =====
-- src/dfu/update_state_machine.hpp: events, steps and what the machine keeps between events.
use smply.Prelude.{ℕ, Bool, Option, List, replicate}
use smply.Error.{Error}
use smply.Image.Values.{ImageHash, ImageVersion, max_image_hash_length}
use smply.Dfu.SlotTable.{ImageState}
use smply.Dfu.Plan.{UpdateState, CommitBy, BootloaderMode, UpdateReport}

pub data Effect : Type 0 where
  no_effect proceed query_parameters query_bootloader read_state start_upload : Effect
  resume_upload mark_for_test reset force_reset await_disconnect request_reconnect : Effect
  await_apply request_confirmation confirm finish : Effect

pub data Kind : Type 0 where
  start proceed parameters_read parameters_unavailable bootloader_read state_read : Kind
  upload_finished upload_suspended marked_for_test reset_accepted disconnected : Kind
  reconnected reconnect_failed tick confirm_approved confirmed failed cancel : Kind

-- `state` is none for the null pointer.
pub record Event : Type 0 where
  pub kind : Kind
  pub now : ℕ
  pub buf_size : ℕ
  pub bootloader : BootloaderMode
  pub state : Option ImageState
  pub transferred : ℕ
  pub already_present : Bool
  pub error : Error

pub record Build : Type 0 where
  pub hash : ImageHash
  pub version : ImageVersion

-- `builds` is the pair of the primary and the secondary build.
pub record Target : Type 0 where
  pub image : ℕ
  pub commit : CommitBy
  pub hash : ImageHash
  pub version : ImageVersion
  pub builds : Option (Build × Build)

-- The base class `Target` is the field `target`.
pub record Image : Type 0 where
  pub target : Target
  pub chosen : ℕ
  pub chosen_known : Bool
  pub in_trial : Bool

pub record Step : Type 0 where
  pub next : UpdateState
  pub effect : Effect
  pub target : ℕ
  pub build : ℕ
  pub image : ℕ
  pub buf_size : ℕ
  pub hash : ImageHash

pub record Context : Type 0 where
  pub targets : List Image
  pub current : ℕ
  pub device : Option ImageState
  pub buf_size : ℕ
  pub no_downgrade : Bool
  pub report : UpdateReport
  pub upload_in_progress : Bool
  pub swap_scheduled : Bool
  pub mark_retried : Bool
  pub reset_forced : Bool
  pub confirm_approved : Bool
  pub confirm_reread : Bool
  pub preconditions_checked : Bool
  pub grace_deadline : Option ℕ
  pub apply_poll : Option ℕ
  pub apply_deadline : Option ℕ
  pub apply_phase : Option UpdateState

unfoldable pub no_hash : ImageHash
no_hash = record { contents = replicate max_image_hash_length 0; size = 0 }

-- `Step{next, effect}`: the parameters are left at their defaults.
abbrev pub step : UpdateState → Effect → Step
step next effect = record {
  next = next;
  effect = effect;
  target = 0;
  build = 0;
  image = 0;
  buf_size = 0;
  hash = no_hash;
}

-- A decision takes the context by reference: it gives the step and the context as it leaves it.
abbrev pub Decision : Type 0
Decision = Step × Context
