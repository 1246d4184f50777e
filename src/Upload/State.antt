-- ===== src/Upload/State.antt =====
-- src/groups/image/upload_session.hpp: the data of one upload.
-- Offsets are uint64_t, counters of the budgets and lengths uint32_t.
use smply.Prelude.{ℕ, Bool, true, false, Option, List}
use smply.Error.{Error}

pub record UploadConfig : Type 0 where
  pub image_size : ℕ
  pub chunk_size : ℕ
  pub image : ℕ
  pub sha : Option (List ℕ)
  pub upgrade_only : Bool
  pub max_chunk_retries : ℕ
  pub max_restarts : ℕ
  pub max_no_progress : ℕ

pub data Phase : Type 0 where
  idle sending done failed suspended : Phase

pub record UploadState : Type 0 where
  pub confirmed_off : ℕ
  pub in_flight_off : ℕ
  pub in_flight_len : ℕ
  pub in_flight_first_packet : Bool
  pub consecutive_no_progress : ℕ
  pub restarts : ℕ
  pub retries : ℕ
  pub progressed : Bool
  pub first_packet_pending : Bool
  pub phase : Phase

abbrev pub new_state : UploadState
new_state = record {
  confirmed_off = 0;
  in_flight_off = 0;
  in_flight_len = 0;
  in_flight_first_packet = false;
  consecutive_no_progress = 0;
  restarts = 0;
  retries = 0;
  progressed = false;
  first_packet_pending = true;
  phase = idle;
}

pub record UploadRequest : Type 0 where
  pub off : ℕ
  pub length : ℕ
  pub first_packet : Bool

pub record UploadResponse : Type 0 where
  pub off : Option ℕ
  pub match : Option Bool
  pub failure : Option Error

pub data Action : Type 0 where
  send_chunk complete fail suspend : Action

pub record Step : Type 0 where
  pub action : Action
  pub request : UploadRequest
  pub error : Error
  pub match : Option Bool
  pub completed_on_first_packet : Bool

abbrev pub no_request : UploadRequest
no_request = record { off = 0; length = 0; first_packet = false }

abbrev pub a_step : Action → UploadRequest → Error → Option Bool → Step
a_step action request error match = record {
  action = action;
  request = request;
  error = error;
  match = match;
  completed_on_first_packet = false;
}
