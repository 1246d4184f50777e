-- ===== src/Upload/Session.antt =====
-- src/groups/image/upload_session.hpp and upload_session.cpp: the decisions of one upload.
-- Offsets are uint64_t and the budgets' counters uint32_t, with their wrap-around written out.
pub mod Cases
pub mod Invariant
pub mod Outcomes
pub mod Trace
pub mod Termination
pub mod Resume
pub mod Oscillation
mod Tests
use smply.Prelude.{
  ℕ, ◌+◌, ◌-◌, ◌%◌, ◌^◌, Bool, true, false, ◌||◌, ◌&&◌, not, Option, none, some, List, ltb, leb,
  ◌==◌, if◌then◌else◌,
}
use smply.Error.{
  ErrorCode, no_error, invalid_state, malformed_message, protocol_error, timeout, disconnected,
  image_mismatch, update_failed, Error, error, smp_error, smp_error_busy, smp_error_no_memory,
}
use smply.Upload.State.{
  Action, Phase, Step, UploadConfig, UploadRequest, UploadResponse, UploadState, a_step, complete,
  done, fail, failed, idle, new_state, no_request, send_chunk, sending, suspend, suspended,
}

-- uint64_t subtraction and uint32_t increment.
unfoldable pub sub64 : ℕ → ℕ → ℕ
sub64 a b = (a + 2 ^ 64 - b) % 2 ^ 64

unfoldable pub inc32 : ℕ → ℕ
inc32 n = (n + 1) % 2 ^ 32

unfoldable pub fail_with : UploadState → Error → UploadState × Step
fail_with state error = (record state { phase = failed }, a_step fail no_request error none)

unfoldable pub refuse_error : Error → Step
refuse_error error = a_step fail no_request error none

unfoldable pub next_request : UploadState → UploadConfig → UploadRequest
next_request state config =
    let off = if state.first_packet_pending then 0 else state.confirmed_off in
    let remaining = sub64 config.image_size off in
    record {
      off = off;
      length = if ltb remaining config.chunk_size then remaining % 2 ^ 32 else config.chunk_size;
      first_packet = state.first_packet_pending;
    }

unfoldable pub send_from : UploadState → UploadConfig → Step
send_from state config = a_step send_chunk (next_request state config) (error no_error "") none

abbrev is_timeout : ErrorCode → Bool
is_timeout c = elim c [ timeout ↦ true | _ ↦ false ]

abbrev is_protocol_error : ErrorCode → Bool
is_protocol_error c = elim c [ protocol_error ↦ true | _ ↦ false ]

abbrev is_disconnected : ErrorCode → Bool
is_disconnected c = elim c [ disconnected ↦ true | _ ↦ false ]

-- Busy and no-memory answers, and timeouts, mean "ask again shortly".
unfoldable pub is_transient : Error → Bool
unfolding smp_error
is_transient e =
    if is_timeout e.code
    then true
    else if not (is_protocol_error e.code)
    then false
    else elim (smp_error e) [
      | none ↦ false
      | some rc ↦ rc == smp_error_busy || rc == smp_error_no_memory
    ]

unfoldable pub plan_next : UploadState → UploadConfig → Step
unfolding send_from refuse_error
plan_next state config = elim state.phase [
  | failed ↦ refuse_error (error invalid_state "upload: session already failed")
  | suspended ↦ refuse_error (error invalid_state "upload: session suspended")
  | _ ↦
      if leb config.image_size state.confirmed_off
      then a_step complete no_request (error no_error "") none
      else send_from state config
]

unfoldable pub resume : UploadState → UploadConfig → UploadState × Step
unfolding plan_next refuse_error
resume state config = elim state.phase [
  | suspended ↦
      let state' = record state {
        first_packet_pending = true;
        phase = idle;
        retries = 0;
        consecutive_no_progress = 0;
      } in
      (state', plan_next state' config)
  | _ ↦ (state, refuse_error (error invalid_state "upload: no suspended session"))
]

unfoldable pub record_sent : UploadState → UploadRequest → UploadState
record_sent state request = record state {
  in_flight_off = request.off;
  in_flight_len = request.length;
  in_flight_first_packet = request.first_packet;
  phase = sending;
}

-- No usable response: a timeout, a device error, a disconnect.
unfoldable pub on_failure : UploadState → Error → UploadConfig → UploadState × Step
unfolding fail_with is_transient
on_failure state failure config =
    if is_transient failure && ltb state.retries config.max_chunk_retries
    then (
      record state { retries = inc32 state.retries },
      a_step send_chunk
          (record {
            off = state.in_flight_off;
            length = state.in_flight_len;
            first_packet = state.in_flight_first_packet;
          })
          (error no_error "") none,
    )
    else if is_disconnected failure.code
    then (record state { phase = suspended }, a_step suspend no_request failure none)
    else fail_with state failure

-- The device reports the whole image.
unfoldable pub on_complete : UploadState → ℕ → Option Bool → UploadState × Step
unfolding fail_with
on_complete state reported match =
    let finished = record state { confirmed_off = reported; phase = done } in
    let step : Step = record {
      action = complete;
      request = no_request;
      error = error no_error "";
      match = match;
      completed_on_first_packet = state.in_flight_first_packet && not state.progressed;
    } in
    elim match [
      | some false ↦
          fail_with state (error image_mismatch "upload: device hash does not match the file")
      | _ ↦ (finished, step)
    ]

-- The device asks for offset zero.
unfoldable pub on_restart : UploadState → UploadConfig → UploadState × Step
unfolding fail_with send_from
on_restart state config =
    let state' = record state {
      restarts = inc32 state.restarts;
      confirmed_off = 0;
      first_packet_pending = true;
      consecutive_no_progress = 0;
      retries = 0;
    } in
    if leb config.max_restarts state.restarts
    then fail_with state (error update_failed "upload: too many restarts")
    else (state', send_from state' config)

-- The device reports an offset inside the image, which becomes the confirmed one.
unfoldable pub adopt : UploadState → ℕ → UploadState
adopt state reported = record state {
  confirmed_off = reported;
  progressed = state.progressed || ltb 0 reported;
  first_packet_pending = false;
  retries = 0;
}

unfoldable pub on_offset : UploadState → ℕ → UploadConfig → UploadState × Step
unfolding fail_with adopt send_from
on_offset state reported config =
    let advanced = record (adopt state reported) { consecutive_no_progress = 0 } in
    let stalls = inc32 state.consecutive_no_progress in
    let stalled = record state { consecutive_no_progress = stalls } in
    let repeated = record (adopt state reported) { consecutive_no_progress = stalls } in
    let moved = record advanced { progressed = true } in
    if state.in_flight_first_packet
    then (advanced, send_from advanced config)
    else if ltb state.confirmed_off reported
    then (moved, send_from moved config)
    else if ltb config.max_no_progress stalls
    then fail_with stalled (error update_failed "upload: server stopped advancing")
    else (repeated, send_from repeated config)

-- A response that the device sent.
unfoldable pub on_reported : UploadState → ℕ → Option Bool → UploadConfig → UploadState × Step
unfolding fail_with
on_reported state reported match config =
    if ltb config.image_size reported
    then fail_with state (error malformed_message "upload: offset beyond the image")
    else if reported == config.image_size
    then on_complete state reported match
    else if reported == 0
    then on_restart state config
    else on_offset state reported config

unfoldable pub on_response : UploadState → UploadResponse → UploadConfig → UploadState × Step
unfolding fail_with
on_response state response config = elim response.failure [
  | some failure ↦ on_failure state failure config
  | none ↦ elim response.off [
    | none ↦ fail_with state (error malformed_message "upload: response has no offset")
    | some reported ↦ on_reported state reported response.match config
  ]
]

-- What a step records that sends a chunk, with a source that reads the whole chunk. `advance_from`
-- of Upload.Driver is the same with any source: a read that fails ends the upload unrecorded.
unfoldable pub advance : UploadState → Step → UploadState
unfolding record_sent
advance state step = elim step.action [ send_chunk ↦ record_sent state step.request | _ ↦ state ]

-- The first request of an upload, from a source that reads each chunk whole.
unfoldable pub start : UploadConfig → UploadState
unfolding advance plan_next
start config = advance new_state (plan_next new_state config)

-- One response, and what the session sends on it, from such a source.
unfoldable pub exchange : UploadConfig → UploadState → UploadResponse → UploadState × Step
unfolding advance
exchange config state response =
    let (state', step) = on_response state response config in (advance state' step, step)
