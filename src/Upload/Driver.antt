-- ===== src/Upload/Driver.antt =====
-- src/groups/image/upload_driver.cpp: a step of the session with a source whose reads may fail.
use smply.Prelude.{ℕ, ◌≡◌, not, ◌==◌, if◌then◌else◌, arith}
use smply.Error.{Result, ok, err, fail, invalid_argument}
use smply.Upload.State.{UploadState, UploadRequest, Step, send_chunk}
use smply.Upload.Session.{record_sent, advance}

-- `send()`: a chunk that the source does not read whole ends the upload, before anything is
-- recorded. The argument is what the source's read gives.
unfoldable pub send : Result ℕ → UploadState → UploadRequest → Result UploadState
send read state request = elim read [
  | err e ↦ err e
  | ok count ↦
      if not (count == request.length)
      then fail invalid_argument "upload: source returned a short read"
      else ok (record_sent state request)
]

-- `advance()`: the session that goes on, or the error that a failed read ends the upload with.
unfoldable pub advance_from : (UploadRequest → Result ℕ) → UploadState → Step → Result UploadState
advance_from source state step = elim step.action [
  | send_chunk ↦ send (source step.request) state step.request
  | _ ↦ ok state
]

-- With a source that reads the chunk whole it is `advance`.
advance_from-advance :
    (source : UploadRequest → Result ℕ) (state : UploadState) (step : Step)
    → source step.request ≡ ok step.request.length
    → advance_from source state step ≡ ok (advance state step)
unfolding advance_from advance send
advance_from-advance source state step whole = ground (arith, whole)
