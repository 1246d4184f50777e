-- ===== src/Upload/Session/Resume.antt =====
-- A link that drops: suspension, and the session that goes on after it.
use smply.Prelude.{◌<◌, ◌≡◌, refl, ◌↔◌, ◌≢◌, true, none, some, arith}
use smply.Error.{Error, disconnected, malformed_message, invalid_state, error}
use smply.Upload.State.{
  UploadConfig, suspended, idle, UploadState, UploadResponse, send_chunk, suspend, Step,
}
use smply.Upload.Session.{
  refuse_error, next_request, send_from, resume, on_failure, on_response, advance, exchange,
  fail_with, on_complete, on_restart, on_offset,
}
use smply.Upload.Session.Cases.{on_reported_cases, on_response_cases}
use smply.Upload.Session.Invariant.{IsValid, Inv, IsGood, sends_from}

-- A session is suspended exactly by a disconnect, and keeps what the device has confirmed.
abbrev Suspends : UploadState → UploadResponse → UploadState × Step → Type 0
Suspends before r (state, step) =
    ((step.action ≡ suspend) ↔ ((e : Error) × (r.failure ≡ some e) × (e.code ≡ disconnected)))
    × (step.action ≡ suspend → state ≡ record before { phase = suspended })

other_Suspends :
    (state : UploadState) (r : UploadResponse) (after : UploadState × Step)
    → r.failure ≡ none
    → after.1.action ≢ suspend
    → Suspends state r after
other_Suspends state r after u n =
    ((λ h. absurd (n h), λ (e, f, _). absurd (cc)), λ h. absurd (n h))

response_Suspends :
    (config : UploadConfig) (state : UploadState) (r : UploadResponse)
    → Suspends state r (on_response state r config)
unfolding fail_with on_complete on_restart on_offset on_failure
response_Suspends config state r =
    on_response_cases (Suspends state r) state config r
      (λ e f. (
        (λ h. (e, f, ground (arith, h)), λ (x, g, c). ground (arith, f, g, c)),
        λ h. ground (arith, h),
      ))
      (λ u m.
        other_Suspends state r
          (fail_with state (error malformed_message "upload: response has no offset")) u
          (λ h. cc h))
      (λ reported u at.
        on_reported_cases (Suspends state r) state config reported r.match
          (λ o.
            other_Suspends state r
              (fail_with state (error malformed_message "upload: offset beyond the image")) u
              (λ h. cc h))
          (λ w.
            other_Suspends state r (on_complete state reported r.match) u (λ h. ground (arith, h)))
          (λ z o. other_Suspends state r (on_restart state config) u (λ h. ground (arith, h)))
          (λ p o.
            other_Suspends state r (on_offset state reported config) u (λ h. ground (arith, h))))

-- A session is suspended exactly if the failure is a disconnect, and then it keeps all that it
-- knew: nothing but the phase changes.
pub exchange_suspends :
    (config : UploadConfig) (state : UploadState) (r : UploadResponse)
    → let (state', step) = exchange config state r in
      ((step.action ≡ suspend) ↔ ((e : Error) × (r.failure ≡ some e) × (e.code ≡ disconnected)))
      × (step.action ≡ suspend → state' ≡ record state { phase = suspended })
unfolding exchange advance
exchange_suspends config state r =
    let s = response_Suspends config state r in (s.0, λ h. ground (arith, h, s.1 h))

resumed : UploadState → UploadState
resumed state = record state {
  first_packet_pending = true;
  phase = idle;
  retries = 0;
  consecutive_no_progress = 0;
}

resume_suspended :
    (config : UploadConfig) (state : UploadState)
    → state.confirmed_off < config.image_size
    → state.phase ≡ suspended
    → resume state config ≡ (resumed state, send_from (resumed state) config)
unfolding resume resumed
resume_suspended config state h e = ground (arith, e)

resume_other :
    (config : UploadConfig) (state : UploadState)
    → state.phase ≢ suspended
    → resume state config
      ≡ (state, refuse_error (error invalid_state "upload: no suspended session"))
unfolding resume
resume_other config state h = ground (arith, h)

-- `resume` continues a suspended session that is not complete with a first packet at offset zero
-- that lies in the image; it starts the budgets of the attempt again, and keeps the count of
-- restarts and what has been confirmed. Any other session it refuses and leaves as it is.
pub resume_lem :
    (config : UploadConfig) (state : UploadState)
    → IsValid config
    → Inv config state
    → state.confirmed_off < config.image_size
    → let (state', step) = resume state config in
      (state.phase ≡ suspended
        → (step.action ≡ send_chunk)
          × (step.request.first_packet ≡ true)
          × IsGood config step.request
          × Inv config (advance state' step)
          × (state'.restarts ≡ state.restarts)
          × (state'.confirmed_off ≡ state.confirmed_off)
          × (state'.progressed ≡ state.progressed))
      × (state.phase ≢ suspended
          → (state' ≡ state)
            × (step ≡ refuse_error (error invalid_state "upload: no suspended session")))
unfolding resumed send_from advance next_request
resume_lem config state v i h = (
  λ e.
      let (good, kept) =
        sends_from config v (resumed state) h (λ n. absurd (cc n)) (omega arith) i.restarts_kept
          (omega arith) in
      rw (resume_suspended config state h e) (refl, refl, good, kept, refl, refl, refl),
  λ n. rw (resume_other config state n) (refl, refl),
)
