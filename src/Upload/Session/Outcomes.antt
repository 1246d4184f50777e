-- ===== src/Upload/Session/Outcomes.antt =====
-- What one response leads to: where the next request starts, and when the upload is complete.
use smply.Prelude.{ℕ, ◌≡◌, sym, ◌∙◌, subst, ◌↔◌, ◌≢◌, Bool, false, Option, none, some, arith}
use smply.Upload.State.{UploadConfig, UploadState, UploadResponse, send_chunk, complete, Step}
use smply.Upload.Session.{
  fail_with, next_request, on_failure, on_complete, on_restart, on_offset, on_reported, on_response,
  advance, record_sent, exchange,
}
use smply.Upload.Session.Cases.{on_reported_cases, on_response_cases}

abbrev Follows : ℕ → UploadState × Step → Type 0
Follows reported (state, step) =
    step.action ≡ send_chunk → (step.request.off ≡ reported) × (state.confirmed_off ≡ reported)

reported_Follows :
    (config : UploadConfig) (state : UploadState) (reported : ℕ) (match : Option Bool)
    → Follows reported (on_reported state reported match config)
unfolding fail_with on_complete on_restart on_offset next_request
reported_Follows config state reported match =
    on_reported_cases (Follows reported) state config reported match (λ _ e. absurd (cc e))
      (λ _. ground arith) (λ z _. ground (arith, z)) (λ p _. ground arith)

pub reported_response :
    (config : UploadConfig) (state : UploadState) (response : UploadResponse) (reported : ℕ)
    → response.failure ≡ none
    → response.off ≡ some reported
    → on_response state response config ≡ on_reported state reported response.match config
unfolding on_response
reported_response config state response reported usable at = ground (arith, usable, at)

advanced_confirmed :
    (state : UploadState) (step : Step)
    → step.action ≡ send_chunk
    → (advance state step).confirmed_off ≡ state.confirmed_off
unfolding advance record_sent
advanced_confirmed state step e = ground (arith, e)

-- The device's offset is authoritative: if the session goes on after a response with an offset,
-- the next request starts there, whatever had been asked for, and that offset is the confirmed one.
pub exchange_follows :
    (config : UploadConfig) (state : UploadState) (response : UploadResponse) (reported : ℕ)
    → response.failure ≡ none
    → response.off ≡ some reported
    → (exchange config state response).1.action ≡ send_chunk
    → ((exchange config state response).1.request.off ≡ reported)
      × ((exchange config state response).0.confirmed_off ≡ reported)
unfolding exchange
exchange_follows config state response reported usable at e =
    let (state', step) = on_response state response config in
    let follows =
      subst (λ r. Follows reported r)
        (sym (reported_response config state response reported usable at))
        (reported_Follows config state reported response.match) e in
    (follows.0, advanced_confirmed state' step e ∙ follows.1)

-- The upload is complete exactly if the device reports the whole image and does not deny the hash.
abbrev Completes : UploadConfig → UploadResponse → UploadState × Step → Type 0
Completes config response (state, step) = (step.action ≡ complete) ↔ (
    (response.failure ≡ none)
    × (response.off ≡ some config.image_size)
    × (response.match ≢ some false))

response_Completes :
    (config : UploadConfig) (state : UploadState) (response : UploadResponse)
    → Completes config response (on_response state response config)
unfolding fail_with on_complete on_restart on_offset on_failure
response_Completes config state response =
    on_response_cases (Completes config response) state config response (λ e f. ground (arith, f))
      (λ u m. ground (arith, m))
      (λ reported u at.
        on_reported_cases (Completes config response) state config reported response.match
          (λ o. ground (arith, at)) (λ w. ground (arith, u, at, w)) (λ z o. ground (arith, at))
          (λ p o. ground (arith, at)))

-- An exchange completes the upload exactly if the device answered with the offset of the whole image and
-- did not deny the hash.
pub exchange-complete :
    (config : UploadConfig) (state : UploadState) (response : UploadResponse)
    → ((exchange config state response).1.action ≡ complete) ↔ (
        (response.failure ≡ none)
        × (response.off ≡ some config.image_size)
        × (response.match ≢ some false))
unfolding exchange
exchange-complete = response_Completes
