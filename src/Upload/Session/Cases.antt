-- ===== src/Upload/Session/Cases.antt =====
-- The branches of `on_response` as rules: what holds on each branch holds of the call.
use smply.Prelude.{
  ℕ, ◌<◌, ◌≡◌, Bool, Option, none, some, ltb, ◌==◌, Bool-cases, Option-cases, inl, inr, arith,
}
use smply.Error.{malformed_message, Error, error}
use smply.Upload.State.{UploadConfig, UploadState, UploadResponse, Step}
use smply.Upload.Session.{
  fail_with, on_failure, on_complete, on_restart, on_offset, on_reported, on_response,
}

module _ {ℓ} (P : UploadState × Step → Type ℓ) (state : UploadState) (config : UploadConfig) where
  pub on_reported_cases :
      (reported : ℕ) (match : Option Bool)
      → (config.image_size < reported
          → P (fail_with state (error malformed_message "upload: offset beyond the image")))
      → (reported ≡ config.image_size → P (on_complete state reported match))
      → (reported ≡ 0 → reported < config.image_size → P (on_restart state config))
      → (0 < reported → reported < config.image_size → P (on_offset state reported config))
      → P (on_reported state reported match config)
  unfolding on_reported
  on_reported_cases reported match beyond whole restart inside =
      elim (Bool-cases (ltb config.image_size reported)) [
        | inl over ↦ rw (over, on_reported) (beyond (ground arith))
        | inr within ↦ elim (Bool-cases (reported == config.image_size)) [
          | inl full ↦ rw (within, full, on_reported) (whole (ground arith))
          | inr short ↦ elim (Bool-cases (reported == 0)) [
            | inl zeroed ↦
                rw (within, short, zeroed, on_reported) (restart (ground arith) (ground arith))
            | inr positive ↦
                rw (within, short, positive, on_reported) (inside (ground arith) (ground arith))
          ]
        ]
      ]

  pub on_response_cases :
      (response : UploadResponse)
      → ((e : Error) → response.failure ≡ some e → P (on_failure state e config))
      → (response.failure ≡ none
          → response.off ≡ none
          → P (fail_with state (error malformed_message "upload: response has no offset")))
      → ((reported : ℕ)
          → response.failure ≡ none
          → response.off ≡ some reported
          → P (on_reported state reported response.match config))
      → P (on_response state response config)
  unfolding on_response
  on_response_cases response fails bare reports = elim (Option-cases response.failure) [
    | inl usable ↦ elim (Option-cases response.off) [
      | inl missing ↦ rw (usable, missing, on_response) (bare usable missing)
      | inr (reported, at) ↦ rw (usable, at, on_response) (reports reported usable at)
    ]
    | inr (e, failed) ↦ rw (failed, on_response) (fails e failed)
  ]
