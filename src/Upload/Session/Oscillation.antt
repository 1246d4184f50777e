-- ===== src/Upload/Session/Oscillation.antt =====
-- A device that goes back and forth, and what the budget for stalls makes of it.
use smply.Prelude.{
  ℕ, zero, suc, ◌≤◌, ◌<◌, ◌≡◌, refl, sym, subst, false, none, some, List, [], ◌∷◌, arith,
}
use smply.Upload.State.{UploadConfig, UploadState, UploadResponse, send_chunk}
use smply.Upload.Session.{
  next_request, on_offset, on_reported, on_response, advance, record_sent, start, exchange, inc32,
}
use smply.Upload.Session.Invariant.{IsValid, start_sent}
use smply.Upload.Session.Trace.{run}

-- Answers that alternate between two offsets, `n` times.
abbrev pub acknowledges : ℕ → UploadResponse
acknowledges off = record { off = some off; match = none; failure = none }

unfoldable pub alternating : ℕ → ℕ → ℕ → List UploadResponse
alternating zero low high = []
alternating (suc n) low high = acknowledges high ∷ acknowledges low ∷ alternating n low high

-- At the lower offset, with a stall at most that the next advance forgives.
record IsLow (config : UploadConfig) (low : ℕ) (state : UploadState) : Type 0 where
  at_low : state.confirmed_off ≡ low
  not_first : state.in_flight_first_packet ≡ false

module _ (config : UploadConfig) (low high : ℕ) (patient : 1 ≤ config.max_no_progress)
    (positive : 0 < low) (rising : low < high) (inside : high < config.image_size) where
  rise :
      (state : UploadState)
      → IsLow config low state
      → ((exchange config state (acknowledges high)).1.action ≡ send_chunk)
        × ((exchange config state (acknowledges high)).0.confirmed_off ≡ high)
        × ((exchange config state (acknowledges high)).0.in_flight_first_packet ≡ false)
        × ((exchange config state (acknowledges high)).0.consecutive_no_progress ≡ 0)
  unfolding exchange on_response on_reported on_offset advance record_sent next_request
  rise state l = ground (arith, l.at_low, l.not_first, positive, rising, inside)

  sink :
      (state : UploadState)
      → state.confirmed_off ≡ high
      → state.in_flight_first_packet ≡ false
      → state.consecutive_no_progress ≡ 0
      → ((exchange config state (acknowledges low)).1.action ≡ send_chunk)
        × IsLow config low (exchange config state (acknowledges low)).0
  unfolding exchange on_response on_reported on_offset advance record_sent next_request inc32
  sink state c f n = ground (arith, c, f, n, patient, positive, rising, inside)

  alternate :
      (n : ℕ) (state : UploadState)
      → IsLow config low state
      → (end : UploadState) × (run config state (alternating n low high) ≡ some end)
        × IsLow config low end
  unfolding run alternating
  alternate zero state l = (state, refl, l)
  alternate (suc n) state l =
      let (up, at_high, not_first, fresh) = rise state l in
      let high_state = (exchange config state (acknowledges high)).0 in
      let (down, l') = sink high_state at_high not_first fresh in
      let (end, e, l'') = alternate n (exchange config high_state (acknowledges low)).0 l' in
      (end, ground (arith, up, down, e), l'')

  start-IsLow :
      IsValid config
      → ((exchange config (start config) (acknowledges low)).1.action ≡ send_chunk)
        × IsLow config low (exchange config (start config) (acknowledges low)).0
  unfolding exchange on_response on_reported on_offset advance record_sent next_request
  start-IsLow v =
      subst
        (λ s.
          ((exchange config s (acknowledges low)).1.action ≡ send_chunk)
          × IsLow config low (exchange config s (acknowledges low)).0)
        (sym (start_sent config v.nonempty)) (ground (arith, positive, rising, inside))

-- The budget for stalls does not bound a device that goes back and forth: against one that
-- alternates between two offsets inside the image, an upload that allows a stall goes on over any
-- number of responses.
pub run_oscillates :
    (config : UploadConfig) (low high n : ℕ)
    → IsValid config
    → 1 ≤ config.max_no_progress
    → 0 < low
    → low < high
    → high < config.image_size
    → (end : UploadState) × (run config (start config) (acknowledges low ∷ alternating n low high)
        ≡ some end)
      × (end.confirmed_off ≡ low)
unfolding run
run_oscillates config low high n v patient positive rising inside =
    let (sent, l) = start-IsLow config low high patient positive rising inside v in
    let (end, e, l') =
      alternate config low high patient positive rising inside n
        (exchange config (start config) (acknowledges low)).0 l in
    (end, ground (arith, sent, e), l'.at_low)
