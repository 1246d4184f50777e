-- ===== src/Upload/Session/Termination.antt =====
-- How long an upload can go on.
use native.Mathlib.Nat.{sub-zero}
use smply.Prelude.{
  ℕ, ◌+◌, ◌-◌, ◌*◌, ◌≤◌, ◌<◌, ◌≡◌, ap, ◌∙◌, ◌⊎◌, true, some, List, [], ◌∷◌, length, arith,
}
use smply.Error.{Error}
use smply.Upload.State.{UploadConfig, UploadState, UploadResponse, send_chunk, Step}
use smply.Upload.Session.{
  fail_with, next_request, on_failure, on_complete, on_restart, on_offset, on_response, record_sent,
  start, exchange, inc32,
}
use smply.Upload.Session.Cases.{on_reported_cases, on_response_cases}
use smply.Upload.Session.Invariant.{
  IsValid, Inv, advance_sent, start_sent, exchange-Inv, start-Inv, inc32-eq,
}
use smply.Upload.Session.Trace.{run, run_step, run_nil}

-- Two digits, the lower one at most `b`.
lex_lt : (b a a' d d' : ℕ) → a' < a → d' ≤ b → a' * (b + 1) + d' < a * (b + 1) + d
lex_lt b a a' d d' h k = grind arith

lex_low : (b a d d' : ℕ) → d' < d → a * (b + 1) + d' < a * (b + 1) + d
lex_low b a d d' h = omega arith

-- What is left of the budgets and of the image, the restarts counting most.
unfoldable pub rank : UploadConfig → ℕ → ℕ → ℕ → ℕ → ℕ
rank config restarts bytes stalls retries =
    ((restarts * (config.image_size + 1) + bytes) * (config.max_no_progress + 1) + stalls)
      * (config.max_chunk_retries + 1)
    + retries

unfoldable pub rank_of : UploadConfig → UploadState → ℕ
rank_of config state =
    rank config (config.max_restarts - state.restarts) (config.image_size - state.confirmed_off)
      (config.max_no_progress - state.consecutive_no_progress)
      (config.max_chunk_retries - state.retries)

module _ (config : UploadConfig) (restarts bytes stalls retries : ℕ) where
  rank_restarted :
      (restarts' bytes' stalls' retries' : ℕ)
      → restarts' < restarts
      → bytes' ≤ config.image_size
      → stalls' ≤ config.max_no_progress
      → retries' ≤ config.max_chunk_retries
      → rank config restarts' bytes' stalls' retries' < rank config restarts bytes stalls retries
  unfolding rank
  rank_restarted restarts' bytes' stalls' retries' h p s t =
      lex_lt config.max_chunk_retries _ _ retries retries'
        (lex_lt config.max_no_progress _ _ stalls stalls'
          (lex_lt config.image_size restarts restarts' bytes bytes' h p) s)
        t

  rank_moved :
      (bytes' stalls' retries' : ℕ)
      → bytes' < bytes
      → stalls' ≤ config.max_no_progress
      → retries' ≤ config.max_chunk_retries
      → rank config restarts bytes' stalls' retries' < rank config restarts bytes stalls retries
  unfolding rank
  rank_moved bytes' stalls' retries' h s t =
      lex_lt config.max_chunk_retries _ _ retries retries'
        (lex_lt config.max_no_progress _ _ stalls stalls'
          (lex_low config.image_size restarts bytes bytes' h) s)
        t

  rank_stalled :
      (stalls' retries' : ℕ)
      → stalls' < stalls
      → retries' ≤ config.max_chunk_retries
      → rank config restarts bytes stalls' retries' < rank config restarts bytes stalls retries
  unfolding rank
  rank_stalled stalls' retries' h t =
      lex_lt config.max_chunk_retries _ _ retries retries'
        (lex_low config.max_no_progress _ stalls stalls' h) t

  rank_retried :
      (retries' : ℕ)
      → retries' < retries
      → rank config restarts bytes stalls retries' < rank config restarts bytes stalls retries
  unfolding rank
  rank_retried retries' h = lex_low config.max_chunk_retries _ retries retries' h

-- A first packet is outstanding only where nothing is confirmed.
abbrev FirstAtZero : UploadState → Type 0
FirstAtZero state = state.in_flight_first_packet ≡ true → state.confirmed_off ≡ 0

-- The device does not go back behind the confirmed offset, but to zero.
abbrev pub IsForward : UploadState → UploadResponse → Type 0
IsForward state r =
    (reported : ℕ) → r.off ≡ some reported → (reported ≡ 0) ⊎ (state.confirmed_off ≤ reported)

abbrev Falls : UploadConfig → UploadState → UploadState × Step → Type 0
Falls config before (state, step) =
    step.action ≡ send_chunk
    → (rank_of config state < rank_of config before)
      × (step.request.first_packet ≡ true → state.confirmed_off ≡ 0)

module _ (config : UploadConfig) (state : UploadState) (v : IsValid config) (i : Inv config state)
    (z : FirstAtZero state) where
  failure-Falls : (e : Error) → Falls config state (on_failure state e config)
  unfolding on_failure rank_of
  failure-Falls e h = ground (
    arith,
    h,
    z,
    inc32-eq state.retries,
    v.retries_word,
    i.retries_kept,
    rank_retried config (config.max_restarts - state.restarts)
        (config.image_size - state.confirmed_off)
        (config.max_no_progress - state.consecutive_no_progress)
        (config.max_chunk_retries - state.retries) (config.max_chunk_retries - inc32 state.retries),
  )

  restart-Falls : Falls config state (on_restart state config)
  unfolding on_restart fail_with rank_of next_request
  restart-Falls h = ground (
    arith,
    h,
    inc32-eq state.restarts,
    v.restarts_word,
    i.restarts_kept,
    rank_restarted config (config.max_restarts - state.restarts)
        (config.image_size - state.confirmed_off)
        (config.max_no_progress - state.consecutive_no_progress)
        (config.max_chunk_retries - state.retries) (config.max_restarts - inc32 state.restarts)
        (config.image_size - 0) (config.max_no_progress - 0) (config.max_chunk_retries - 0),
  )

  offset-Falls :
      (reported : ℕ)
      → 0 < reported
      → reported < config.image_size
      → state.confirmed_off ≤ reported
      → Falls config state (on_offset state reported config)
  unfolding on_offset fail_with rank_of next_request
  offset-Falls reported p inside forward h =
      let bytes = config.image_size - state.confirmed_off in
      let stalls = config.max_no_progress - state.consecutive_no_progress in
      let retries = config.max_chunk_retries - state.retries in
      ground (
        arith,
        h,
        z,
        inc32-eq state.consecutive_no_progress,
        v.stalls_word,
        i.stalls_kept,
        rank_moved config (config.max_restarts - state.restarts) bytes stalls retries
            (config.image_size - reported) (config.max_no_progress - 0)
            (config.max_chunk_retries - 0),
        rank_stalled config (config.max_restarts - state.restarts) bytes stalls retries
            (config.max_no_progress - inc32 state.consecutive_no_progress)
            (config.max_chunk_retries - 0),
      )

  response-Falls :
      (r : UploadResponse) → IsForward state r → Falls config state (on_response state r config)
  unfolding fail_with on_complete
  response-Falls r forward =
      on_response_cases (Falls config state) state config r (λ e _. failure-Falls e)
        (λ _ _ h. absurd (cc h))
        (λ reported _ at.
          on_reported_cases (Falls config state) state config reported r.match
            (λ _ h. absurd (cc h)) (λ _ h. absurd (ground (arith, h))) (λ _ _. restart-Falls)
            (λ p inside. offset-Falls reported p inside (ground (arith, forward reported at))))

exchange-Falls :
    (config : UploadConfig) (state : UploadState) (r : UploadResponse)
    → IsValid config
    → Inv config state
    → FirstAtZero state
    → IsForward state r
    → (exchange config state r).1.action ≡ send_chunk
    → (rank_of config (exchange config state r).0 < rank_of config state)
      × FirstAtZero (exchange config state r).0
unfolding exchange record_sent rank_of
exchange-Falls config state r v i z forward sent =
    let (state', step) = on_response state r config in
    rw (advance_sent state' step sent) (response-Falls config state v i z r forward sent)

-- No response of the run goes back.
abbrev pub NeverBack : UploadConfig → UploadState → List UploadResponse → Type 0
NeverBack config state [] = Unit
NeverBack config state (r ∷ rs) =
    IsForward state r × NeverBack config (exchange config state r).0 rs

run-rank :
    (config : UploadConfig) (state end : UploadState) (rs : List UploadResponse)
    → IsValid config
    → Inv config state
    → FirstAtZero state
    → NeverBack config state rs
    → run config state rs ≡ some end
    → length rs + rank_of config end ≤ rank_of config state
run-rank config state end [] v i z n e =
    omega (arith, ap (rank_of config) (run_nil config state end e))
run-rank config state end (r ∷ rs) v i z n e =
    let (sent, rest) = run_step config state end r rs e in
    let (falls, z') = exchange-Falls config state r v i z n.0 sent in
    let i' = (exchange-Inv config state r v i sent).1 in
    omega (arith, falls, run-rank config (exchange config state r).0 end rs v i' z' n.1 rest)

-- The most responses after which an upload can still go on.
abbrev pub response_budget : UploadConfig → ℕ
response_budget config =
    ((config.max_restarts * (config.image_size + 1) + config.image_size)
          * (config.max_no_progress + 1)
        + config.max_no_progress)
      * (config.max_chunk_retries + 1)
    + config.max_chunk_retries

start_rank :
    (config : UploadConfig)
    → IsValid config
    → rank_of config (start config) ≡ response_budget config
unfolding rank_of rank record_sent
start_rank config v = ap (rank_of config) (start_sent config v.nonempty) ∙ simp sub-zero

start-FirstAtZero : (config : UploadConfig) → IsValid config → FirstAtZero (start config)
unfolding record_sent
start-FirstAtZero config v e = ap (λ s. s.confirmed_off) (start_sent config v.nonempty)

-- Against a device that never goes back behind the confirmed offset, but to zero, an upload goes
-- on over no more responses than the budget: whatever else the device answers, it completes,
-- fails or is suspended by then.
pub run_terminates :
    (config : UploadConfig) (end : UploadState) (rs : List UploadResponse)
    → IsValid config
    → NeverBack config (start config) rs
    → run config (start config) rs ≡ some end
    → length rs ≤ response_budget config
run_terminates config end rs v n e = omega (
  arith,
  start_rank config v,
  run-rank config (start config) end rs v (start-Inv config v) (start-FirstAtZero config v) n e,
)
