-- ===== src/Upload/Session/Invariant.antt =====
-- What holds of an upload between two responses: every request lies in the image, and the budgets
-- are kept.
use smply.Prelude.{ℕ, ◌+◌, ◌-◌, ◌^◌, ◌≤◌, ◌<◌, ◌≡◌, sym, subst, Bool, true, false, Option, arith}
use smply.Error.{Error}
use smply.Upload.State.{
  UploadConfig, UploadState, new_state, UploadRequest, UploadResponse, send_chunk, Step,
}
use smply.Upload.Session.{
  sub64, inc32, next_request, plan_next, record_sent, on_failure, on_complete, on_restart,
  on_offset, on_response, advance, start, exchange, adopt, fail_with,
}
use smply.Upload.Session.Cases.{on_reported_cases, on_response_cases}

pub record IsValid (config : UploadConfig) : Type 0 where
  pub nonempty : 0 < config.image_size
  pub size_word : config.image_size < 2 ^ 64
  pub chunk_positive : 0 < config.chunk_size
  pub chunk_word : config.chunk_size < 2 ^ 32
  pub retries_word : config.max_chunk_retries < 2 ^ 32
  pub restarts_word : config.max_restarts < 2 ^ 32
  -- At 2 ^ 32 - 1 the counter would wrap before it passes the budget.
  pub stalls_word : config.max_no_progress + 1 < 2 ^ 32

-- A request that the image can fill, of a byte at least, at offset zero exactly if it is a first packet.
pub record IsGood (config : UploadConfig) (r : UploadRequest) : Type 0 where
  pub some_bytes : 0 < r.length
  pub at_most_chunk : r.length ≤ config.chunk_size
  pub in_image : r.off + r.length ≤ config.image_size
  pub first_at_zero : r.first_packet ≡ true → r.off ≡ 0
  pub zero_is_first : r.off ≡ 0 → r.first_packet ≡ true

abbrev pub in_flight : UploadState → UploadRequest
in_flight state = record {
  off = state.in_flight_off;
  length = state.in_flight_len;
  first_packet = state.in_flight_first_packet;
}

pub record Inv (config : UploadConfig) (state : UploadState) : Type 0 where
  pub flight : IsGood config (in_flight state)
  pub confirmed : state.confirmed_off ≤ config.image_size
  pub retries_kept : state.retries ≤ config.max_chunk_retries
  pub restarts_kept : state.restarts ≤ config.max_restarts
  pub stalls_kept : state.consecutive_no_progress ≤ config.max_no_progress

sub64-eq : (a b : ℕ) → b ≤ a → a < 2 ^ 64 → sub64 a b ≡ a - b
unfolding sub64
sub64-eq a b h k = omega arith

pub inc32-eq : (n : ℕ) → n + 1 < 2 ^ 32 → inc32 n ≡ n + 1
unfolding inc32
inc32-eq n h = omega arith

-- A request that follows from the state is good, if the offset it starts at is short of the end
-- and is zero for a first packet only.
next_request-IsGood :
    (config : UploadConfig) (state : UploadState)
    → IsValid config
    → state.confirmed_off < config.image_size
    → (state.first_packet_pending ≡ false → 0 < state.confirmed_off)
    → IsGood config (next_request state config)
unfolding next_request
next_request-IsGood config state v inside h =
    ground (arith, sub64-eq config.image_size 0, sub64-eq config.image_size state.confirmed_off)

-- If the decision is to send, the request is good and the invariant holds once it is recorded.
abbrev pub Keeps : UploadConfig → UploadState × Step → Type 0
Keeps config (state, step) =
    step.action ≡ send_chunk
    → IsGood config step.request × Inv config (record_sent state step.request)

pub sends_from :
    (config : UploadConfig) (v : IsValid config) (next : UploadState)
    → next.confirmed_off < config.image_size
    → (next.first_packet_pending ≡ false → 0 < next.confirmed_off)
    → next.retries ≤ config.max_chunk_retries
    → next.restarts ≤ config.max_restarts
    → next.consecutive_no_progress ≤ config.max_no_progress
    → IsGood config (next_request next config)
      × Inv config (record_sent next (next_request next config))
unfolding record_sent
sends_from config v next inside positive r s n =
    let good = next_request-IsGood config next v inside positive in
    (
      good,
      record {
        flight = good;
        confirmed = omega arith;
        retries_kept = r;
        restarts_kept = s;
        stalls_kept = n;
      },
    )

module _ (config : UploadConfig) (state : UploadState) (v : IsValid config)
    (i : Inv config state) where
  on_failure-Keeps : (e : Error) → Keeps config (on_failure state e config)
  unfolding on_failure record_sent
  on_failure-Keeps e =
      ground (arith, inc32-eq state.retries, v.retries_word, i.retries_kept, i.flight)

  on_complete-Keeps :
      (reported : ℕ) (match : Option Bool) → Keeps config (on_complete state reported match)
  unfolding on_complete record_sent
  on_complete-Keeps reported match = ground arith

  on_restart-Keeps : Keeps config (on_restart state config)
  unfolding on_restart
  on_restart-Keeps = ground (
    arith,
    inc32-eq state.restarts,
    v.restarts_word,
    v.nonempty,
    i.restarts_kept,
    sends_from config v (record state {
      restarts = inc32 state.restarts;
      confirmed_off = 0;
      first_packet_pending = true;
      consecutive_no_progress = 0;
      retries = 0;
    }),
  )

  on_offset-Keeps :
      (reported : ℕ)
      → reported < config.image_size
      → 0 < reported
      → Keeps config (on_offset state reported config)
  unfolding on_offset
  on_offset-Keeps reported h k =
      let advanced = record (adopt state reported) { consecutive_no_progress = 0 } in
      ground (
        arith,
        inc32-eq state.consecutive_no_progress,
        v.stalls_word,
        i.stalls_kept,
        i.restarts_kept,
        sends_from config v advanced,
        sends_from config v (record advanced { progressed = true }),
        sends_from config v
            (record advanced { consecutive_no_progress = inc32 state.consecutive_no_progress }),
      )

  fail_with-Keeps : (e : Error) → Keeps config (fail_with state e)
  unfolding fail_with
  fail_with-Keeps e h = absurd (cc h)

  on_response-Keeps : (response : UploadResponse) → Keeps config (on_response state response config)
  on_response-Keeps response =
      on_response_cases (Keeps config) state config response (λ e _. on_failure-Keeps e)
        (λ _ _. fail_with-Keeps _)
        (λ reported _ _.
          on_reported_cases (Keeps config) state config reported response.match
            (λ _. fail_with-Keeps _) (λ _. on_complete-Keeps reported response.match)
            (λ _ _. on_restart-Keeps) (λ k h. on_offset-Keeps reported h k))

pub advance_sent :
    (state : UploadState) (step : Step)
    → step.action ≡ send_chunk
    → advance state step ≡ record_sent state step.request
unfolding advance
advance_sent state step e = ground (arith, e)

-- The session's invariant: after a response on which the session goes on, the next request fills
-- at most a chunk, lies in the image, is a first packet exactly at offset zero, and the budgets of
-- retries, restarts and stalls are kept.
pub exchange-Inv :
    (config : UploadConfig) (state : UploadState) (response : UploadResponse)
    → IsValid config
    → Inv config state
    → (exchange config state response).1.action ≡ send_chunk
    → IsGood config (exchange config state response).1.request
      × Inv config (exchange config state response).0
unfolding exchange
exchange-Inv config state response v i e =
    let (good, kept) = on_response-Keeps config state v i response e in
    let (state', step) = on_response state response config in
    (good, subst (Inv config) (sym (advance_sent state' step e)) kept)

pub start_sent :
    (config : UploadConfig)
    → 0 < config.image_size
    → start config ≡ record_sent new_state (next_request new_state config)
unfolding start plan_next advance
start_sent config h = ground arith

-- It holds from the first request on.
pub start-Inv : (config : UploadConfig) → IsValid config → Inv config (start config)
start-Inv config v =
    subst (Inv config) (sym (start_sent config v.nonempty))
      (sends_from config v new_state v.nonempty (λ e. absurd (cc e)) (omega arith) (omega arith)
        (omega arith)).1
