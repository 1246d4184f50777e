-- ===== src/Upload/Session/Tests.antt =====
-- Runs of an upload, and the theorems about sessions at concrete inputs.
use smply.Prelude.{◌≤◌, ◌≡◌, refl, ◌↔◌, true, false, none, some, [], ◌∷◌, All, inl, arith}
use smply.Error.{Error, error, disconnected}
use smply.Upload.State.{
  UploadConfig, UploadState, UploadResponse, send_chunk, complete, suspend, sending, suspended,
}
use smply.Upload.Session.{
  start, exchange, plan_next, next_request, record_sent, on_response, on_reported, on_offset,
  on_restart, on_complete, sub64, inc32,
}
use smply.Upload.Session.Invariant.{IsValid, Inv, IsGood, exchange-Inv}
use smply.Upload.Session.Outcomes.{exchange_follows}
use smply.Upload.Session.Trace.{run, run_already_present, NothingStored}
use smply.Upload.Session.Termination.{run_terminates, response_budget, NeverBack}
use smply.Upload.Session.Oscillation.{acknowledges, alternating, run_oscillates}
use smply.Upload.Session.Resume.{exchange_suspends}

-- An image of 100 bytes in chunks of 40.
abbrev small : UploadConfig
small = record {
  image_size = 100;
  chunk_size = 40;
  image = 0;
  sha = none;
  upgrade_only = false;
  max_chunk_retries = 3;
  max_restarts = 2;
  max_no_progress = 3;
}

small-IsValid : IsValid small
small-IsValid = omega arith

abbrev no_answer : Error → UploadResponse
no_answer e = record { off = none; match = none; failure = some e }

abbrev first_sent : UploadState
first_sent = record {
  confirmed_off = 0;
  in_flight_off = 0;
  in_flight_len = 40;
  in_flight_first_packet = true;
  consecutive_no_progress = 0;
  restarts = 0;
  retries = 0;
  progressed = false;
  first_packet_pending = true;
  phase = sending;
}

start_run : start small ≡ first_sent
unfolding start plan_next next_request record_sent sub64
start_run = refl

-- The device confirms more than was sent, and the last chunk is short.
last_chunk :
    (exchange small first_sent (acknowledges 90)).1.request
    ≡ record { off = 90; length = 10; first_packet = false }
unfolding exchange on_response on_reported on_offset next_request sub64
last_chunk = refl

first_sent-Inv : Inv small first_sent
first_sent-Inv = record {
  flight = record {
    some_bytes = omega arith;
    at_most_chunk = omega arith;
    in_image = omega arith;
    first_at_zero = λ _. refl;
    zero_is_first = λ _. refl;
  };
  confirmed = omega arith;
  retries_kept = omega arith;
  restarts_kept = omega arith;
  stalls_kept = omega arith;
}

sends_on : (exchange small first_sent (acknowledges 90)).1.action ≡ send_chunk
unfolding exchange on_response on_reported on_offset
sends_on = refl

exchange-Inv_example :
    IsGood small (exchange small first_sent (acknowledges 90)).1.request
    × Inv small (exchange small first_sent (acknowledges 90)).0
exchange-Inv_example =
    exchange-Inv small first_sent (acknowledges 90) small-IsValid first_sent-Inv sends_on

exchange_follows_example :
    ((exchange small first_sent (acknowledges 90)).1.request.off ≡ 90)
    × ((exchange small first_sent (acknowledges 90)).0.confirmed_off ≡ 90)
exchange_follows_example = exchange_follows small first_sent (acknowledges 90) 90 refl refl sends_on

-- A device that forgot the session asks for offset zero once.
abbrev restarted : UploadState
restarted = record first_sent { restarts = 1 }

restart_run : run small (start small) (acknowledges 0 ∷ []) ≡ some restarted
unfolding run start plan_next exchange on_response on_reported on_restart on_offset next_request
    record_sent sub64 inc32
restart_run = refl

present_after_restart : (exchange small restarted (acknowledges 100)).1.action ≡ complete
unfolding exchange on_response on_reported on_complete
present_after_restart = refl

run_already_present_example :
    ((exchange small restarted (acknowledges 100)).1.completed_on_first_packet ≡ true)
    ↔ All NothingStored (acknowledges 0 ∷ [])
run_already_present_example =
    run_already_present small restarted (acknowledges 0 ∷ []) (acknowledges 100) small-IsValid
      restart_run present_after_restart

restart_forward : NeverBack small (start small) (acknowledges 0 ∷ [])
restart_forward = ((λ reported e. inl (ground (arith, e))), tt)

run_terminates_example : 1 ≤ response_budget small
run_terminates_example =
    run_terminates small restarted (acknowledges 0 ∷ []) small-IsValid restart_forward restart_run

run_oscillates_example :
    (end : UploadState) × (run small (start small) (acknowledges 40 ∷ alternating 1000 40 80)
      ≡ some end)
    × (end.confirmed_off ≡ 40)
run_oscillates_example =
    run_oscillates small 40 80 1000 small-IsValid (omega arith) (omega arith) (omega arith)
      (omega arith)

abbrev link_down : Error
link_down = error disconnected "smp client: link is down"

exchange_suspends_example :
    (((exchange small first_sent (no_answer link_down)).1.action ≡ suspend)
      ↔ ((e : Error) × (some link_down ≡ some e) × (e.code ≡ disconnected)))
    × ((exchange small first_sent (no_answer link_down)).1.action ≡ suspend
        → (exchange small first_sent (no_answer link_down)).0
          ≡ record first_sent { phase = suspended })
exchange_suspends_example = exchange_suspends small first_sent (no_answer link_down)

abbrev dropped : UploadState
dropped = record first_sent { phase = suspended; restarts = 1 }

dropped-Inv : Inv small dropped
dropped-Inv = record {
  flight = first_sent-Inv.flight;
  confirmed = omega arith;
  retries_kept = omega arith;
  restarts_kept = omega arith;
  stalls_kept = omega arith;
}
