-- ===== src/Upload/Session/Trace.antt =====
-- Whole uploads: a session that goes on over a list of responses.
use smply.Prelude.{
  ℕ, ◌<◌, ◌≡◌, refl, sym, ap, ◌∙◌, subst, ◌↔◌, ◌⊎◌, inl, inr, ◌≢◌, true, false, ◌&&◌, not, Option,
  none, some, List, [], ◌∷◌, All, arith,
}
use smply.Upload.State.{UploadConfig, UploadState, UploadResponse, send_chunk, complete, Step}
use smply.Upload.Session.{
  fail_with, next_request, on_failure, on_complete, on_restart, on_offset, on_response, record_sent,
  start, exchange,
}
use smply.Upload.Session.Cases.{on_reported_cases, on_response_cases}
use smply.Upload.Session.Invariant.{IsValid, Inv, advance_sent, start_sent, exchange-Inv, start-Inv}

-- The state after the responses, if the session went on after each of them.
unfoldable pub run : UploadConfig → UploadState → List UploadResponse → Option UploadState
run config state [] = some state
run config state (response ∷ responses) = elim (exchange config state response).1.action [
  | send_chunk ↦ run config (exchange config state response).0 responses
  | _ ↦ none
]

-- Inversion of a run of one response more.
pub run_step :
    (config : UploadConfig) (state end : UploadState) (response : UploadResponse)
    (responses : List UploadResponse)
    → run config state (response ∷ responses) ≡ some end
    → ((exchange config state response).1.action ≡ send_chunk)
      × (run config (exchange config state response).0 responses ≡ some end)
unfolding run
run_step config state end response responses e = ground (arith, e)

pub run_nil :
    (config : UploadConfig) (state end : UploadState) → run config state [] ≡ some end → state ≡ end
unfolding run
run_nil config state end e = cc

-- A property that each exchange keeps is kept by a run.
pub run_keeps {ℓ} :
    (P : UploadState → Type ℓ) (config : UploadConfig)
    → ((state : UploadState) (response : UploadResponse)
        → (exchange config state response).1.action ≡ send_chunk
        → P state
        → P (exchange config state response).0)
    → (state end : UploadState) (responses : List UploadResponse)
    → run config state responses ≡ some end
    → P state
    → P end
run_keeps P config keep state end [] e p = subst P (run_nil config state end e) p
run_keeps P config keep state end (r ∷ rs) e p =
    let (sent, rest) = run_step config state end r rs e in
    run_keeps P config keep (exchange config state r).0 end rs rest (keep state r sent p)

-- Every state of an upload satisfies the invariant.
pub run-Inv :
    (config : UploadConfig) (end : UploadState) (responses : List UploadResponse)
    → IsValid config
    → run config (start config) responses ≡ some end
    → Inv config end
run-Inv config end responses v e =
    run_keeps (Inv config) config (λ state r sent i. (exchange-Inv config state r v i sent).1)
      (start config) end responses e (start-Inv config v)

-- Nothing of the image is stored according to this response: no answer, or offset zero.
abbrev pub NothingStored : UploadResponse → Type 0
NothingStored r = (r.failure ≢ none) ⊎ (r.off ≡ some 0)

-- Nothing has been stored so far, and the outstanding request is a first packet.
pub record IsFresh (state : UploadState) : Type 0 where
  pub nothing : state.progressed ≡ false
  pub first : state.in_flight_first_packet ≡ true

stored_something :
    (r : UploadResponse) (reported : ℕ)
    → r.failure ≡ none
    → r.off ≡ some reported
    → 0 < reported
    → NothingStored r
    → ⊥
stored_something r reported u at p (inl n) = n u
stored_something r reported u at p (inr z) = ground (arith, at, z)

-- How a decision to send relates to the state before it.
record Stores (r : UploadResponse) (before : UploadState) (after : UploadState × Step)
    : Type 0 where
  stored : after.0.progressed ≡ false → (before.progressed ≡ false) × NothingStored r
  nothing_stored : before.progressed ≡ false → NothingStored r → after.0.progressed ≡ false
  first_again :
      before.in_flight_first_packet ≡ true → NothingStored r → after.1.request.first_packet ≡ true

abbrev SendStores : UploadResponse → UploadState → UploadState × Step → Type 0
SendStores r before after = after.1.action ≡ send_chunk → Stores r before after

response_Stores :
    (config : UploadConfig) (state : UploadState) (r : UploadResponse)
    → SendStores r state (on_response state r config)
unfolding fail_with on_complete on_restart on_offset on_failure next_request
response_Stores config state r =
    on_response_cases (SendStores r state) state config r
      (λ e f h. record {
        stored = λ q. (ground arith, inl (λ n. cc));
        nothing_stored = λ q n. ground arith;
        first_again = λ q n. ground arith;
      })
      (λ u m h. ground (arith))
      (λ reported u at.
        on_reported_cases (SendStores r state) state config reported r.match (λ o h. ground arith)
          (λ w h. ground arith)
          (λ z o h. record {
            stored = λ q. (ground arith, inr (cc));
            nothing_stored = λ q n. ground arith;
            first_again = λ q n. ground arith;
          })
          (λ p o h. record {
            stored = λ q. absurd (ground (arith, q, p, h));
            nothing_stored = λ q n. absurd (stored_something r reported u at p n);
            first_again = λ q n. absurd (stored_something r reported u at p n);
          }))

exchange_stored :
    (config : UploadConfig) (state : UploadState) (r : UploadResponse)
    → (exchange config state r).1.action ≡ send_chunk
    → (exchange config state r).0.progressed ≡ false
    → (state.progressed ≡ false) × NothingStored r
unfolding exchange
exchange_stored config state r sent e =
    let (state', step) = on_response state r config in
    (response_Stores config state r sent).stored (rw (advance_sent state' step sent) at e)

run_stored :
    (config : UploadConfig) (state end : UploadState) (rs : List UploadResponse)
    → run config state rs ≡ some end
    → end.progressed ≡ false
    → (state.progressed ≡ false) × All NothingStored rs
run_stored config state end [] e q = (ap (λ s. s.progressed) (run_nil config state end e) ∙ q, tt)
run_stored config state end (r ∷ rs) e q =
    let (sent, rest) = run_step config state end r rs e in
    let (before, others) = run_stored config (exchange config state r).0 end rs rest q in
    let (first, this) = exchange_stored config state r sent before in (first, (this, others))

exchange-IsFresh :
    (config : UploadConfig) (state : UploadState) (r : UploadResponse)
    → (exchange config state r).1.action ≡ send_chunk
    → NothingStored r
    → IsFresh state
    → IsFresh (exchange config state r).0
unfolding exchange record_sent
exchange-IsFresh config state r sent n v =
    let (state', step) = on_response state r config in
    let s = response_Stores config state r sent in
    rw (advance_sent state' step sent)
      (record { nothing = s.nothing_stored v.nothing n; first = s.first_again v.first n })

run-IsFresh :
    (config : UploadConfig) (state end : UploadState) (rs : List UploadResponse)
    → run config state rs ≡ some end
    → All NothingStored rs
    → IsFresh state
    → IsFresh end
run-IsFresh config state end [] e n v = subst IsFresh (run_nil config state end e) v
run-IsFresh config state end (r ∷ rs) e n v =
    let (sent, rest) = run_step config state end r rs e in
    run-IsFresh config (exchange config state r).0 end rs rest n.1
      (exchange-IsFresh config state r sent n.0 v)

complete_flag :
    (config : UploadConfig) (state : UploadState) (r : UploadResponse)
    → (exchange config state r).1.action ≡ complete
    → (exchange config state r).1.completed_on_first_packet
      ≡ state.in_flight_first_packet && not state.progressed
unfolding exchange fail_with on_complete on_restart on_offset on_failure
complete_flag config state r =
    let P : UploadState × Step → Type 0 = λ after.
      after.1.action ≡ complete
      → after.1.completed_on_first_packet ≡ state.in_flight_first_packet && not state.progressed in
    on_response_cases P state config r (λ e f h. ground arith) (λ u m h. ground arith)
      (λ reported u at.
        on_reported_cases P state config reported r.match (λ o h. ground arith)
          (λ w h. ground arith) (λ z o h. ground arith) (λ p o h. ground arith))

start-IsFresh : (config : UploadConfig) → IsValid config → IsFresh (start config)
unfolding record_sent next_request
start-IsFresh config v =
    subst IsFresh (sym (start_sent config v.nonempty)) (record { nothing = refl; first = refl })

-- An upload that completes is reported as already present exactly if no response before had
-- stored anything: each was a failure, or asked for offset zero.
pub run_already_present :
    (config : UploadConfig) (end : UploadState) (rs : List UploadResponse) (last : UploadResponse)
    → IsValid config
    → run config (start config) rs ≡ some end
    → (exchange config end last).1.action ≡ complete
    → ((exchange config end last).1.completed_on_first_packet ≡ true) ↔ All NothingStored rs
run_already_present config end rs last v e c =
    let flag = complete_flag config end last c in
    (
      λ already. (run_stored config (start config) end rs e (ground (arith, flag, already))).1,
      λ nothing.
          let fresh = run-IsFresh config (start config) end rs e nothing (start-IsFresh config v) in
          flag ∙ ground (arith, fresh.nothing, fresh.first),
    )
