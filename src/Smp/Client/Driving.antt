-- ===== src/Smp/Client/Driving.antt =====
-- What drives the client: time, the transport's notifications, and its construction and end.
use smply.Prelude.{
  ℕ, ◌+◌, Bool, true, false, ◌&&◌, not, Option, none, some, List, [], ◌∷◌, ◌==◌, leb, ltb,
  if◌then◌else◌,
}
use smply.Error.{
  Error, error, Result, ok, err, disconnected, cancelled, timeout, protocol_error, is_user_defined,
  fail,
}
use smply.Smp.Header.{Header, op_value}
use smply.Smp.Assembler.{Message, returned, stuck, feed, reset}
use smply.Smp.Client.State.{RequestHandle, RawResponse, Pending, inc64, Environment, SmpClient}
use smply.Smp.Client.Retired.{is_retired}
use smply.Smp.Client.Table.{entry_at, find_by_seq, resolve}
use smply.Smp.Client.Lifecycle.{complete, fail_all, deliver_deferred}

-- The handles of the loop over the table, from the slot it is at.
unfoldable pub expired_from : ℕ → ℕ → List Pending → List RequestHandle
expired_from now slot [] = []
expired_from now slot (p ∷ ps) =
    let rest = expired_from now (slot + 1) ps in
    if p.active && leb p.deadline now
    then record { slot = slot; generation = p.generation } ∷ rest
    else rest

-- The loop of `next_deadline()`, with the earliest so far.
unfoldable pub earliest_from : Option ℕ → List Pending → Option ℕ
earliest_from earliest [] = earliest
earliest_from none (p ∷ ps) = earliest_from (if p.active then some p.deadline else none) ps
earliest_from (some d) (p ∷ ps) =
    earliest_from (some (if p.active && ltb p.deadline d then p.deadline else d)) ps

unfoldable pub next_deadline : SmpClient → Option ℕ
next_deadline c = elim c.deferred [ _ ∷ _ ↦ some 0 | [] ↦ earliest_from none c.pending ]

unfoldable pub in_flight : List Pending → ℕ
in_flight [] = 0
in_flight (p ∷ ps) = (if p.active then 1 else 0) + in_flight ps

-- Whether a header is the answer that the entry waits for, its sequence number aside.
unfoldable pub answers : Header → Pending → Bool
answers header entry =
    header.group == entry.group
    && header.command == entry.command
    && op_value header.op == op_value entry.expected_op

unfoldable pub on_transport_error : Error → SmpClient → SmpClient
on_transport_error e c = record c { last_transport_error = some e }

module _ (env : Environment) where
  -- `error.with_reason` replaces the reason; an empty one is the error's own.
  unfoldable pub interpret : Header → List ℕ → Result RawResponse
  interpret header payload =
      let response : RawResponse = record { header = header; payload = payload } in
      if is_user_defined header.group then ok response else elim (env.extract_mgmt_error payload) [
        | err e ↦ err e
        | ok outcome ↦ elim outcome.error [
          | none ↦ ok response
          | some m ↦ err (record (error protocol_error "smp client") {
            mgmt = some m;
            reason = outcome.reason;
          })
        ]
      ]

  -- `on_message()` from the count of the received messages on.
  unfoldable pub dispatch : Header → List ℕ → SmpClient → SmpClient
  unfolding complete
  dispatch header payload c = elim (find_by_seq header.seq c.pending) [
    | none ↦
        if is_retired c.retired header.seq
        then record c { stats = record (c.stats) { late = inc64 c.stats.late } }
        else record c { stats = record (c.stats) { unmatched = inc64 c.stats.unmatched } }
    | some slot ↦
        if not (answers header (entry_at c.pending slot))
        then record c { stats = record (c.stats) { mismatched = inc64 c.stats.mismatched } }
        else complete env slot (interpret header payload) c
  ]

  unfoldable pub on_message : Header → List ℕ → SmpClient → SmpClient
  on_message header payload c =
      dispatch header payload
        (record c { stats = record (c.stats) { received = inc64 c.stats.received } })

  -- The sink's calls of one `feed`.
  unfoldable pub on_messages : List Message → SmpClient → SmpClient
  on_messages [] c = c
  on_messages ((header, payload) ∷ ms) c = on_messages ms (on_message header payload c)

  unfoldable pub after_feed : Result (Unit {0}) → SmpClient → SmpClient
  after_feed (ok _) c = c
  after_feed (err e) c =
      fail_all env e (record c { stats = record (c.stats) { malformed = inc64 c.stats.malformed } })

  -- A callback calls nothing that reaches the assembler, so the sink's calls can follow the feed.
  unfoldable pub on_bytes : List ℕ → SmpClient → Option SmpClient
  on_bytes bytes c = elim (feed c.assembler bytes) [
    | stuck ↦ none
    | returned a ms r ↦ some (after_feed r (on_messages ms (record c { assembler = a })))
  ]

  unfoldable pub on_disconnected : Error → SmpClient → SmpClient
  on_disconnected e c =
      fail_all env e (record c { connected = false; assembler = reset c.assembler })

  unfoldable pub expire : RequestHandle → SmpClient → SmpClient
  unfolding complete
  expire handle c = elim (resolve c.pending handle) [
    | none ↦ c
    | some slot ↦
        complete env slot (fail timeout "smp client: no response")
          (record c { stats = record (c.stats) { timeouts = inc64 c.stats.timeouts } })
  ]

  unfoldable pub expire_all : List RequestHandle → SmpClient → SmpClient
  expire_all [] c = c
  expire_all (handle ∷ handles) c = expire_all handles (expire handle c)

  -- The fuel bounds the batches of each of the two deliveries.
  unfoldable pub poll : ℕ → ℕ → SmpClient → Option SmpClient
  poll fuel now c = elim (deliver_deferred env fuel c) [
    | none ↦ none
    | some c1 ↦ deliver_deferred env fuel (expire_all (expired_from now 0 c1.pending) c1)
  ]

  unfoldable pub rebind_transport : ℕ → SmpClient → SmpClient
  rebind_transport transport c =
      let failed = fail_all env (error disconnected "smp client: transport rebound") c in
      record failed { transport = transport; assembler = reset failed.assembler; connected = true }

  unfoldable pub shutdown : ℕ → SmpClient → Option SmpClient
  shutdown fuel c = elim (deliver_deferred env fuel c) [
    | none ↦ none
    | some c1 ↦
        deliver_deferred env fuel (fail_all env (error cancelled "smp client: destroyed") c1)
  ]
