-- ===== src/Smp/Client/Lifecycle.antt =====
-- The operations of the client, each a function of its state. What a callback calls while it runs
-- (requests, cancellations, deferred work) is done at once, in the order of the calls.
use mathlib.Core.Option
use smply.Prelude.{
  ℕ, zero, suc, ◌+◌, ◌%◌, ◌^◌, true, not, Option, none, some, List, [], ◌∷◌, ◌++◌, ltb,
  if◌then◌else◌, length, set,
}
use smply.Error.{
  Error, error, Result, ok, err, disconnected, message_too_large, invalid_state, cancelled,
}
use smply.Smp.Header.{Header, encode, response_to}
use smply.Smp.Client.State.{
  SmpClientConfig, RequestHandle, invalid_handle, RawResponse, RequestSpec, Pending, inc64, Work,
  failure, task, Event, completed, performed, Call, requests, cancels, defers, Environment,
  SmpClient,
}
use smply.Smp.Client.Retired.{retire}
use smply.Smp.Client.Table.{entry_at, free_slot, resolve, allocate_seq, detach}

abbrev pub cons_if : Option ℕ → List ℕ → List ℕ
cons_if none xs = xs
cons_if (some x) xs = x ∷ xs

-- `defer()`: the failure waits for the next poll, and the handle is invalid.
unfoldable pub defer : Option ℕ → Error → SmpClient → SmpClient
defer none e c = c
defer (some callback) e c = record c { deferred = c.deferred ++ failure callback e ∷ [] }

unfoldable pub defer_work : Option ℕ → SmpClient → SmpClient
defer_work none c = c
defer_work (some work) c = record c { deferred = c.deferred ++ task work ∷ [] }

unfoldable pub cancel : RequestHandle → SmpClient → SmpClient
unfolding defer detach
cancel handle c = elim (resolve c.pending handle) [
  | none ↦ c
  | some slot ↦
      let counted = record c { stats = record (c.stats) { cancelled = inc64 c.stats.cancelled } } in
      defer (entry_at c.pending slot).callback (error cancelled "smp client: cancelled")
        (detach slot counted)
]

-- What goes out for a request, and the entry that waits for its answer.
unfoldable pub packet_of : RequestSpec → ℕ → SmpClientConfig → List ℕ
packet_of spec seq config =
    let header : Header = record {
      op = spec.op;
      version = config.smp_version;
      flags = 0;
      length = length spec.payload % 2 ^ 16;
      group = spec.group;
      seq = seq;
      command = spec.command;
    } in
    encode header ++ spec.payload

unfoldable pub entry_of : RequestSpec → Option ℕ → ℕ → SmpClient → Pending
entry_of spec callback seq c = record {
  active = true;
  generation = c.next_generation;
  seq = seq;
  group = spec.group;
  command = spec.command;
  expected_op = response_to spec.op;
  deadline = c.clock + Option.get_or spec.timeout c.config.default_timeout;
  callback = callback;
}

module _ (env : Environment) where
  -- `request()` from the encoding of the header on.
  unfoldable pub send_request :
      RequestSpec → Option ℕ → ℕ → ℕ → SmpClient → SmpClient × RequestHandle
  unfolding defer retire
  send_request spec callback slot seq c =
      let packet = packet_of spec seq c.config in
      let offered = record c { sent_packets = packet ∷ c.sent_packets } in
      elim (env.transmit c.transport c.sent_packets packet) [
        | err e ↦ (
          defer callback e
              (record offered { retired = retire c.config.max_retired_seqs c.retired seq }),
          invalid_handle,
        )
        | ok _ ↦ (
          record offered {
            pending = set c.pending slot (entry_of spec callback seq c);
            next_generation = inc64 c.next_generation;
            stats = record (c.stats) { sent = inc64 c.stats.sent };
          },
          record { slot = slot; generation = c.next_generation },
        )
      ]

  unfoldable pub try_request : RequestSpec → Option ℕ → SmpClient → SmpClient × RequestHandle
  unfolding defer
  try_request spec callback c =
      if not c.connected
      then (defer callback (error disconnected "smp client: link is down") c, invalid_handle)
      else if ltb c.config.max_smp_payload (length spec.payload)
      then (
        defer callback (error message_too_large "smp client: payload exceeds limit") c,
        invalid_handle,
      )
      else elim (free_slot c.pending) [
        | none ↦ (
          defer callback (error invalid_state "smp client: too many requests in flight") c,
          invalid_handle,
        )
        | some slot ↦ elim (allocate_seq c) [
          | none ↦ (
            defer callback (error invalid_state "smp client: no free sequence number") c,
            invalid_handle,
          )
          | some seq ↦ send_request spec callback slot seq (record c { next_seq = (seq + 1) % 256 })
        ]
      ]

  unfoldable pub request : RequestSpec → Option ℕ → SmpClient → SmpClient × RequestHandle
  request spec callback c =
      try_request spec callback (record c { issued = cons_if callback c.issued })

  unfoldable pub perform : Call → SmpClient → SmpClient
  perform (requests spec callback) c = (request spec callback c).0
  perform (cancels handle) c = cancel handle c
  perform (defers work) c = defer_work work c

  unfoldable pub perform_all : List Call → SmpClient → SmpClient
  perform_all [] c = c
  perform_all (call ∷ calls) c = perform_all calls (perform call c)

  -- The application sees an event and reacts to it.
  unfoldable pub notify : Event → SmpClient → SmpClient
  notify event c = perform_all (env.react (event ∷ c.log)) (record c { log = event ∷ c.log })

  unfoldable pub invoke : Option ℕ → Result RawResponse → SmpClient → SmpClient
  unfolding notify
  invoke none result c = c
  invoke (some callback) result c = notify (completed callback result) c

  unfoldable pub complete : ℕ → Result RawResponse → SmpClient → SmpClient
  unfolding detach
  complete slot result c = invoke (entry_at c.pending slot).callback result (detach slot c)

  -- The loop of `fail_all()`, with the slots left and the one it is at.
  unfoldable pub fail_from : ℕ → ℕ → Error → SmpClient → SmpClient
  fail_from zero slot e c = c
  fail_from (suc left) slot e c =
      fail_from left (slot + 1) e
        (if (entry_at c.pending slot).active then complete slot (err e) c else c)

  unfoldable pub fail_all : Error → SmpClient → SmpClient
  fail_all e c = fail_from (length c.pending) 0 e c

  unfoldable pub do_work : Work → SmpClient → SmpClient
  unfolding notify
  do_work (failure callback e) c = notify (completed callback (err e)) c
  do_work (task work) c = notify (performed work) c

  unfoldable pub do_batch : List Work → SmpClient → SmpClient
  do_batch [] c = c
  do_batch (w ∷ ws) c = do_batch ws (do_work w c)

  -- The loop of `deliver_deferred()`, on fuel for its batches: `none` if there are more. An
  -- application whose deferred work always defers more keeps the code in it for ever.
  unfoldable pub deliver_deferred : ℕ → SmpClient → Option SmpClient
  deliver_deferred zero c = elim c.deferred [ [] ↦ some c | _ ∷ _ ↦ none ]
  deliver_deferred (suc fuel) c = elim c.deferred [
    | [] ↦ some c
    | w ∷ ws ↦ deliver_deferred fuel (do_batch (w ∷ ws) (record c { deferred = [] }))
  ]
