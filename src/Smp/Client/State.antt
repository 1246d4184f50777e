-- ===== src/Smp/Client/State.antt =====
-- The data of the client, and what it asks of the code around it.
-- Times are nanoseconds since an epoch, and `TimePoint::min()` is 0. A callback is a number that
-- names it; an empty `std::function` is `none`.
use smply.Prelude.{ℕ, ◌+◌, ◌%◌, ◌^◌, Bool, true, false, Option, none, List, [], max, replicate}
use smply.Error.{Error, MgmtError, Group, Result}
use smply.Smp.Header.{Operation, Version, read, Header}
use smply.Smp.Assembler.{MessageAssembler, new_assembler}

pub record SmpClientConfig : Type 0 where
  pub smp_version : Version
  pub default_timeout : ℕ
  pub max_smp_payload : ℕ
  pub max_assembly_bytes : ℕ
  pub max_in_flight : ℕ
  pub max_retired_seqs : ℕ

pub record RequestHandle : Type 0 where
  pub slot : ℕ
  pub generation : ℕ

abbrev pub invalid_handle : RequestHandle
invalid_handle = record { slot = 0; generation = 0 }

pub record RawResponse : Type 0 where
  pub header : Header
  pub payload : List ℕ

pub record RequestSpec : Type 0 where
  pub op : Operation
  pub group : Group
  pub command : ℕ
  pub payload : List ℕ
  pub timeout : Option ℕ

-- One outstanding request.
pub record Pending : Type 0 where
  pub active : Bool
  pub generation : ℕ
  pub seq : ℕ
  pub group : Group
  pub command : ℕ
  pub expected_op : Operation
  pub deadline : ℕ
  pub callback : Option ℕ

abbrev pub empty_slot : Pending
empty_slot = record {
  active = false;
  generation = 0;
  seq = 0;
  group = 0;
  command = 0;
  expected_op = read;
  deadline = 0;
  callback = none;
}

pub record SmpClientStats : Type 0 where
  pub sent : ℕ
  pub received : ℕ
  pub unmatched : ℕ
  pub late : ℕ
  pub mismatched : ℕ
  pub timeouts : ℕ
  pub cancelled : ℕ
  pub malformed : ℕ

abbrev pub no_stats : SmpClientStats
no_stats = record {
  sent = 0;
  received = 0;
  unmatched = 0;
  late = 0;
  mismatched = 0;
  timeouts = 0;
  cancelled = 0;
  malformed = 0;
}

-- uint64_t increment.
unfoldable pub inc64 : ℕ → ℕ
inc64 n = (n + 1) % 2 ^ 64

-- An entry of the deferred queue: a failure for a callback, or work of a layer above.
pub data Work : Type 0 where
  failure : ℕ → Error → Work
  task : ℕ → Work

-- The set of retired sequence numbers: a membership test and the ring that bounds it.
pub record RetiredSeqs : Type 0 where
  pub flags : ℕ → Bool
  pub ring : List ℕ
  pub head : ℕ

-- What the application sees: a callback with its result, or its own task.
pub data Event : Type 0 where
  completed : ℕ → Result RawResponse → Event
  performed : ℕ → Event

-- What a callback may call while it runs.
pub data Call : Type 0 where
  requests : RequestSpec → Option ℕ → Call
  cancels : RequestHandle → Call
  defers : Option ℕ → Call

-- `cbor::extract_mgmt_error`: the device's error, if the payload reports one, and its reason.
pub record MgmtOutcome : Type 0 where
  pub error : Option MgmtError
  pub reason : List ℕ

-- The code around the client. The application reacts to the newest of the events so far; the
-- transport answers to a packet, given those before it; the decoder reads a payload's error.
pub record Environment : Type 0 where
  pub react : List Event → List Call
  pub transmit : ℕ → List (List ℕ) → List ℕ → Result (Unit {0})
  pub extract_mgmt_error : List ℕ → Result MgmtOutcome

-- `sent_packets`, `issued` and `log` record what went to the transport, the callbacks handed in
-- with requests, and the events, newest first. `clock` is what `clock_->now()` reads.
pub record SmpClient : Type 0 where
  pub transport : ℕ
  pub clock : ℕ
  pub config : SmpClientConfig
  pub assembler : MessageAssembler
  pub pending : List Pending
  pub deferred : List Work
  pub retired : RetiredSeqs
  pub next_seq : ℕ
  pub next_generation : ℕ
  pub connected : Bool
  pub last_transport_error : Option Error
  pub stats : SmpClientStats
  pub sent_packets : List (List ℕ)
  pub issued : List ℕ
  pub log : List Event

unfoldable pub new_client : ℕ → ℕ → SmpClientConfig → SmpClient
new_client transport clock config = record {
  transport = transport;
  clock = clock;
  config = config;
  assembler =
      new_assembler
        (record { max_payload = config.max_smp_payload; max_buffer = config.max_assembly_bytes });
  pending = replicate (max 1 config.max_in_flight) empty_slot;
  deferred = [];
  retired = record { flags = λ _. false; ring = []; head = 0 };
  next_seq = 0;
  next_generation = 1;
  connected = true;
  last_transport_error = none;
  stats = no_stats;
  sent_packets = [];
  issued = [];
  log = [];
}
