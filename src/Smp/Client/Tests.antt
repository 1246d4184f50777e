-- ===== src/Smp/Client/Tests.antt =====
-- The theorems on the client at a small configuration, with an application that asks once more
-- when its first callback runs.
use mathlib.Core.Option
use smply.Prelude.{
  ℕ, zero, suc, ◌+◌, ◌≤◌, ◌≡◌, refl, ◌⊎◌, true, false, none, some, List, [], ◌∷◌, if◌then◌else◌,
  length, arith,
}
use smply.Error.{Error, error, disconnected, ok}
use smply.Smp.Header.{read, read_response, v1, Header}
use smply.Smp.Client.State.{
  SmpClientConfig, RequestHandle, RequestSpec, SmpClientStats, Event, Call, requests, Environment,
  SmpClient, new_client, inc64,
}
use smply.Smp.Client.Retired.{count, is_retired, retire}
use smply.Smp.Client.Table.{
  entry_at, find_by_seq, free_slot, resolve, allocate_from, allocate_seq, detach,
}
use smply.Smp.Client.Lifecycle.{
  defer, packet_of, entry_of, send_request, try_request, request, cancel, perform, perform_all,
  notify, invoke, complete, fail_from, fail_all, deliver_deferred, do_batch, do_work,
}
use smply.Smp.Client.Driving.{
  answers, on_message, on_disconnected, poll, rebind_transport, in_flight, expired_from, expire_all,
  expire, shutdown,
}
use smply.Smp.Client.Slots.{holders}
use smply.Smp.Client.Progress.{finished, balance}
use smply.Smp.Client.History.{
  Leads, here, next, requesting, disconnecting, rebinding, Leads-balanced, Leads-distinct,
  Leads-cancel,
}
use smply.Smp.Client.Matching.{on_message_ignored}
use smply.Smp.Client.Disconnecting.{on_disconnected_lem}
use smply.Smp.Client.Expiry.{poll_expires}
use smply.Smp.Client.Settling.{poll_settles}

abbrev small : SmpClientConfig
small = record {
  smp_version = v1;
  default_timeout = 5;
  max_smp_payload = 64;
  max_assembly_bytes = 80;
  max_in_flight = 2;
  max_retired_seqs = 4;
}

abbrev echo : RequestSpec
echo = record { op = read; group = 0; command = 0; payload = 160 ∷ []; timeout = none }

abbrev asks_again : List Event → List Call
asks_again (e ∷ []) = requests echo (some 8) ∷ []
asks_again _ = []

abbrev bench : Environment
bench = record {
  react = asks_again;
  transmit = λ t packets packet. ok tt;
  extract_mgmt_error = λ payload. ok (record { error = none; reason = [] });
}

abbrev fresh_client : SmpClient
fresh_client = new_client 0 0 small

abbrev asked : SmpClient
asked = (request bench echo (some 7) fresh_client).0

asked_history : Leads bench fresh_client asked
asked_history =
    next fresh_client fresh_client asked (here fresh_client) (requesting echo (some 7) fresh_client)

abbrev link_down : Error
link_down = error disconnected "test: unplugged"

-- The first of its callbacks asks for one more request, which nothing follows.
asks_once : (es : List Event) → 2 ≤ length es → asks_again es ≡ []
asks_once [] h = absurd (omega (arith, h))
asks_once (e ∷ []) h = absurd (omega (arith, h))
asks_once (e ∷ f ∷ es) h = refl

poll_settles_example :
    (d : SmpClient) × (poll bench 4 9 (on_disconnected bench link_down asked) ≡ some d)
    × ((k : ℕ) → count k d.issued ≡ finished k d.log)
poll_settles_example = poll_settles bench 0 0 small asked link_down 2 9 asked_history asks_once

on_disconnected_lem_example :
    ((on_disconnected bench link_down asked).connected ≡ false)
    × (in_flight (on_disconnected bench link_down asked).pending ≡ 0)
on_disconnected_lem_example = on_disconnected_lem bench link_down asked

Leads-balanced_example : count 7 asked.issued ≡ balance 7 asked
Leads-balanced_example = Leads-balanced bench 0 0 small asked asked_history 7

Leads-distinct_example :
    ((seq : ℕ) → holders seq asked.pending + (if is_retired asked.retired seq then 1 else 0) ≤ 1)
    × ((seqs : List ℕ)
        → ((seq : ℕ) → count seq seqs ≤ (if is_retired asked.retired seq then 1 else 0))
        → length seqs ≤ asked.config.max_retired_seqs)
Leads-distinct_example = Leads-distinct bench 0 0 small asked asked_history

-- The link goes down and comes back, and another request takes the slot of the first.
abbrev unplugged : SmpClient
unplugged = on_disconnected bench link_down asked

abbrev replugged : SmpClient
replugged = (request bench echo (some 9) (rebind_transport bench 1 unplugged)).0

abbrev first_handle : RequestHandle
first_handle = record { slot = 0; generation = 1 }

unplugged_history : Leads bench fresh_client unplugged
unplugged_history = next fresh_client asked unplugged asked_history (disconnecting link_down asked)

replugged_history : Leads bench unplugged replugged
replugged_history =
    next unplugged (rebind_transport bench 1 unplugged) replugged
      (next unplugged unplugged _ (here unplugged) (rebinding 1 unplugged))
      (requesting echo (some 9) (rebind_transport bench 1 unplugged))

Leads-cancel_example :
    (resolve replugged.pending first_handle ≡ none) × (cancel first_handle replugged ≡ replugged)
unfolding new_client request try_request send_request packet_of entry_of defer free_slot
    allocate_seq allocate_from find_by_seq retire inc64 on_disconnected fail_all fail_from complete
    detach invoke notify perform perform_all rebind_transport resolve
Leads-cancel_example =
    Leads-cancel bench 0 0 small unplugged replugged first_handle unplugged_history (omega arith)
      (omega arith) refl replugged_history (omega arith)

abbrev reply : Header
reply = record {
  op = read_response;
  version = v1;
  flags = 0;
  length = 1;
  group = 0;
  seq = 0;
  command = 0;
}

-- The same for a command that nobody asked for.
abbrev stray : Header
stray = record reply { command = 1 }

stray-answers_none :
    (slot : ℕ)
    → (entry_at asked.pending slot).active ≡ true
    → (entry_at asked.pending slot).seq ≡ 0
    → answers stray (entry_at asked.pending slot) ≡ false
unfolding new_client request try_request send_request packet_of entry_of free_slot allocate_seq
    allocate_from find_by_seq answers
stray-answers_none zero live same = refl
stray-answers_none (suc zero) live same = absurd (ground (arith, live))
stray-answers_none (suc (suc slot)) live same = absurd (ground (arith, live))

on_message_ignored_example :
    (stats : SmpClientStats) × (on_message bench stray [] asked ≡ record asked { stats = stats })
    × ((stats ≡ record (asked.stats) {
      received = inc64 asked.stats.received;
      unmatched = inc64 asked.stats.unmatched;
    })
        ⊎ (stats ≡ record (asked.stats) {
          received = inc64 asked.stats.received;
          late = inc64 asked.stats.late;
        })
        ⊎ (stats ≡ record (asked.stats) {
          received = inc64 asked.stats.received;
          mismatched = inc64 asked.stats.mismatched;
        }))
on_message_ignored_example = on_message_ignored bench stray [] asked stray-answers_none

-- At time 9 the request of time 0 is overdue, and its callback asks again.
abbrev polled : SmpClient
polled = Option.get_or (poll bench 4 9 asked) asked

poll_expires_example : resolve polled.pending first_handle ≡ none
unfolding new_client request try_request send_request packet_of entry_of free_slot allocate_seq
    allocate_from find_by_seq poll deliver_deferred do_batch do_work expired_from expire_all expire
    resolve complete detach retire invoke notify perform perform_all defer inc64
poll_expires_example =
    poll_expires bench 0 0 small asked polled 4 9 0 asked_history refl refl refl (omega arith)
      (omega arith)

-- The application asks again while the client ends: that request takes the slot just freed, which
-- the loop of `fail_all()` has passed.
shutdown_leaves_one :
    (c : SmpClient) × (shutdown bench 4 asked ≡ some c) × (in_flight c.pending ≡ 1)
unfolding new_client request try_request send_request packet_of entry_of free_slot allocate_seq
    allocate_from find_by_seq shutdown deliver_deferred do_batch do_work fail_all fail_from complete
    detach retire invoke notify perform perform_all defer inc64 in_flight
shutdown_leaves_one = (Option.get_or (shutdown bench 4 asked) asked, refl, refl)

-- The same while a transport is replaced: the new request went to the old transport.
rebind_leaves_one :
    ((rebind_transport bench 1 asked).transport ≡ 1)
    × (in_flight (rebind_transport bench 1 asked).pending ≡ 1)
unfolding new_client request try_request send_request packet_of entry_of free_slot allocate_seq
    allocate_from find_by_seq rebind_transport fail_all fail_from complete detach retire invoke
    notify perform perform_all defer inc64 in_flight
rebind_leaves_one = (refl, refl)
