-- ===== src/Smp/Client/History.antt =====
-- What holds in every state that a client reaches, by the calls made on it since it was constructed.
use smply.Prelude.{
  true, ℕ, zero, suc, ◌+◌, ◌^◌, ◌≤◌, ◌<◌, ◌≡◌, refl, ◌≢◌, inl, inr, Option, none, some, List,
  if◌then◌else◌, length, replicate, max, Option-cases, arith,
}
use smply.Error.{Error}
use smply.Smp.Client.State.{
  SmpClientConfig, RequestHandle, RequestSpec, empty_slot, Environment, SmpClient, new_client,
}
use smply.Smp.Client.Retired.{count, is_retired, retired_few}
use smply.Smp.Client.Table.{entry_at, resolve}
use smply.Smp.Client.Lifecycle.{defer_work, request, cancel}
use smply.Smp.Client.Driving.{
  on_bytes, on_disconnected, on_transport_error, poll, rebind_transport, shutdown,
}
use smply.Smp.Client.Slots.{waiting, holders, resolve_found, active_inside}
use smply.Smp.Client.Progress.{
  finished, queued, balance, IsValid, Stale, Progress, Moves-refl, Moves-trans,
}
use smply.Smp.Client.Steps.{cancel-Progress, defer_work-Progress}
use smply.Smp.Client.Requests.{request-Progress}
use smply.Smp.Client.Reception.{
  on_bytes-Progress, on_disconnected-Progress, rebind_transport-Progress, poll-Progress,
  shutdown-Progress,
}

-- One call of the application, the transport or the clock.
pub data Does (env : Environment) : SmpClient → SmpClient → Type 0 where
  requesting :
      (spec : RequestSpec) (callback : Option ℕ) (c : SmpClient)
      → Does env c (request env spec callback c).0
  cancelling : (handle : RequestHandle) (c : SmpClient) → Does env c (cancel handle c)
  deferring : (work : Option ℕ) (c : SmpClient) → Does env c (defer_work work c)
  ticking : (now : ℕ) (c : SmpClient) → Does env c (record c { clock = now })
  polling : (fuel now : ℕ) (c d : SmpClient) → poll env fuel now c ≡ some d → Does env c d
  receiving : (bytes : List ℕ) (c d : SmpClient) → on_bytes env bytes c ≡ some d → Does env c d
  reporting : (e : Error) (c : SmpClient) → Does env c (on_transport_error e c)
  disconnecting : (e : Error) (c : SmpClient) → Does env c (on_disconnected env e c)
  rebinding : (transport : ℕ) (c : SmpClient) → Does env c (rebind_transport env transport c)
  ending : (fuel : ℕ) (c d : SmpClient) → shutdown env fuel c ≡ some d → Does env c d

pub data Leads (env : Environment) : SmpClient → SmpClient → Type 0 where
  here : (c : SmpClient) → Leads env c c
  next : (c d e : SmpClient) → Leads env c d → Does env d e → Leads env c e

ticking-Progress : (now : ℕ) (c : SmpClient) → Progress c (record c { clock = now })
ticking-Progress now c = record {
  balanced = λ k. omega arith;
  valid = λ v. v;
  stale = λ h v s. s;
  known = λ g v s. s;
  sent_more = omega arith;
  size = refl;
}

reporting-Progress : (e : Error) (c : SmpClient) → Progress c (on_transport_error e c)
unfolding on_transport_error
reporting-Progress e c = record {
  balanced = λ k. omega arith;
  valid = λ v. v;
  stale = λ h v s. s;
  known = λ g v s. s;
  sent_more = omega arith;
  size = refl;
}

Does-Progress : (env : Environment) (c d : SmpClient) → Does env c d → Progress c d
Does-Progress env _ _ (requesting spec callback c) = request-Progress env spec callback c
Does-Progress env _ _ (cancelling handle c) = cancel-Progress handle c
Does-Progress env _ _ (deferring work c) = defer_work-Progress work c
Does-Progress env _ _ (ticking now c) = ticking-Progress now c
Does-Progress env _ _ (polling fuel now c d h) = poll-Progress env fuel now c d h
Does-Progress env _ _ (receiving bytes c d h) = on_bytes-Progress env bytes c d h
Does-Progress env _ _ (reporting e c) = reporting-Progress e c
Does-Progress env _ _ (disconnecting e c) = on_disconnected-Progress env e c
Does-Progress env _ _ (rebinding transport c) = rebind_transport-Progress env transport c
Does-Progress env _ _ (ending fuel c d h) = shutdown-Progress env fuel c d h

pub Leads-Progress : (env : Environment) (c d : SmpClient) → Leads env c d → Progress c d
Leads-Progress env _ _ (here c) = Moves-refl c
Leads-Progress env _ _ (next c d e l s) =
    Moves-trans none c d e (Leads-Progress env c d l) (Does-Progress env d e s)

holders-empty : (seq n : ℕ) → holders seq (replicate n empty_slot) ≡ 0
unfolding holders
holders-empty seq zero = refl
holders-empty seq (suc n) = omega (arith, holders-empty seq n)

none_live : (slot n : ℕ) → (entry_at (replicate n empty_slot) slot).active ≢ true
none_live slot zero h = ground (arith, h)
none_live zero (suc n) h = ground (arith, h)
none_live (suc slot) (suc n) h = none_live slot n h

waiting-empty : (k n : ℕ) → waiting k (replicate n empty_slot) ≡ 0
unfolding waiting
waiting-empty k zero = refl
waiting-empty k (suc n) = omega (arith, waiting-empty k n)

module _ (env : Environment) (transport clock : ℕ) (config : SmpClientConfig) (c : SmpClient)
    (l : Leads env (new_client transport clock config) c) where
  -- The account of a client: each callback handed in with a request is, as often as it was handed
  -- in, run once, waiting for a response, or queued with a failure. None is lost and none runs twice.
  pub Leads-balanced : (k : ℕ) → count k c.issued ≡ balance k c
  unfolding new_client finished queued
  Leads-balanced k =
      omega
        (arith, (Leads-Progress env _ c l).balanced k, waiting-empty k (max 1 config.max_in_flight))

  pub Leads-IsValid : IsValid c
  unfolding new_client
  Leads-IsValid = (Leads-Progress env _ c l).valid (record {
    distinct = λ seq. omega (arith, holders-empty seq (max 1 config.max_in_flight));
    apart = λ seq h. holders-empty seq (max 1 config.max_in_flight);
    remembered = record { bounded = omega arith; head_inside = inr refl; flagged = λ seq. refl };
    counted = λ few. omega arith;
    older = λ slot live few. absurd (none_live slot (max 1 config.max_in_flight) live);
  })

  -- In every state that a client reaches each sequence number is that of one outstanding request,
  -- or retired, or neither, and never both or of two requests; and of different numbers that are
  -- retired there are no more than the configuration allows.
  pub Leads-distinct :
      ((seq : ℕ) → holders seq c.pending + (if is_retired c.retired seq then 1 else 0) ≤ 1)
      × ((seqs : List ℕ)
          → ((seq : ℕ) → count seq seqs ≤ (if is_retired c.retired seq then 1 else 0))
          → length seqs ≤ c.config.max_retired_seqs)
  Leads-distinct = (
    λ seq. ground (arith, Leads-IsValid.distinct seq, Leads-IsValid.apart seq),
    λ seqs. retired_few c.config.max_retired_seqs c.retired seqs Leads-IsValid.remembered,
  )

pub resolve-Stale :
    (c : SmpClient) (h : RequestHandle)
    → h.generation ≢ 0
    → h.generation < c.next_generation
    → resolve c.pending h ≡ none
    → Stale h c
unfolding resolve
resolve-Stale c h real older gone few =
    (older, λ live. ground (arith, live, real, gone, active_inside c.pending h.slot live))

pub Stale-resolve :
    (c : SmpClient) (h : RequestHandle)
    → length c.sent_packets + 1 < 2 ^ 64
    → Stale h c
    → resolve c.pending h ≡ none
unfolding resolve
Stale-resolve c h few s = elim (Option-cases (resolve c.pending h)) [
  | inl nothing ↦ nothing
  | inr (slot, found) ↦
      let (at, live, same) = resolve_found c.pending h slot found in
      absurd ((s few).1 (ground (arith, at, live)) (ground (arith, at, same)))
]

-- A handle that was given out and whose request is not outstanding stays inert: whatever is called
-- afterwards, and even after its slot and number are in use again, it refers to no request and
-- cancelling through it does nothing, as long as fewer than 2 ^ 64 - 1 packets have been sent.
pub Leads-cancel :
    (env : Environment) (transport clock : ℕ) (config : SmpClientConfig) (c d : SmpClient)
    (h : RequestHandle)
    → Leads env (new_client transport clock config) c
    → h.generation ≢ 0
    → h.generation < c.next_generation
    → resolve c.pending h ≡ none
    → Leads env c d
    → length d.sent_packets + 1 < 2 ^ 64
    → (resolve d.pending h ≡ none) × (cancel h d ≡ d)
unfolding cancel
Leads-cancel env transport clock config c d h before real older gone after few =
    let stale =
      (Leads-Progress env c d after).stale h (Leads-IsValid env transport clock config c before)
        (resolve-Stale c h real older gone) in
    let nothing = Stale-resolve d h few stale in (nothing, ground (arith, nothing))
