-- ===== src/Smp/Client/Requests.antt =====
-- Issuing requests, and all that a callback may call, keeps the account, the table and the stale
-- handles.
use smply.Prelude.{
  ℕ_discrete, true, ℕ, ◌+◌, ◌%◌, ◌<◌, ◌≡◌, refl, inl, inr, false, Option, none, List, [], ◌∷◌,
  length, set, length-set, arith,
}
use smply.Error.{Result-cases}
use smply.Smp.Client.State.{
  RequestSpec, SmpClientStats, inc64, Call, requests, cancels, defers, Environment, SmpClient,
}
use smply.Smp.Client.Retired.{retire, retire-IsRing}
use smply.Smp.Client.Table.{entry_at}
use smply.Smp.Client.Lifecycle.{
  cons_if, packet_of, entry_of, send_request, try_request, request, perform, perform_all,
}
use smply.Smp.Client.Slots.{holders, waiting-set, holders-set, free_slot_found}
use smply.Smp.Client.Progress.{Moves, Progress, Moves-refl, Moves-trans, retire_only, entry-set}
use smply.Smp.Client.Cases.{try_request_cases}
use smply.Smp.Client.Steps.{
  allocate_seq_lem, defer-Moves, defer_work-Progress, numbered-Progress, cancel-Progress,
  count-cons_if,
}

-- The transport refused the packet.
refused-Progress :
    (packet : List ℕ) (seq : ℕ) (c : SmpClient)
    → holders seq c.pending ≡ 0
    → Progress c (record c {
      sent_packets = packet ∷ c.sent_packets;
      retired = retire c.config.max_retired_seqs c.retired seq;
    })
refused-Progress packet seq c free = record {
  balanced = λ k. omega arith;
  valid = λ v. record {
    distinct = v.distinct;
    apart = λ j h. elim (retire_only c.config.max_retired_seqs c.retired seq j h) [
      | inl was ↦ v.apart j was
      | inr same ↦ rw same free
    ];
    remembered = retire-IsRing c.config.max_retired_seqs c.retired seq v.remembered;
    counted = λ few. omega (arith, few, v.counted);
    older = λ j live few. v.older j live (omega (arith, few));
  };
  stale = λ h v s few. s (omega (arith, few));
  known = λ g v s few. s (omega (arith, few));
  sent_more = omega arith;
  size = refl;
}

module _ (spec : RequestSpec) (callback : Option ℕ) (slot seq : ℕ) (c : SmpClient) where
  sent : SmpClientStats → List ℕ → SmpClient
  sent stats packet = record c {
    sent_packets = packet ∷ c.sent_packets;
    pending = set c.pending slot (entry_of spec callback seq c);
    next_generation = inc64 c.next_generation;
    stats = stats;
  }

  sent-Moves :
      (stats : SmpClientStats) (packet : List ℕ)
      → slot < length c.pending
      → (entry_at c.pending slot).active ≡ false
      → holders seq c.pending ≡ 0
      → c.retired.flags seq ≡ false
      → Moves callback c (sent stats packet)
  unfolding entry_of sent inc64
  sent-Moves stats packet inside idle free fresh = record {
    balanced = λ k.
        ground (arith, idle, waiting-set k c.pending slot (entry_of spec callback seq c) inside);
    valid = λ v. record {
      distinct = λ j. ground (
        arith,
        idle,
        free,
        v.distinct j,
        holders-set j c.pending slot (entry_of spec callback seq c) inside,
      );
      apart = λ j h. ground (
        arith,
        idle,
        h,
        fresh,
        v.apart j h,
        holders-set j c.pending slot (entry_of spec callback seq c) inside,
      );
      remembered = v.remembered;
      counted = λ few. omega (arith, few, v.counted);
      older = λ j live few.
          let at = entry-set c.pending slot j (entry_of spec callback seq c) inside in
          let bound = v.counted (omega (arith, few)) in
          elim (ℕ_discrete j slot) [
            | yes new ↦ (ground (arith, at, new, bound), ground (arith, at, new, bound, few))
            | no old ↦
                let was : (entry_at c.pending j).active ≡ true = ground (arith, at, old, live) in
                let (real, before) = v.older j was (omega (arith, few)) in
                (ground (arith, at, old, real), ground (arith, at, old, before, bound, few))
          ];
    };
    stale = λ h v s few.
        let (older, other) = s (omega (arith, few)) in
        let bound = v.counted (omega (arith, few)) in
        (
          omega (arith, few, older, bound),
          ground (
            arith,
            older,
            other,
            entry-set c.pending slot h.slot (entry_of spec callback seq c) inside,
          ),
        );
    known = λ g v s few.
        let before = s (omega (arith, few)) in
        let bound = v.counted (omega (arith, few)) in omega (arith, few, before, bound);
    sent_more = omega arith;
    size = length-set c.pending slot (entry_of spec callback seq c);
  }

module _ (env : Environment) where
  send_request-Moves :
      (spec : RequestSpec) (callback : Option ℕ) (slot seq : ℕ) (c : SmpClient)
      → slot < length c.pending
      → (entry_at c.pending slot).active ≡ false
      → holders seq c.pending ≡ 0
      → c.retired.flags seq ≡ false
      → Moves callback c (send_request env spec callback slot seq c).0
  unfolding send_request sent
  send_request-Moves spec callback slot seq c inside idle free fresh =
      let packet = packet_of spec seq c.config in
      elim (Result-cases (env.transmit c.transport c.sent_packets packet)) [
        | inl (u, taken) ↦
            rw (taken, send_request)
              (sent-Moves spec callback slot seq c _ packet inside idle free fresh)
        | inr (e, refused) ↦
            rw (refused, send_request)
              (Moves-trans callback c _ _ (refused-Progress packet seq c free)
                (defer-Moves callback e _))
      ]

  try_request-Moves :
      (spec : RequestSpec) (callback : Option ℕ) (c : SmpClient)
      → Moves callback c (try_request env spec callback c).0
  try_request-Moves spec callback c =
      try_request_cases (Moves callback c) env spec callback c (λ e. defer-Moves callback e c)
        (λ slot seq idle found.
          let (inside, dormant) = free_slot_found c.pending slot idle in
          let (free, fresh, _) = allocate_seq_lem c seq found in
          let c1 = record c { next_seq = (seq + 1) % 256 } in
          Moves-trans callback c c1 _ (numbered-Progress ((seq + 1) % 256) c)
            (send_request-Moves spec callback slot seq c1 inside dormant free fresh))

  pub request-Progress :
      (spec : RequestSpec) (callback : Option ℕ) (c : SmpClient)
      → Progress c (request env spec callback c).0
  unfolding request
  request-Progress spec callback c =
      let m = try_request-Moves spec callback (record c { issued = cons_if callback c.issued }) in
      record {
        balanced = λ k. omega (arith, m.balanced k, count-cons_if k callback c.issued);
        valid = λ v. m.valid v;
        stale = λ h v s. m.stale h v s;
        known = λ g v s. m.known g v s;
        sent_more = m.sent_more;
        size = m.size;
      }

  pub perform-Progress : (call : Call) (c : SmpClient) → Progress c (perform env call c)
  unfolding perform
  perform-Progress (requests spec callback) c = request-Progress spec callback c
  perform-Progress (cancels handle) c = cancel-Progress handle c
  perform-Progress (defers work) c = defer_work-Progress work c

  pub perform_all-Progress :
      (calls : List Call) (c : SmpClient) → Progress c (perform_all env calls c)
  unfolding perform_all
  perform_all-Progress [] c = Moves-refl c
  perform_all-Progress (call ∷ calls) c =
      Moves-trans none c (perform env call c) _ (perform-Progress call c)
        (perform_all-Progress calls (perform env call c))
