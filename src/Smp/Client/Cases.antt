-- ===== src/Smp/Client/Cases.antt =====
-- The two ways in which `request()` ends: the failure is deferred, or the packet is sent.
use smply.Prelude.{
  ℕ, ◌+◌, ◌%◌, ◌≡◌, inl, inr, not, Option, some, ltb, length, Bool-cases, Option-cases,
}
use smply.Error.{Error}
use smply.Smp.Client.State.{RequestSpec, Environment, SmpClient}
use smply.Smp.Client.Table.{free_slot, allocate_seq}
use smply.Smp.Client.Lifecycle.{defer, send_request, try_request}

pub try_request_cases {ℓ} :
    (P : SmpClient → Type ℓ) (env : Environment) (spec : RequestSpec) (callback : Option ℕ)
    (c : SmpClient)
    → ((e : Error) → P (defer callback e c))
    → ((slot seq : ℕ)
        → free_slot c.pending ≡ some slot
        → allocate_seq c ≡ some seq
        → P (send_request env spec callback slot seq (record c { next_seq = (seq + 1) % 256 })).0)
    → P (try_request env spec callback c).0
unfolding try_request
try_request_cases P env spec callback c fails sends = elim (Bool-cases (not c.connected)) [
  | inl down ↦ rw (down, try_request) (fails _)
  | inr up ↦ elim (Bool-cases (ltb c.config.max_smp_payload (length spec.payload))) [
    | inl long ↦ rw (up, long, try_request) (fails _)
    | inr fits ↦ elim (Option-cases (free_slot c.pending)) [
      | inl full ↦ rw (up, fits, full, try_request) (fails _)
      | inr (slot, idle) ↦ elim (Option-cases (allocate_seq c)) [
        | inl taken ↦ rw (up, fits, idle, taken, try_request) (fails _)
        | inr (seq, found) ↦ rw (up, fits, idle, found, try_request) (sends slot seq idle found)
      ]
    ]
  ]
]
