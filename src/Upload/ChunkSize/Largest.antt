-- ===== src/Upload/ChunkSize/Largest.antt =====
-- src/groups/image/upload_session.cpp: the chunk size against the packets that carry a chunk.
use smply.Prelude.{ℕ, ◌+◌, ◌-◌, ◌≤◌, ◌≡◌, ◌⊎◌, min, ltb, if◌then◌else◌, arith}
use smply.Error.{Result, ok}
use smply.Upload.Session.{sub64}
use smply.Upload.ChunkSize.{
  FirstPacketFields, ChunkBudget, bstr_header_size, device_budget, first_packet_overhead,
  compute_chunk_size,
}

-- The size of a first packet with `n` bytes of data. The probe is its payload with no data, which
-- it has as a header of one byte; the data has the header that its own length needs.
abbrev pub first_packet_size : ℕ → ℕ → ℕ
first_packet_size probe_size n = 8 + (probe_size - 1) + bstr_header_size n + n

-- A first packet with `n` bytes of data is within the device's buffer, the transport's limit and
-- the configured one.
pub record Fits (budget : ChunkBudget) (probe_size n : ℕ) : Type 0 where
  pub within_configured : n ≤ budget.configured_max
  pub within_device :
      first_packet_size probe_size n + budget.transport_message_overhead ≤ device_budget budget
  pub within_transport :
      (budget.transport_max_message_size ≡ 0)
      ⊎ (first_packet_size probe_size n ≤ budget.transport_max_message_size)

abbrev capacity : ChunkBudget → ℕ → ℕ
capacity budget probe_size =
    let device = device_budget budget - budget.transport_message_overhead in
    let message_budget =
      if ltb 0 budget.transport_max_message_size
      then min device budget.transport_max_message_size
      else device in
    min (message_budget - (8 + (probe_size - 1 + 3))) budget.configured_max

module _ (probe : FirstPacketFields → Result ℕ) where
  reserved_lem :
      (fields : FirstPacketFields) (probe_size : ℕ)
      → probe fields ≡ ok probe_size
      → 1 ≤ probe_size
      → probe_size ≤ 256
      → first_packet_overhead probe fields ≡ probe_size - 1 + 3
  unfolding first_packet_overhead sub64
  reserved_lem fields probe_size probed some_bytes small = ground (arith, probed, some_bytes, small)

  -- Let the probe be written, and no chunk be configured beyond 65535 bytes. A chunk size that is
  -- computed is 32 bytes or more and a first packet with it fits all three limits. It is the
  -- largest but for the data's header, for which three bytes are reserved whatever the length: a
  -- chunk that fits has no more bytes, its own header included, than the computed one with three.
  -- If a chunk of 33 bytes or more fits, then a chunk size is computed and not refused.
  pub compute_chunk_size_lem :
      (budget : ChunkBudget) (fields : FirstPacketFields) (probe_size : ℕ)
      → probe fields ≡ ok probe_size
      → 1 ≤ probe_size
      → probe_size ≤ 256
      → budget.configured_max ≤ 65535
      → ((n : ℕ)
          → compute_chunk_size probe budget fields ≡ ok n
          → (32 ≤ n)
            × Fits budget probe_size n
            × ((m : ℕ) → Fits budget probe_size m → m + bstr_header_size m ≤ n + 3))
        × ((m : ℕ)
            → 33 ≤ m
            → Fits budget probe_size m
            → (n : ℕ) × (compute_chunk_size probe budget fields ≡ ok n))
  unfolding compute_chunk_size
  compute_chunk_size_lem budget fields probe_size probed some_bytes small word =
      let reserved = reserved_lem fields probe_size probed some_bytes small in
      (
        λ n h. (
          ground (arith, h, word, reserved),
          record {
            within_configured = ground (arith, h, word, reserved);
            within_device = ground (arith, h, word, reserved);
            within_transport = ground (arith, h, word, reserved);
          },
          λ m f.
              ground (
                arith, h, word, reserved, f.within_configured, f.within_device, f.within_transport,
              ),
        ),
        λ m enough f. (
          capacity budget probe_size,
          ground (
            arith, enough, word, reserved, f.within_configured, f.within_device, f.within_transport,
          ),
        ),
      )
