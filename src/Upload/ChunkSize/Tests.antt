-- ===== src/Upload/ChunkSize/Tests.antt =====
-- The chunk size over a serial link to a device with a buffer of 384 bytes.
use smply.Prelude.{ℕ, ◌+◌, ◌≤◌, ◌≡◌, refl, false, none, some, arith}
use smply.Error.{Result, ok}
use smply.Upload.Session.{sub64}
use smply.Upload.ChunkSize.{
  FirstPacketFields, ChunkBudget, bstr_header_size, device_budget, first_packet_overhead,
  compute_chunk_size,
}
use smply.Upload.ChunkSize.Largest.{Fits, compute_chunk_size_lem}

abbrev whole_image : FirstPacketFields
whole_image = record { image_size = 40000; image = 0; sha = none; upgrade_only = false }

abbrev serial : ChunkBudget
serial = record {
  server_buf_size = some 384;
  transport_max_message_size = 0;
  transport_message_overhead = 4;
  configured_max = 512;
}

abbrev probe_of_31 : FirstPacketFields → Result ℕ
probe_of_31 fields = ok 31

compute_chunk_size_lem_example :
    ((n : ℕ)
      → compute_chunk_size probe_of_31 serial whole_image ≡ ok n
      → (32 ≤ n) × Fits serial 31 n × ((m : ℕ) → Fits serial 31 m → m + bstr_header_size m ≤ n + 3))
    × ((m : ℕ)
        → 33 ≤ m
        → Fits serial 31 m
        → (n : ℕ) × (compute_chunk_size probe_of_31 serial whole_image ≡ ok n))
compute_chunk_size_lem_example =
    compute_chunk_size_lem probe_of_31 serial whole_image 31 refl (omega arith) (omega arith)
      (omega arith)

-- The limits of that link leave 339 bytes.
computed : compute_chunk_size probe_of_31 serial whole_image ≡ ok 339
unfolding compute_chunk_size first_packet_overhead device_budget sub64
computed = refl
