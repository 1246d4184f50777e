-- ===== src/Upload/ChunkSize.antt =====
-- src/groups/image/upload_session.cpp: how much of the image goes into one packet.
use smply.Prelude.{
  ℕ, ◌+◌, ◌-◌, ◌%◌, ◌^◌, Bool, Option, none, some, List, min, ltb, leb, if◌then◌else◌,
}
use smply.Error.{Result, ok, err, fail, message_too_large}
use smply.Smp.Header.{header_size}
use smply.Upload.Session.{sub64}
pub mod Largest
mod Tests

pub record FirstPacketFields : Type 0 where
  pub image_size : ℕ
  pub image : ℕ
  pub sha : Option (List ℕ)
  pub upgrade_only : Bool

pub record ChunkBudget : Type 0 where
  pub server_buf_size : Option ℕ
  pub transport_max_message_size : ℕ
  pub transport_message_overhead : ℕ
  pub configured_max : ℕ

abbrev pub probe_buffer_size : ℕ
probe_buffer_size = 256

abbrev pub upload_chunk_max : ℕ
upload_chunk_max = 512

abbrev pub upload_chunk_min : ℕ
upload_chunk_min = 32

abbrev pub default_smp_message_budget : ℕ
default_smp_message_budget = 256

abbrev pub bstr_header_size : ℕ → ℕ
bstr_header_size length =
    if ltb length 24 then 1 else if leb length 0xff then 2 else if leb length 0xffff then 3 else 5

abbrev pub chunk_data_header_size : ℕ
chunk_data_header_size = bstr_header_size upload_chunk_max

-- The device's budget, or the default that stands in for it.
unfoldable pub device_budget : ChunkBudget → ℕ
device_budget budget = elim budget.server_buf_size [
  | none ↦ default_smp_message_budget
  | some size ↦ if ltb 0 size then size else default_smp_message_budget
]

-- The parameter is the size of the packet with these fields and an empty `data`, as the CBOR
-- encoder writes it into the probe's buffer.
module _ (probe : FirstPacketFields → Result ℕ) where
  unfoldable pub first_packet_overhead : FirstPacketFields → ℕ
  first_packet_overhead fields = elim (probe fields) [
    | err e ↦ probe_buffer_size
    | ok size ↦ sub64 size 1 + chunk_data_header_size
  ]

  unfoldable pub compute_chunk_size : ChunkBudget → FirstPacketFields → Result ℕ
  compute_chunk_size budget fields =
      let device = device_budget budget - budget.transport_message_overhead in
      let message_budget =
        if ltb 0 budget.transport_max_message_size
        then min device budget.transport_max_message_size
        else device in
      let overhead = header_size + first_packet_overhead fields in
      let capped = min (message_budget - overhead) budget.configured_max in
      if leb (device_budget budget) budget.transport_message_overhead
      then fail message_too_large "upload: no room for a chunk"
      else if leb message_budget overhead
      then fail message_too_large "upload: no room for a chunk"
      else if ltb capped upload_chunk_min
      then fail message_too_large "upload: chunk below the 32-byte minimum"
      else ok (capped % 2 ^ 32)
