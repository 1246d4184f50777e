-- ===== src/Image/Tlv/Local.antt =====
-- What the scan of the entries depends on.
use smply.Prelude.{ℕ, zero, suc, ◌+◌, ◌-◌, ◌≤◌, ◌<◌, ◌≡◌, refl, inl, inr, Option, arith}
use smply.Error.{Result, Result-cases}
use smply.Image.Source.{ImageSource, read_exact, load_le16}
use smply.Image.Values.{ImageHash}
use smply.Image.Header.{McubootImageInfo}
use smply.Image.Tlv.{TlvLayout, digest_at, visit_entry, scan_entry, scan}

-- Two sources that agree up to the end of the areas.
abbrev pub AgreeUpTo : ℕ → ImageSource → ImageSource → Type 0
AgreeUpTo end s t =
    (s.size ≡ t.size)
    × ((offset wanted : ℕ) → offset + wanted ≤ end → s.read offset wanted ≡ t.read offset wanted)

module _ (end : ℕ) (s t : ImageSource) (same : AgreeUpTo end s t) where
  read_exact_local :
      (offset wanted : ℕ)
      → offset + wanted ≤ end
      → read_exact s offset wanted ≡ read_exact t offset wanted
  unfolding read_exact
  read_exact_local offset wanted inside = rw (same.0, same.1 offset wanted inside) refl

  digest_at_local : (at size : ℕ) → at + size ≤ end → digest_at s at size ≡ digest_at t at size
  unfolding digest_at
  digest_at_local at size inside = rw (read_exact_local at size inside, digest_at) refl

  visit_entry_local :
      (offset type size : ℕ) (found : Option ImageHash)
      → offset + 4 + size ≤ end
      → visit_entry s offset type size found ≡ visit_entry t offset type size found
  unfolding visit_entry
  visit_entry_local offset type size found inside =
      ground (arith, digest_at_local (offset + 4) size inside)

  scan_entry_local :
      (layout : TlvLayout) (offset : ℕ) (found : Option ImageHash)
      (rest other : ℕ → Option ImageHash → Result (Option ImageHash))
      → layout.end ≡ end
      → offset < end
      → 4 ≤ end - offset
      → ((next : ℕ) (h : Option ImageHash) → rest next h ≡ other next h)
      → scan_entry s layout offset found rest ≡ scan_entry t layout offset found other
  unfolding scan_entry
  scan_entry_local layout offset found rest other ends before room go =
      let header = read_exact_local offset 4 (omega (arith, before, room)) in
      elim (Result-cases (read_exact t offset 4)) [
        | inr (e, failed) ↦ ground (arith, header, failed)
        | inl (raw, read) ↦
            let size = load_le16 raw 2 in
            let visit = visit_entry_local offset (load_le16 raw 0) size found in
            elim (Result-cases (visit_entry t offset (load_le16 raw 0) size found)) [
              | inr (e, failed) ↦ ground (arith, header, read, visit, failed, ends, before, room)
              | inl (h, visited) ↦ ground (
                arith,
                header,
                read,
                visit,
                visited,
                ends,
                before,
                room,
                go (offset + (4 + size)) h,
              )
            ]
      ]

  -- The scan depends on nothing beyond the end of the areas: two sources of one size that agree up
  -- to there have the same result, whatever else they hold.
  pub scan_local :
      (left : ℕ) (info : McubootImageInfo) (layout : TlvLayout) (offset : ℕ)
      (found : Option ImageHash)
      → layout.end ≡ end
      → scan left s info layout offset found ≡ scan left t info layout offset found
  unfolding scan
  scan_local zero info layout offset found ends = refl
  scan_local (suc left) info layout offset found ends =
      let entry : offset < end
          → 4 ≤ end - offset
          → scan_entry s layout offset found (scan left s info layout)
            ≡ scan_entry t layout offset found (scan left t info layout) =
        λ before room.
          scan_entry_local layout offset found _ _ ends before room
            (λ next h. scan_local left info layout next h ends) in
      ground (arith, ends, scan_local left info layout (offset + 4) found ends, entry)
