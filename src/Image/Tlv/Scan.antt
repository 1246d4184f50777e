-- ===== src/Image/Tlv/Scan.antt =====
-- What the scan of the entries finds.
use smply.Prelude.{
  ℕ, zero, suc, ◌+◌, ◌-◌, ◌≤◌, ◌<◌, ◌≡◌, refl, sym, subst, ◌∙◌, ◌⊎◌, inl, inr, Bool, true, false,
  ◌&&◌, not, Option, none, some, List, ltb, ◌==◌, Bool-cases, Option-cases, arith,
}
use smply.Error.{Result, ok, Result-cases}
use smply.Image.Source.{ImageSource, read_exact, load_le16}
use smply.Image.Values.{ImageHash, hash_from}
use smply.Image.Header.{McubootImageInfo}
use smply.Image.Tlv.{
  hash_tlv_for, TlvLayout, resolve_layout, digest_at, visit_entry, scan_entry, scan,
  find_image_tlv_hash,
}

-- Whether the header of the second area stands there.
abbrev pub at_second : McubootImageInfo → TlvLayout → ℕ → Bool
at_second info layout at = not (info.protected_tlv_size == 0) && at == layout.protected_end

-- Where an entry of the areas starts, or the areas end: after the header of the first area, after
-- an entry, and after the header of the second area, which stands where the protected area ends.
pub data Boundary (source : ImageSource) (info : McubootImageInfo) (layout : TlvLayout)
    : ℕ → Type 0 where
  first_entry : Boundary source info layout layout.first
  second_area :
      {at : ℕ}
      → Boundary source info layout at
      → at_second info layout at ≡ true
      → Boundary source info layout (at + 4)
  after_entry :
      {at : ℕ} {raw : List ℕ}
      → Boundary source info layout at
      → at_second info layout at ≡ false
      → read_exact source at 4 ≡ ok raw
      → at + 4 + load_le16 raw 2 ≤ layout.end
      → Boundary source info layout (at + (4 + load_le16 raw 2))

pub first_below :
    {source : ImageSource} {info : McubootImageInfo} {layout : TlvLayout} {at : ℕ}
    → Boundary source info layout at
    → layout.first ≤ at
first_below first_entry = omega arith
first_below (second_area before here) = omega (arith, first_below before)
first_below (after_entry before here read inside) = omega (arith, first_below before)

-- The entry of a hash in the areas: it starts where an entry does, its type is that of a hash, its
-- length the type's, and the hash is what the image has after the entry's header.
pub record HoldsHash (source : ImageSource) (info : McubootImageInfo) (layout : TlvLayout)
    (h : ImageHash) : Type 0 where
  pub at : ℕ
  pub raw : List ℕ
  pub digest : List ℕ
  pub starts : Boundary source info layout at
  pub is_entry : at_second info layout at ≡ false
  pub after_first : layout.first ≤ at
  pub header_read : read_exact source at 4 ≡ ok raw
  pub typed : hash_tlv_for (load_le16 raw 0) ≡ some (load_le16 raw 2)
  pub inside : at + 4 + load_le16 raw 2 ≤ layout.end
  pub digest_read : read_exact source (at + 4) (load_le16 raw 2) ≡ ok digest
  pub taken : hash_from digest ≡ ok h

-- What a hash that the scan gives back is: the digest of an entry in the areas.
visit_sound :
    (source : ImageSource) (info : McubootImageInfo) (layout : TlvLayout) (offset : ℕ)
    (raw : List ℕ) (h : ImageHash)
    → Boundary source info layout offset
    → at_second info layout offset ≡ false
    → read_exact source offset 4 ≡ ok raw
    → offset + 4 + load_le16 raw 2 ≤ layout.end
    → visit_entry source offset (load_le16 raw 0) (load_le16 raw 2) none ≡ ok (some h)
    → HoldsHash source info layout h
unfolding visit_entry digest_at
visit_sound source info layout offset raw h starts entry read inside got =
    elim (Option-cases (hash_tlv_for (load_le16 raw 0))) [
      | inl other ↦ absurd (ground (arith, other, got))
      | inr (expected, typed) ↦
          elim (Result-cases (read_exact source (offset + 4) (load_le16 raw 2))) [
            | inr (e, failed) ↦ absurd (ground (arith, typed, failed, got))
            | inl (digest, digest_read) ↦ elim (Result-cases (hash_from digest)) [
              | inr (e, failed) ↦ absurd (ground (arith, typed, digest_read, failed, got))
              | inl (taken, hashed) ↦ record {
                at = offset;
                raw = raw;
                digest = digest;
                starts = starts;
                is_entry = entry;
                after_first = first_below starts;
                header_read = read;
                typed = ground (arith, typed, digest_read, hashed, got);
                inside = inside;
                digest_read = digest_read;
                taken = ground (arith, typed, digest_read, hashed, got);
              }
            ]
          ]
    ]

visit_keeps :
    (source : ImageSource) (info : McubootImageInfo) (layout : TlvLayout) (offset : ℕ)
    (raw : List ℕ) (found next : Option ImageHash)
    → Boundary source info layout offset
    → at_second info layout offset ≡ false
    → read_exact source offset 4 ≡ ok raw
    → offset + 4 + load_le16 raw 2 ≤ layout.end
    → visit_entry source offset (load_le16 raw 0) (load_le16 raw 2) found ≡ ok next
    → (next ≡ found) ⊎ ((h : ImageHash) × (next ≡ some h) × HoldsHash source info layout h)
unfolding visit_entry
visit_keeps source info layout offset raw (some f) next starts entry read inside got =
    inl (ground (arith, got))
visit_keeps source info layout offset raw none none starts entry read inside got = inl refl
visit_keeps source info layout offset raw none (some h) starts entry read inside got =
    inr (h, refl, visit_sound source info layout offset raw h starts entry read inside got)

visited_end :
    {source : ImageSource} {info : McubootImageInfo} {layout : TlvLayout}
    {found next : Option ImageHash} {h : ImageHash}
    → (next ≡ found) ⊎ ((g : ImageHash) × (next ≡ some g) × HoldsHash source info layout g)
    → (next ≡ some h) ⊎ HoldsHash source info layout h
    → (found ≡ some h) ⊎ HoldsHash source info layout h
visited_end kept (inr holds) = inr holds
visited_end (inl same) (inl e) = inl (sym same ∙ e)
visited_end {source = source} {info = info} {layout = layout} (inr (g, new, holds)) (inl e) =
    inr (subst (HoldsHash source info layout) (ground (arith, new, e)) holds)

entry_sound :
    (source : ImageSource) (info : McubootImageInfo) (layout : TlvLayout) (offset : ℕ)
    (found : Option ImageHash) (h : ImageHash)
    (rest : ℕ → Option ImageHash → Result (Option ImageHash))
    → Boundary source info layout offset
    → at_second info layout offset ≡ false
    → ((next : ℕ) (f : Option ImageHash)
        → Boundary source info layout next
        → rest next f ≡ ok (some h)
        → (f ≡ some h) ⊎ HoldsHash source info layout h)
    → offset < layout.end
    → 4 ≤ layout.end - offset
    → scan_entry source layout offset found rest ≡ ok (some h)
    → (found ≡ some h) ⊎ HoldsHash source info layout h
unfolding scan_entry
entry_sound source info layout offset found h rest starts entry go before room got =
    elim (Result-cases (read_exact source offset 4)) [
      | inr (e, failed) ↦ absurd (ground (arith, failed, got))
      | inl (raw, read) ↦ elim (Bool-cases (ltb (layout.end - offset - 4) (load_le16 raw 2))) [
        | inl long ↦ absurd (ground (arith, read, long, got))
        | inr fits ↦
            elim (Result-cases
              (visit_entry source offset (load_le16 raw 0) (load_le16 raw 2) found)) [
                | inr (e, failed) ↦ absurd (ground (arith, read, fits, failed, got))
                | inl (next, visited) ↦
                    let inside : offset + 4 + load_le16 raw 2 ≤ layout.end =
                      ground (arith, before, room, fits) in
                    let kept =
                      visit_keeps source info layout offset raw found next starts entry read inside
                        visited in
                    let end : (next ≡ some h) ⊎ HoldsHash source info layout h =
                      go (offset + (4 + load_le16 raw 2)) next
                        (after_entry starts entry read inside)
                        (ground (arith, read, fits, visited, got)) in
                    visited_end kept end
              ]
      ]
    ]

scan_sound :
    (left : ℕ) (source : ImageSource) (info : McubootImageInfo) (layout : TlvLayout) (offset : ℕ)
    (found : Option ImageHash) (h : ImageHash)
    → Boundary source info layout offset
    → scan left source info layout offset found ≡ ok (some h)
    → (found ≡ some h) ⊎ HoldsHash source info layout h
unfolding scan
scan_sound zero source info layout offset found h starts got = inl (ground (arith, got))
scan_sound (suc left) source info layout offset found h starts got =
    elim (Bool-cases (not (ltb offset layout.end))) [
      | inl over ↦ inl (ground (arith, over, got))
      | inr before ↦
          elim (Bool-cases (not (info.protected_tlv_size == 0) && offset == layout.protected_end)) [
            | inl header ↦
                scan_sound left source info layout (offset + 4) found h (second_area starts header)
                  (ground (arith, before, header, got))
            | inr entry ↦ elim (Bool-cases (ltb (layout.end - offset) 4)) [
              | inl short ↦ absurd (ground (arith, before, entry, short, got))
              | inr room ↦
                  entry_sound source info layout offset found h (scan left source info layout)
                    starts entry (λ next f. scan_sound left source info layout next f h)
                    (ground (arith, before)) (ground (arith, room))
                    (ground (arith, before, entry, room, got))
            ]
          ]
    ]

-- The hash that is found is the one in an entry of the image's areas. The entry is one of those
-- that follow each other from the header of the first area on, with the header of the second area
-- skipped; it has the type of a hash and that type's length, it lies between the first area's
-- header and the end of the areas, and the hash is what the image holds there. An encrypted image
-- has none.
pub find_image_tlv_hash_sound :
    (source : ImageSource) (info : McubootImageInfo) (h : ImageHash)
    → find_image_tlv_hash source info ≡ ok (some h)
    → (info.encrypted ≡ false)
      × ((layout : TlvLayout) × (resolve_layout source info ≡ ok layout)
          × HoldsHash source info layout h)
unfolding find_image_tlv_hash
find_image_tlv_hash_sound source info h got = elim (Bool-cases info.encrypted) [
  | inl hidden ↦ absurd (ground (arith, hidden, got))
  | inr plain ↦ elim (Result-cases (resolve_layout source info)) [
    | inr (e, failed) ↦ absurd (ground (arith, plain, failed, got))
    | inl (layout, resolved) ↦
        elim (scan_sound 256 source info layout layout.first none h first_entry
          (ground (arith, plain, resolved, got))) [
            | inl never ↦ absurd (ground (arith, never))
            | inr holds ↦ (plain, (layout, resolved, holds))
          ]
  ]
]
