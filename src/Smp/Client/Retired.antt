-- ===== src/Smp/Client/Retired.antt =====
-- `is_retired()` and `retire()`: the sequence numbers that have completed last.
use smply.Prelude.{
  ℕ, zero, suc, ◌+◌, ◌%◌, ◌≤◌, ◌<◌, ◌≡◌, ◌⊎◌, Bool, true, false, List, [], ◌∷◌, ◌++◌, ◌==◌,
  if◌then◌else◌, length, get_or, set, length-append, length-set, arith,
}
use smply.Smp.Client.State.{RetiredSeqs}

abbrev pub is_retired : RetiredSeqs → ℕ → Bool
is_retired r seq = r.flags seq

abbrev update : (ℕ → Bool) → ℕ → Bool → ℕ → Bool
update flags i value j = if j == i then value else flags j

unfoldable pub retire : ℕ → RetiredSeqs → ℕ → RetiredSeqs
retire max_retired r seq =
    let oldest = get_or r.ring r.head 0 in
    let evicted = record r {
      flags = update (update r.flags oldest false) seq true;
      ring = set r.ring r.head seq;
      head = (r.head + 1) % length r.ring;
    } in
    let pushed = record r { flags = update r.flags seq true; ring = r.ring ++ seq ∷ [] } in
    if max_retired == 0
    then r
    else if r.flags seq
    then r
    else if length r.ring == max_retired
    then evicted
    else pushed

-- Occurrences in the ring.
abbrev pub count : ℕ → List ℕ → ℕ
count a [] = 0
count a (x ∷ xs) = (if x == a then 1 else 0) + count a xs

-- The flags are those of the ring's numbers, each there once, and no more than are allowed.
pub record IsRing (max_retired : ℕ) (r : RetiredSeqs) : Type 0 where
  pub bounded : length r.ring ≤ max_retired
  pub head_inside : (r.head < length r.ring) ⊎ (r.head ≡ 0)
  pub flagged : (seq : ℕ) → count seq r.ring ≡ (if r.flags seq then 1 else 0)

abbrev one_if : Bool → ℕ
one_if b = if b then 1 else 0

count_last :
    (a : ℕ) (xs : List ℕ) (last : ℕ) → count a (xs ++ last ∷ []) ≡ count a xs + count a (last ∷ [])
count_last a [] last = omega arith
count_last a (x ∷ xs) last = ground (arith, count_last a xs last)

count-set :
    (a : ℕ) (xs : List ℕ) (i v : ℕ)
    → i < length xs
    → count a (set xs i v) + (if get_or xs i 0 == a then 1 else 0)
      ≡ count a xs + (if v == a then 1 else 0)
count-set a [] i v h = absurd (omega arith)
count-set a (x ∷ xs) zero v h = omega arith
count-set a (x ∷ xs) (suc i) v h = omega (arith, count-set a xs i v (omega arith))

count-get_or : (xs : List ℕ) (i : ℕ) → i < length xs → 1 ≤ count (get_or xs i 0) xs
count-get_or [] i h = absurd (omega arith)
count-get_or (x ∷ xs) zero h = ground arith
count-get_or (x ∷ xs) (suc i) h = omega (arith, count-get_or xs i (omega arith))

module _ (max_retired : ℕ) (r : RetiredSeqs) (seq : ℕ) (v : IsRing max_retired r) where
  retire-flagged :
      (j : ℕ)
      → count j (retire max_retired r seq).ring
        ≡ (if (retire max_retired r seq).flags j then 1 else 0)
  unfolding retire
  retire-flagged j = ground (
    arith,
    v.flagged j,
    v.flagged seq,
    v.flagged (get_or r.ring r.head 0),
    v.head_inside,
    count-set j r.ring r.head seq,
    count-get_or r.ring r.head,
    count_last j r.ring seq,
  )

  -- Retiring keeps the set sound and within its bound.
  pub retire-IsRing : IsRing max_retired (retire max_retired r seq)
  unfolding retire
  retire-IsRing = record {
    bounded =
        ground (arith, v.bounded, length-set r.ring r.head seq, length-append r.ring (seq ∷ []));
    head_inside = ground (
      arith,
      v.head_inside,
      v.bounded,
      length-set r.ring r.head seq,
      length-append r.ring (seq ∷ []),
    );
    flagged = retire-flagged;
  }

-- The list without the first occurrence of a number.
unfoldable without : ℕ → List ℕ → List ℕ
without a [] = []
without a (x ∷ xs) = let rest = without a xs in if x == a then xs else x ∷ rest

count-without :
    (a b : ℕ) (xs : List ℕ)
    → 1 ≤ count a xs
    → count b (without a xs) + (if a == b then 1 else 0) ≡ count b xs
unfolding without
count-without a b [] h = absurd (omega (arith, h))
count-without a b (x ∷ xs) h = ground (arith, h, count-without a b xs)

length-without : (a : ℕ) (xs : List ℕ) → 1 ≤ count a xs → length (without a xs) + 1 ≡ length xs
unfolding without
length-without a [] h = absurd (omega (arith, h))
length-without a (x ∷ xs) h = ground (arith, h, length-without a xs)

-- A list that has no number more often than another is no longer.
length_within : (xs ys : List ℕ) → ((a : ℕ) → count a xs ≤ count a ys) → length xs ≤ length ys
length_within [] ys h = omega arith
length_within (x ∷ xs) ys h =
    let found : 1 ≤ count x ys = ground (arith, h x) in
    let rest =
      length_within xs (without x ys) (λ a. ground (arith, h a, count-without x a ys found)) in
    omega (arith, rest, length-without x ys found)

-- Retired numbers that are all different are no more than are allowed.
pub retired_few :
    (max_retired : ℕ) (r : RetiredSeqs) (seqs : List ℕ)
    → IsRing max_retired r
    → ((seq : ℕ) → count seq seqs ≤ (if is_retired r seq then 1 else 0))
    → length seqs ≤ max_retired
retired_few max_retired r seqs v h =
    let within = length_within seqs r.ring (λ a. omega (arith, h a, v.flagged a)) in
    omega (arith, within, v.bounded)
