-- ===== src/Image/Values/RoundTrip.antt =====
-- The text of a version is parsed back to it.
use smply.Prelude.{
  ℕ, suc, ◌+◌, ◌≤◌, ◌<◌, ◌≡◌, refl, sym, ap, subst, ◌∙◌, inl, inr, List, [], ◌∷◌, ◌++◌,
  append_assoc, append-nil, ◌==◌, if◌then◌else◌, length, length-append, Bool-cases, arith,
}
use smply.Error.{ok}
use smply.Image.Values.{
  ImageVersion, number, dot, dotted, build_part, parse_parts, parse_version, decimal,
  version_to_string,
}
use smply.Image.Values.Decimal.{number-dot, number_end, length-decimal}

pub record IsValid (v : ImageVersion) : Type 0 where
  pub major_byte : v.major ≤ 255
  pub minor_byte : v.minor ≤ 255
  pub revision_word : v.revision ≤ 65535
  pub build_word : v.build ≤ 4294967295

-- The parse goes through the three numbers to what follows them.
abbrev row : List ℕ → List ℕ → List ℕ → List ℕ → List ℕ
row a b c tail = a ++ (dot ∷ (b ++ (dot ∷ (c ++ tail))))

parse_parts_steps :
    (v : ImageVersion) (text minor_text revision_text after : List ℕ)
    → number 255 text ≡ ok (v.major, dot ∷ minor_text)
    → number 255 minor_text ≡ ok (v.minor, dot ∷ revision_text)
    → number 65535 revision_text ≡ ok (v.revision, after)
    → build_part after ≡ ok (v.build, [])
    → parse_parts text ≡ ok v
unfolding parse_parts dotted
parse_parts_steps v text minor_text revision_text after first second third fourth =
    ground (arith, first, second, third, fourth)

parse_parts_short :
    (v : ImageVersion) (tail after : List ℕ)
    → IsValid v
    → number 65535 (decimal v.revision ++ tail) ≡ ok (v.revision, after)
    → build_part after ≡ ok (v.build, [])
    → parse_parts (row (decimal v.major) (decimal v.minor) (decimal v.revision) tail) ≡ ok v
parse_parts_short v tail after valid third fourth =
    parse_parts_steps v _ (decimal v.minor ++ (dot ∷ (decimal v.revision ++ tail)))
      (decimal v.revision ++ tail) after
      (number-dot 255 v.major (decimal v.minor ++ (dot ∷ (decimal v.revision ++ tail)))
        (omega (arith, valid.major_byte)) valid.major_byte)
      (number-dot 255 v.minor (decimal v.revision ++ tail) (omega (arith, valid.minor_byte))
        valid.minor_byte)
      third fourth

length_row :
    (a b c tail : List ℕ)
    → length (row a b c tail) ≡ length a + length b + length c + length tail + 2
length_row a b c tail =
    length-append a (dot ∷ (b ++ (dot ∷ (c ++ tail))))
    ∙ ap (λ (n : ℕ). length a + suc n) (length-append b (dot ∷ (c ++ tail)))
    ∙ omega (arith, length-append c tail)

length_short :
    (v : ImageVersion) (tail : List ℕ)
    → IsValid v
    → let text = row (decimal v.major) (decimal v.minor) (decimal v.revision) tail in
      (0 < length text) × (length text ≤ 13 + length tail)
length_short v tail valid =
    rw (length_row (decimal v.major) (decimal v.minor) (decimal v.revision) tail) (
      omega arith,
      omega (
        arith,
        length-decimal 3 v.major (omega (arith, valid.major_byte)) (omega arith),
        length-decimal 3 v.minor (omega (arith, valid.minor_byte)) (omega arith),
        length-decimal 5 v.revision (omega (arith, valid.revision_word)) (omega arith),
      ),
    )

parse_guard :
    (text : List ℕ) → 0 < length text → length text ≤ 32 → parse_version text ≡ parse_parts text
unfolding parse_version
parse_guard [] some_text short = absurd (omega (arith, some_text))
parse_guard (c ∷ text) some_text short = ground (arith, short)

build_part-dot : (n : ℕ) → n ≤ 4294967295 → build_part (dot ∷ decimal n) ≡ ok (n, [])
unfolding build_part
build_part-dot n fits = number_end 4294967295 n (omega (arith, fits)) fits

build_part-nil : build_part [] ≡ ok (0, [])
unfolding build_part
build_part-nil = refl

parse_short :
    (v : ImageVersion) (tail after : List ℕ)
    → IsValid v
    → length tail ≤ 19
    → number 65535 (decimal v.revision ++ tail) ≡ ok (v.revision, after)
    → build_part after ≡ ok (v.build, [])
    → parse_version (row (decimal v.major) (decimal v.minor) (decimal v.revision) tail) ≡ ok v
parse_short v tail after valid short third fourth =
    let (some_text, fits) = length_short v tail valid in
    parse_guard _ some_text (omega (arith, fits, short))
    ∙ parse_parts_short v tail after valid third fourth

row_three : (a b c : List ℕ) → (a ++ (dot ∷ b)) ++ (dot ∷ c) ≡ row a b c []
row_three a b c =
    append_assoc a (dot ∷ b) (dot ∷ c)
    ∙ ap (λ t. a ++ (dot ∷ (b ++ (dot ∷ t)))) (sym (append-nil c))

row_four : (a b c d : List ℕ) → ((a ++ (dot ∷ b)) ++ (dot ∷ c)) ++ (dot ∷ d) ≡ row a b c (dot ∷ d)
row_four a b c d =
    append_assoc (a ++ (dot ∷ b)) (dot ∷ c) (dot ∷ d)
    ∙ append_assoc a (dot ∷ b) ((dot ∷ c) ++ (dot ∷ d))

-- What `to_string` gives, as one row.
version_to_string-row :
    (v : ImageVersion)
    → version_to_string v
      ≡ row
          (decimal v.major)
          (decimal v.minor)
          (decimal v.revision)
          (if v.build == 0 then [] else dot ∷ decimal v.build)
unfolding version_to_string
version_to_string-row v = elim (Bool-cases (v.build == 0)) [
  | inl zeroed ↦
      rw (zeroed, version_to_string)
        (row_three (decimal v.major) (decimal v.minor) (decimal v.revision))
  | inr some_build ↦
      rw (some_build, version_to_string)
        (row_four (decimal v.major) (decimal v.minor) (decimal v.revision) (decimal v.build))
]

-- The text of a version whose parts have their widths is parsed to the same version.
pub parse_version-version_to_string :
    (v : ImageVersion) → IsValid v → parse_version (version_to_string v) ≡ ok v
parse_version-version_to_string v valid = elim (Bool-cases (v.build == 0)) [
  | inl zeroed ↦
      subst (λ t. parse_version t ≡ ok v) (sym (version_to_string-row v))
        (rw zeroed (
          parse_short v [] [] valid (omega arith)
            (rw (append-nil (decimal v.revision)) (
              number_end 65535 v.revision (omega (arith, valid.revision_word)) valid.revision_word))
            (build_part-nil ∙ ap (λ (n : ℕ). ok (n, [])) (ground (arith, zeroed)))))
  | inr some_build ↦
      subst (λ t. parse_version t ≡ ok v) (sym (version_to_string-row v))
        (rw some_build (
          parse_short v (dot ∷ decimal v.build) (dot ∷ decimal v.build) valid
            (omega
              (arith, length-decimal 10 v.build (omega (arith, valid.build_word)) (omega arith)))
            (number-dot 65535 v.revision (decimal v.build) (omega (arith, valid.revision_word))
              valid.revision_word)
            (build_part-dot v.build valid.build_word)))
]
