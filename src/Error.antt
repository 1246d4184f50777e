-- ===== src/Error.antt =====
-- include/smply/error.hpp, group.hpp and result.hpp: error values and the result of a fallible call.
use Prim.Native.String.{String}
use smply.Prelude.{
  ℕ, ◌≡◌, refl, ◌⊎◌, inl, inr, Bool, Option, none, some, List, [], leb, if◌then◌else◌,
}

pub data ErrorCode : Type 0 where
  no_error invalid_argument invalid_state malformed_message unsupported_smp_version : ErrorCode
  message_too_large cbor_encode cbor_decode protocol_error unexpected_response timeout : ErrorCode
  cancelled transport_error transport_busy disconnected image_mismatch update_failed : ErrorCode
  update_refused internal : ErrorCode

-- `Group` is an open enumeration over 16 bits: any number below 2 ^ 16 is one.
abbrev pub Group : Type 0
Group = ℕ

abbrev pub group_per_user : Group
group_per_user = 64

unfoldable pub is_user_defined : Group → Bool
is_user_defined group = leb group_per_user group

pub record MgmtError : Type 0 where
  pub group : Group
  pub rc : ℕ
  pub group_scoped : Bool

-- `std::error_code`: the number and the category that numbers it.
pub record OsError : Type 0 where
  pub value : ℕ
  pub category : ℕ

-- `location` is the source's `where_`, a keyword here; "" stands for nullptr.
pub record Error : Type 0 where
  pub code : ErrorCode
  pub mgmt : Option MgmtError
  pub reason : List ℕ
  pub os_error : Option OsError
  pub location : String

abbrev pub error : ErrorCode → String → Error
error code location = record {
  code = code;
  mgmt = none;
  reason = [];
  os_error = none;
  location = location;
}

pub data Result {ℓ} (A : Type ℓ) : Type ℓ where
  ok : A → Result A
  err : Error → Result A

abbrev pub fail {ℓ} : {A : Type ℓ} → ErrorCode → String → Result A
fail code location = err (error code location)

-- The code's `if (!x) return fail(x.error());`.
abbrev pub ◌>>=◌ {ℓ κ} : {A : Type ℓ} {B : Type κ} → Result A → (A → Result B) → Result B
err failure >>= next = err failure
ok value >>= next = next value

infixl 5 ◌>>=◌
-- The device's flat code, if it reported one: a group-scoped code is not one of these.
unfoldable pub smp_error : Error → Option ℕ
smp_error e = elim e.mgmt [ none ↦ none | some m ↦ if m.group_scoped then none else some m.rc ]

abbrev pub smp_error_no_memory : ℕ
smp_error_no_memory = 2

abbrev pub smp_error_bad_state : ℕ
smp_error_bad_state = 6

abbrev pub smp_error_busy : ℕ
smp_error_busy = 10

pub Result-cases {ℓ} :
    {A : Type ℓ} (r : Result A) → ((a : A) × (r ≡ ok a)) ⊎ ((e : Error) × (r ≡ err e))
Result-cases (ok a) = inl (a, refl)
Result-cases (err e) = inr (e, refl)
