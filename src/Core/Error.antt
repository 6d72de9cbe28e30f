-- ===== src/Core/Error.antt =====
-- headers/revdash/core/error.hpp: error codes, their domains, and `tl::expected` results.
use rev_dash.Prelude.{◌≡◌, refl, ◌⊎◌, inl, inr, String, Option, none, some, Bool, false}

pub data ErrorDomain : Type 0 where
  core transport protocol diagnostics session storage : ErrorDomain

pub data ErrorCode : Type 0 where
  core_cancelled core_invalid_state core_unsupported_platform : ErrorCode
  transport_not_connected transport_timeout : ErrorCode
  protocol_payload_too_large protocol_malformed_response protocol_negative_response : ErrorCode
  diagnostics_database_invalid diagnostics_unsupported : ErrorCode
  diagnostics_operation_in_progress diagnostics_safety_rejected : ErrorCode
  diagnostics_token_invalid diagnostics_token_expired : ErrorCode
  session_invalid_format storage_unavailable : ErrorCode

-- `toString(ErrorDomain)`
unfoldable pub domain_to_string : ErrorDomain → String
domain_to_string ErrorDomain.core = "Core"
domain_to_string ErrorDomain.transport = "Transport"
domain_to_string ErrorDomain.protocol = "Protocol"
domain_to_string ErrorDomain.diagnostics = "Diagnostics"
domain_to_string ErrorDomain.session = "Session"
domain_to_string ErrorDomain.storage = "Storage"

-- `errorDomain`
unfoldable pub error_domain : ErrorCode → ErrorDomain
error_domain core_cancelled = ErrorDomain.core
error_domain core_invalid_state = ErrorDomain.core
error_domain core_unsupported_platform = ErrorDomain.core
error_domain transport_not_connected = ErrorDomain.transport
error_domain transport_timeout = ErrorDomain.transport
error_domain protocol_payload_too_large = ErrorDomain.protocol
error_domain protocol_malformed_response = ErrorDomain.protocol
error_domain protocol_negative_response = ErrorDomain.protocol
error_domain diagnostics_database_invalid = ErrorDomain.diagnostics
error_domain diagnostics_unsupported = ErrorDomain.diagnostics
error_domain diagnostics_operation_in_progress = ErrorDomain.diagnostics
error_domain diagnostics_safety_rejected = ErrorDomain.diagnostics
error_domain diagnostics_token_invalid = ErrorDomain.diagnostics
error_domain diagnostics_token_expired = ErrorDomain.diagnostics
error_domain session_invalid_format = ErrorDomain.session
error_domain storage_unavailable = ErrorDomain.storage

-- `toString(ErrorCode)`
unfoldable pub code_to_string : ErrorCode → String
code_to_string core_cancelled = "Core.Cancelled"
code_to_string core_invalid_state = "Core.InvalidState"
code_to_string core_unsupported_platform = "Core.UnsupportedPlatform"
code_to_string transport_not_connected = "Transport.NotConnected"
code_to_string transport_timeout = "Transport.Timeout"
code_to_string protocol_payload_too_large = "Protocol.PayloadTooLarge"
code_to_string protocol_malformed_response = "Protocol.MalformedResponse"
code_to_string protocol_negative_response = "Protocol.NegativeResponse"
code_to_string diagnostics_database_invalid = "Diagnostics.DatabaseInvalid"
code_to_string diagnostics_unsupported = "Diagnostics.Unsupported"
code_to_string diagnostics_operation_in_progress = "Diagnostics.OperationInProgress"
code_to_string diagnostics_safety_rejected = "Diagnostics.SafetyRejected"
code_to_string diagnostics_token_invalid = "Diagnostics.TokenInvalid"
code_to_string diagnostics_token_expired = "Diagnostics.TokenExpired"
code_to_string session_invalid_format = "Session.InvalidFormat"
code_to_string storage_unavailable = "Storage.Unavailable"

pub record Error : Type 0 where
  pub domain : ErrorDomain
  pub code : String
  pub message : String
  pub retryable : Bool
  pub context : String

pub data Result {ℓ} (A : Type ℓ) : Type ℓ where
  ok : A → Result A
  err : Error → Result A

infixl 5 ◌>>=◌ ◌>>◌
abbrev pub ◌>>=◌ {ℓ κ} : {A : Type ℓ} {B : Type κ} → Result A → (A → Result B) → Result B
ok value >>= continue = continue value
err error >>= continue = err error

abbrev pub ◌>>◌ {ℓ} : {B : Type ℓ} → Result (Unit {0}) → Result B → Result B
first >> second = first >>= λ _. second

-- The record that `makeError(code, message, retryable, context)` wraps.
unfoldable pub make_error : ErrorCode → String → Bool → String → Error
make_error c message retryable context = record {
  domain = error_domain c;
  code = code_to_string c;
  message = message;
  retryable = retryable;
  context = context;
}

-- `makeError(code, message)`, with the defaults of its last two arguments.
abbrev pub fail {ℓ} : {A : Type ℓ} → ErrorCode → String → Result A
fail c message = err (make_error c message false "")

-- `makeSuccess`
abbrev pub success : Result (Unit {0})
success = ok tt

-- The code of a failure; `none` for a success.
abbrev pub code_of {ℓ} : {A : Type ℓ} → Result A → Option String
code_of (ok a) = none
code_of (err e) = some e.code

-- The code that `make_error` writes for an `ErrorCode`.
abbrev pub failed : ErrorCode → Option String
failed c = some (code_to_string c)

pub Result-cases {ℓ} :
    {A : Type ℓ} (m : Result A) → ((a : A) × (m ≡ ok a)) ⊎ ((e : Error) × (m ≡ err e))
Result-cases (ok a) = inl (a, refl)
Result-cases (err e) = inr (e, refl)
