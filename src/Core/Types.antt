-- ===== src/Core/Types.antt =====
-- headers/revdash/core/types.hpp: sources, states, ECU addresses, requests and messages.
-- A byte is a number below 256, a time point or a duration a number of nanoseconds.
pub mod Message
use rev_dash.Prelude.{
  ℕ, zero, suc, ◌*◌, ◌%◌, ◌^◌, ◌<◌, ◌≡◌, refl, ap, ◌↔◌, Bool, true, false, ◌&&◌, Option, none, some,
  List, [], ◌∷◌, arith, ltb, ◌==◌, if◌then◌else◌, Eq, length, take, copy_front,
}
use rev_dash.Prelude.Text.{◌<>◌, to_string}
use rev_dash.Core.Error.{Result, ok, err, make_error, protocol_payload_too_large}

pub data ConnectionState : Type 0 where
  disconnected connecting initializing ready reconnecting disconnecting faulted : ConnectionState

pub data DataSourceType : Type 0 where
  serial_elm327 synthetic playback socket_can : DataSourceType

abbrev pub TimePoint : Type 0
TimePoint = ℕ

abbrev pub Duration : Type 0
Duration = ℕ

-- `std::chrono::milliseconds` in the ticks of a time point.
abbrev pub milliseconds : ℕ → Duration
milliseconds n = n * 1_000_000

abbrev pub max_iso_tp_payload_bytes : ℕ
max_iso_tp_payload_bytes = 4095

abbrev pub max_obd_request_bytes : ℕ
max_obd_request_bytes = 16

abbrev pub IsByte : ℕ → Type 0
IsByte b = b < 256

-- The value-initialised array of `n` bytes. It stays shut, since `n` is large.
unfoldable pub zero_bytes : ℕ → List ℕ
zero_bytes zero = []
zero_bytes (suc n) = 0 ∷ zero_bytes n

pub length-zero_bytes : (n : ℕ) → length (zero_bytes n) ≡ n
unfolding zero_bytes
length-zero_bytes zero = refl
length-zero_bytes (suc n) = ap suc (length-zero_bytes n)

pub data EcuAddressFormat : Type 0 where
  can_11_bit can_29_bit other : EcuAddressFormat

pub record EcuAddress : Type 0 where
  pub value : ℕ
  pub format : EcuAddressFormat

abbrev format_beq : EcuAddressFormat → EcuAddressFormat → Bool
format_beq can_11_bit can_11_bit = true
format_beq can_29_bit can_29_bit = true
format_beq other other = true
format_beq _ _ = false

pub format_beq_iff : (f g : EcuAddressFormat) → (format_beq f g ≡ true) ↔ (f ≡ g)
format_beq_iff f g = ground arith

-- `operator==` of `EcuAddress`
abbrev pub ecu_beq : EcuAddress → EcuAddress → Bool
ecu_beq a b = a.value == b.value && format_beq a.format b.format

pub ecu_beq_iff : (a b : EcuAddress) → (ecu_beq a b ≡ true) ↔ (a ≡ b)
ecu_beq_iff a b = ground (arith, format_beq_iff a.format b.format)

instance abbrev pub ecu_eq : Eq EcuAddress
ecu_eq = record { beq = ecu_beq; beq_iff = ecu_beq_iff }

-- `operator==` of `std::optional`
abbrev pub option_beq {ℓ} : {A : Type ℓ} → (A → A → Bool) → Option A → Option A → Bool
option_beq eq none none = true
option_beq eq (some a) (some b) = eq a b
option_beq eq _ _ = false

pub record ObdRequest : Type 0 where
  pub mode : ℕ
  pub pid : ℕ
  pub target_ecu : Option EcuAddress
  pub extra_length : ℕ
  pub payload : List ℕ

-- A request for `mode` and `pid`, its other fields at their defaults.
abbrev pub obd_request : ℕ → ℕ → ObdRequest
obd_request mode pid = record {
  mode = mode;
  pid = pid;
  target_ecu = none;
  extra_length = 0;
  payload = zero_bytes max_obd_request_bytes;
}

abbrev pub extra_payload : ObdRequest → List ℕ
extra_payload r = take r.extra_length r.payload

pub record ObdMessage : Type 0 where
  pub source_type : DataSourceType
  pub ecu_address : Option EcuAddress
  pub monotonic_ts : TimePoint
  pub utc_ts : Option TimePoint
  pub sequence_number : ℕ
  pub length : ℕ
  pub bytes : List ℕ

-- `ObdMessage::payload`
abbrev pub payload_of : ObdMessage → List ℕ
payload_of m = take m.length m.bytes

-- The message that `ObdMessage::create` fills in for bytes that fit.
unfoldable pub filled_message :
    DataSourceType → Option EcuAddress → List ℕ → ℕ → TimePoint → Option TimePoint → ObdMessage
filled_message source ecu bytes seq mono utc = record {
  source_type = source;
  ecu_address = ecu;
  monotonic_ts = mono;
  utc_ts = utc;
  sequence_number = seq;
  length = length bytes % 2 ^ 16;
  bytes = copy_front bytes (zero_bytes max_iso_tp_payload_bytes);
}

-- `ObdMessage::create`
unfoldable pub create_message :
    DataSourceType
    → Option EcuAddress
    → List ℕ
    → ℕ
    → TimePoint
    → Option TimePoint
    → Result ObdMessage
unfolding filled_message
create_message source ecu bytes seq mono utc =
    if ltb max_iso_tp_payload_bytes (length bytes)
    then err (
        make_error protocol_payload_too_large
          "ISO-TP / OBD payload exceeds maximum supported capacity of 4095 bytes" false
          ("Payload size: " <> to_string (length bytes)))
    else ok (filled_message source ecu bytes seq mono utc)
