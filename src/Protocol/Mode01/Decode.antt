-- ===== src/Protocol/Mode01/Decode.antt =====
-- mode01.cpp: `findMode01PidDescriptor` and `decodeMode01Response`.
use rev_dash.Prelude.{
  ℕ, Bool, not, ◌||◌, Option, none, some, List, [], ◌∷◌, ltb, ◌==◌, if◌then◌else◌, length, get_or,
  drop,
}
use rev_dash.Core.Error.{
  Result, ok, err, fail, protocol_malformed_response, protocol_negative_response,
}
use rev_dash.Core.Types.{ObdMessage, payload_of}
use rev_dash.Core.Telemetry.{TelemetrySample}
use rev_dash.Core.Float.{Float}
use rev_dash.Protocol.Mode01.Catalog.{Mode01Decoder, Mode01PidDescriptor, catalog}

abbrev pub negative_response : ℕ
negative_response = 0x7f

abbrev pub is_bitmap_pid : ℕ → Bool
is_bitmap_pid pid = pid == 0x00 || pid == 0x20 || pid == 0x40

-- The tests of the first two bytes, up to the PID echo.
unfoldable pub check_header : ObdMessage → ℕ → Result (Unit {0})
check_header message pid =
    let payload = payload_of message in
    if length payload == 0
    then fail protocol_malformed_response "Mode 01 response is truncated before the service byte"
    else if get_or payload 0 0 == negative_response
    then fail protocol_negative_response "ECU rejected Mode 01 request"
    else if ltb (length payload) 2
    then fail protocol_malformed_response "Mode 01 response is truncated before the PID echo"
    else if not (get_or payload 0 0 == 0x41)
    then fail protocol_malformed_response
        "Response service is not the positive Mode 01 response (0x41)"
    else if not (get_or payload 1 0 == pid)
    then fail protocol_malformed_response "Mode 01 response PID does not match the requested PID"
    else ok tt

module _ {F : Type 0} (fl : Float F) where
  -- `std::find_if` over the catalogue
  unfoldable pub find_pid : ℕ → List (Mode01PidDescriptor fl) → Option (Mode01PidDescriptor fl)
  find_pid pid [] = none
  find_pid pid (d ∷ ds) = if d.pid == pid then some d else find_pid pid ds

  unfoldable pub find_mode01_pid_descriptor : ℕ → Option (Mode01PidDescriptor fl)
  unfolding find_pid
  find_mode01_pid_descriptor pid = find_pid pid (catalog fl)

  abbrev pub Samples : Type 0
  Samples = Result (List (TelemetrySample F))

  -- `!std::isfinite(value) || value < minimum_value || value > maximum_value`
  unfoldable pub out_of_bounds : Mode01PidDescriptor fl → F → Bool
  out_of_bounds d value =
      not (fl.is_finite value) || fl.lt value d.minimum_value || fl.lt d.maximum_value value

  -- The test of the first decoded sample.
  unfoldable pub check_front : Mode01PidDescriptor fl → Samples → Samples
  check_front d (err e) = err e
  check_front d (ok []) =
      fail protocol_malformed_response
        "Mode 01 response decoded to a value outside the PID descriptor bounds"
  check_front d (ok (s ∷ ss)) =
      if out_of_bounds d s.value
      then fail protocol_malformed_response
          "Mode 01 response decoded to a value outside the PID descriptor bounds"
      else ok (s ∷ ss)

  -- The call through `descriptor->decoder`; `none` is a call through a null pointer.
  unfoldable pub call_decoder :
      Mode01PidDescriptor fl → Option (Mode01Decoder fl) → List ℕ → ObdMessage → Option Samples
  unfolding check_front
  call_decoder d none bytes message = none
  call_decoder d (some decoder) bytes message = some (check_front d (decoder bytes message))

  unfoldable pub decode_described :
      ObdMessage → ℕ → Option (Mode01PidDescriptor fl) → Option Samples
  unfolding call_decoder
  decode_described message pid none = some (
      fail protocol_malformed_response
        "Mode 01 response uses a PID outside the supported RevDash catalog")
  decode_described message pid (some d) =
      let bytes = drop 2 (payload_of message) in
      if not (length bytes == d.expected_data_length)
      then some (
          fail protocol_malformed_response
            "Mode 01 response data length does not match the PID descriptor")
      else if is_bitmap_pid pid
      then some (ok [])
      else call_decoder d d.decoder bytes message

  -- `decodeMode01Response`
  unfoldable pub decode_mode01_response : ObdMessage → ℕ → Option Samples
  unfolding decode_described find_mode01_pid_descriptor check_header
  decode_mode01_response message pid = elim (check_header message pid) [
    | err e ↦ some (err e)
    | ok _ ↦ decode_described message pid (find_mode01_pid_descriptor pid)
  ]
