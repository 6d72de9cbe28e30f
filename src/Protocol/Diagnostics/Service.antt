-- ===== src/Protocol/Diagnostics/Service.antt =====
-- diagnostics.cpp: the test of the service byte, and Mode 04.
use rev_dash.Prelude.{String, not, if◌then◌else◌, ◌==◌, length, get_or, ℕ}
use rev_dash.Prelude.Text.{◌<>◌}
use rev_dash.Core.Error.{
  Result, fail, success, ◌>>◌, protocol_malformed_response, protocol_negative_response,
}
use rev_dash.Core.Types.{ObdMessage, payload_of, ObdRequest, obd_request}
use rev_dash.Protocol.Mode01.Decode.{negative_response}

abbrev pub malformed {ℓ} : {A : Type ℓ} → String → Result A
malformed = fail protocol_malformed_response

-- `validatePositiveService`
unfoldable pub validate_positive_service : ObdMessage → ℕ → String → Result (Unit {0})
validate_positive_service message positive_service name =
    let payload = payload_of message in
    if length payload == 0
    then malformed (name <> " response is truncated before the service byte")
    else if get_or payload 0 0 == negative_response
    then fail protocol_negative_response (name <> " request was rejected by the ECU")
    else if not (get_or payload 0 0 == positive_service)
    then malformed (name <> " response has an incorrect positive service byte")
    else success

-- `makeClearDiagnosticRequest`
abbrev pub make_clear_diagnostic_request : ObdRequest
make_clear_diagnostic_request = obd_request 0x04 0x00

-- `parseClearDiagnosticResponse`
unfoldable pub parse_clear_diagnostic_response : ObdMessage → Result (Unit {0})
unfolding validate_positive_service
parse_clear_diagnostic_response message =
    validate_positive_service message 0x44 "Mode 04"
    >> (if not (length (payload_of message) == 1)
        then malformed "Mode 04 positive response contains unexpected data"
        else success)
