-- ===== src/Protocol/Diagnostics/Metadata.antt =====
-- diagnostics.cpp: `decodeMode09Metadata` and `mergeMode09Metadata`.
use rev_dash.Prelude.{
  ℕ, zero, suc, ◌+◌, ◌/◌, ◌%◌, Bool, not, ◌&&◌, ◌||◌, Option, none, some, List, [], ◌∷◌, ◌++◌, ltb,
  leb, ◌==◌, if◌then◌else◌, length, get_or, take, drop, all_of,
}
use rev_dash.Core.Error.{Result, ok, fail, success, ◌>>◌, ◌>>=◌, diagnostics_unsupported}
use rev_dash.Core.Types.{ObdMessage, payload_of, ecu_beq, EcuAddress}
use rev_dash.Core.Diagnostics.{Text, EcuMetadata, text_beq}
use rev_dash.Protocol.Diagnostics.Service.{malformed, validate_positive_service}
use rev_dash.Protocol.Diagnostics.Dtc.{hex_digits}

unfoldable pub is_vin_character : ℕ → Bool
is_vin_character c =
    leb b'0' c && leb c b'9'
    || leb b'A' c && leb c b'Z' && not (c == b'I') && not (c == b'O') && not (c == b'Q')

unfoldable pub is_printable_ascii : ℕ → Bool
is_printable_ascii c = leb 0x20 c && leb c 0x7e

-- `asUpperHex`: two digits for each byte
unfoldable pub as_upper_hex : List ℕ → Text
as_upper_hex [] = []
as_upper_hex (b ∷ bs) =
    get_or hex_digits (b / 16 % 16) 0 ∷ get_or hex_digits (b % 16) 0 ∷ as_upper_hex bs

-- `validateMode09Header`
unfoldable pub validate_mode09_header : ObdMessage → ℕ → Result (Unit {0})
unfolding validate_positive_service
validate_mode09_header message pid =
    validate_positive_service message 0x49 "Mode 09"
    >> (let payload = payload_of message in
        if ltb (length payload) 2
        then malformed "Mode 09 response is truncated before its PID echo"
        else if not (get_or payload 1 0 == pid)
        then malformed "Mode 09 response PID does not match the requested PID"
        else success)

abbrev pub metadata_from : ObdMessage → EcuMetadata
metadata_from message = record {
  ecu_address = message.ecu_address;
  vin = [];
  calibration_ids = [];
  cvns = [];
  protocol_name = [];
}

-- The loop over calibration records of 17 bytes. Each round passes a record, so the size is fuel
-- enough.
unfoldable pub calibration_from : ℕ → List ℕ → ℕ → List Text → Result (List Text)
unfolding is_printable_ascii
calibration_from zero bytes offset found = ok found
calibration_from (suc fuel) bytes offset found =
    let entry = take 17 (drop offset bytes) in
    let rest = calibration_from fuel bytes (offset + 17) (found ++ drop 1 entry ∷ []) in
    if not (ltb offset (length bytes))
    then ok found
    else if get_or entry 0 0 == 0 || not (all_of is_printable_ascii (drop 1 entry))
    then malformed "Mode 09 calibration-ID record is invalid"
    else rest

-- The loop over CVN records of 5 bytes.
unfoldable pub cvn_from : ℕ → List ℕ → ℕ → List Text → Result (List Text)
unfolding as_upper_hex
cvn_from zero bytes offset found = ok found
cvn_from (suc fuel) bytes offset found =
    let entry = take 5 (drop offset bytes) in
    let rest = cvn_from fuel bytes (offset + 5) (found ++ as_upper_hex (drop 1 entry) ∷ []) in
    if not (ltb offset (length bytes))
    then ok found
    else if get_or entry 0 0 == 0
    then malformed "Mode 09 CVN record has an invalid record number"
    else rest

-- `case 0x02`
unfoldable pub decode_vin : ObdMessage → List ℕ → Result EcuMetadata
unfolding is_vin_character
decode_vin message bytes =
    if not (length bytes == 18) || get_or bytes 0 0 == 0
    then malformed "Mode 09 VIN response must contain one non-zero record number and 17 characters"
    else if not (all_of is_vin_character (drop 1 bytes))
    then malformed "Mode 09 VIN contains invalid characters"
    else ok (record (metadata_from message) { vin = drop 1 bytes })

-- `case 0x04`
unfoldable pub decode_calibrations : ObdMessage → List ℕ → Result EcuMetadata
unfolding calibration_from
decode_calibrations message bytes =
    if length bytes == 0 || not (length bytes % 17 == 0)
    then malformed "Mode 09 calibration-ID response contains incomplete records"
    else do
      ids ← calibration_from (length bytes + 1) bytes 0 []
      ok (record (metadata_from message) { calibration_ids = ids })

-- `case 0x06`
unfoldable pub decode_cvns : ObdMessage → List ℕ → Result EcuMetadata
unfolding cvn_from
decode_cvns message bytes =
    if length bytes == 0 || not (length bytes % 5 == 0)
    then malformed "Mode 09 CVN response contains incomplete records"
    else do
      found ← cvn_from (length bytes + 1) bytes 0 []
      ok (record (metadata_from message) { cvns = found })

-- `decodeMode09Metadata`
unfoldable pub decode_mode09_metadata : ObdMessage → ℕ → Result EcuMetadata
unfolding validate_mode09_header decode_vin decode_calibrations decode_cvns
decode_mode09_metadata message pid =
    validate_mode09_header message pid
    >> (let bytes = drop 2 (payload_of message) in
        if pid == 0x02
        then decode_vin message bytes
        else if pid == 0x04
        then decode_calibrations message bytes
        else if pid == 0x06
        then decode_cvns message bytes
        else fail diagnostics_unsupported "Mode 09 PID is not implemented by RevDash")

-- `target.ecu_address != addition.ecu_address` of two addresses that are present
abbrev pub other_ecu : Option EcuAddress → Option EcuAddress → Bool
other_ecu (some a) (some b) = not (ecu_beq a b)
other_ecu _ _ = Bool.false

abbrev pub known_ecu : Option EcuAddress → Option EcuAddress → Option EcuAddress
known_ecu none b = b
known_ecu (some a) b = some a

abbrev pub is_empty : Text → Bool
is_empty t = length t == 0

-- `mergeMode09Metadata`, with the target as it is left, also on failure.
unfoldable pub merge_mode09_metadata : EcuMetadata → EcuMetadata → Result (Unit {0}) × EcuMetadata
merge_mode09_metadata target addition =
    if other_ecu target.ecu_address addition.ecu_address
    then (malformed "Cannot merge Mode 09 metadata from different ECUs", target)
    else (let named : EcuMetadata = record target {
      ecu_address = known_ecu target.ecu_address addition.ecu_address;
    } in
        if not (is_empty addition.vin)
          && not (is_empty target.vin)
          && not (text_beq target.vin addition.vin)
        then (malformed "Conflicting VIN values were received from one ECU", named)
        else (
          success,
          record named {
            vin = if is_empty addition.vin then target.vin else addition.vin;
            calibration_ids = target.calibration_ids ++ addition.calibration_ids;
            cvns = target.cvns ++ addition.cvns;
          },
        ))
