-- ===== src/Protocol/Diagnostics/Tests.antt =====
-- Runs of the decoders of diagnostics.cpp, and their theorems at concrete inputs.
use rev_dash.Prelude.{
  ℕ, ◌≡◌, refl, ◌↔◌, ◌≢◌, none, some, List, [], ◌∷◌, arith, get_or, length, ◌%◌, map, All,
}
use rev_dash.Prelude.{all_of, true}
use rev_dash.Core.Error.{ok, code_of, failed, protocol_malformed_response}
use rev_dash.Core.Types.{ObdMessage, EcuAddress, can_11_bit, synthetic, payload_of}
use rev_dash.Core.Diagnostics.{Text, DtcStatus, DtcRecord, EcuMetadata}
use rev_dash.Protocol.Diagnostics.Dtc.{
  decode_dtc, decode_stored_dtcs, decode_pending_dtcs, deduplicate_dtcs, dtc_record,
}
use rev_dash.Protocol.Diagnostics.Service.{parse_clear_diagnostic_response}
use rev_dash.Protocol.Diagnostics.Vin.{decode_mode09_metadata-vin}
use rev_dash.Protocol.Diagnostics.Metadata.{
  decode_mode09_metadata, metadata_from, is_vin_character, merge_mode09_metadata,
}
use rev_dash.Protocol.Diagnostics.Codes.{
  encode_dtc, encode_dtc-decode_dtc, bytes_of, IsFrom, decode_stored_dtcs-faults,
  decode_stored_dtcs-accepts, parse_clear_diagnostic_response_iff,
}
use rev_dash.Protocol.Diagnostics.Dedup.{Has, IsDistinct, deduplicate_dtcs_lem}
use rev_dash.Protocol.Diagnostics.Merge.{IsUnion, IsKept, merge_mode09_metadata_lem}

abbrev engine : EcuAddress
engine = record { value = 0x7e8; format = can_11_bit }

abbrev message_of : List ℕ → ObdMessage
message_of bytes = record {
  source_type = synthetic;
  ecu_address = some engine;
  monotonic_ts = 7;
  utc_ts = none;
  sequence_number = 1;
  length = length bytes;
  bytes = bytes;
}

abbrev stored : ObdMessage
stored = message_of (0x43 ∷ 0x01 ∷ 0x33 ∷ 0 ∷ 0 ∷ 0xd0 ∷ 0xff ∷ [])

abbrev cleared : ObdMessage
cleared = message_of (0x44 ∷ [])

-- P0133
decode_dtc-p0133 : decode_dtc 0x01 0x33 ≡ b'P' ∷ b'0' ∷ b'1' ∷ b'3' ∷ b'3' ∷ []
unfolding decode_dtc
decode_dtc-p0133 = refl

encode_dtc-decode_dtc_example : encode_dtc (decode_dtc 0xd0 0xff) ≡ (0xd0, 0xff)
encode_dtc-decode_dtc_example = encode_dtc-decode_dtc 0xd0 0xff (omega arith) (omega arith)

decode_stored_dtcs-faults_example :
    (payload_of stored ≡ payload_of stored
      → (rs : List (DtcRecord ℕ)) × (decode_stored_dtcs stored ≡ ok rs)
        × (map (bytes_of ℕ) rs ≡ (0x01, 0x33) ∷ (0xd0, 0xff) ∷ [])
        × All (IsFrom ℕ stored DtcStatus.confirmed) rs)
    × (payload_of stored ≡ 0x47 ∷ 0x01 ∷ 0x33 ∷ 0 ∷ 0 ∷ 0xd0 ∷ 0xff ∷ []
        → (rs : List (DtcRecord ℕ)) × (decode_pending_dtcs stored ≡ ok rs)
          × (map (bytes_of ℕ) rs ≡ (0x01, 0x33) ∷ (0xd0, 0xff) ∷ [])
          × All (IsFrom ℕ stored DtcStatus.pending) rs)
decode_stored_dtcs-faults_example =
    decode_stored_dtcs-faults ℕ stored ((0x01, 0x33) ∷ (0, 0) ∷ (0xd0, 0xff) ∷ [])
      ((omega arith, omega arith), ((omega arith, omega arith), ((omega arith, omega arith), tt)))

decode_stored_dtcs-accepts_example :
    ((code_of (decode_stored_dtcs {F = ℕ} stored) ≡ none)
      ↔ ((get_or (payload_of stored) 0 0 ≡ 0x43) × (length (payload_of stored) % 2 ≡ 1)))
    × ((code_of (decode_pending_dtcs {F = ℕ} stored) ≡ none)
        ↔ ((get_or (payload_of stored) 0 0 ≡ 0x47) × (length (payload_of stored) % 2 ≡ 1)))
decode_stored_dtcs-accepts_example = decode_stored_dtcs-accepts ℕ stored

parse_clear_diagnostic_response_iff_example :
    (code_of (parse_clear_diagnostic_response cleared) ≡ none) ↔ (payload_of cleared ≡ 0x44 ∷ [])
parse_clear_diagnostic_response_iff_example = parse_clear_diagnostic_response_iff cleared

abbrev fault : DtcRecord ℕ
fault = dtc_record stored DtcStatus.confirmed (b'P' ∷ b'0' ∷ b'1' ∷ b'3' ∷ b'3' ∷ [])

deduplicate_dtcs_lem_example :
    IsDistinct ℕ (deduplicate_dtcs (fault ∷ fault ∷ []))
    × ((r : DtcRecord ℕ)
        → Has ℕ (deduplicate_dtcs (fault ∷ fault ∷ [])) r ↔ Has ℕ (fault ∷ fault ∷ []) r)
deduplicate_dtcs_lem_example = deduplicate_dtcs_lem ℕ (fault ∷ fault ∷ [])

abbrev calibrated : EcuMetadata
calibrated = record {
  ecu_address = some engine;
  vin = [];
  calibration_ids = (65 ∷ 66 ∷ []) ∷ [];
  cvns = [];
  protocol_name = [];
}

abbrev numbered : EcuMetadata
numbered = record {
  ecu_address = none;
  vin = 49 ∷ 71 ∷ [];
  calibration_ids = [];
  cvns = (48 ∷ 48 ∷ []) ∷ [];
  protocol_name = [];
}

merge_mode09_metadata_lem_example :
    (code_of (merge_mode09_metadata calibrated numbered).0 ≡ none
      → IsUnion calibrated numbered (merge_mode09_metadata calibrated numbered).1)
    × (code_of (merge_mode09_metadata calibrated numbered).0 ≢ none
        → (code_of (merge_mode09_metadata calibrated numbered).0
            ≡ failed protocol_malformed_response)
          × IsKept calibrated (merge_mode09_metadata calibrated numbered).1)
merge_mode09_metadata_lem_example = merge_mode09_metadata_lem calibrated numbered

-- Seventeen times the digit 1
abbrev ones : Text
ones = 49 ∷ 49 ∷ 49 ∷ 49 ∷ 49 ∷ 49 ∷ 49 ∷ 49 ∷ 49 ∷ 49 ∷ 49 ∷ 49 ∷ 49 ∷ 49 ∷ 49 ∷ 49 ∷ 49 ∷ []

abbrev record_number : ℕ
record_number = 1

abbrev named : ObdMessage
named = message_of (0x49 ∷ 0x02 ∷ 1 ∷ ones)

decode_mode09_metadata-vin_example :
    (record_number ≢ 0
      → length ones ≡ 17
      → all_of is_vin_character ones ≡ true
      → decode_mode09_metadata named 0x02 ≡ ok (record (metadata_from named) { vin = ones }))
    × (code_of (decode_mode09_metadata named 0x02) ≢ none
        → code_of (decode_mode09_metadata named 0x02) ≡ failed protocol_malformed_response)
    × (code_of (decode_mode09_metadata named 0x02) ≡ none
        → (record_number ≢ 0) × (length ones ≡ 17) × (all_of is_vin_character ones ≡ true))
decode_mode09_metadata-vin_example = decode_mode09_metadata-vin named record_number ones refl
