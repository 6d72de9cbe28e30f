-- ===== src/Protocol/Diagnostics/Dtc.antt =====
-- diagnostics.cpp: `decodeDtc`, `decodeStoredDtcs`, `decodePendingDtcs` and `deduplicateDtcs`.
use rev_dash.Prelude.{
  ℕ, ◌+◌, ◌/◌, ◌%◌, String, Bool, false, not, ◌&&◌, ◌||◌, none, List, [], ◌∷◌, ◌++◌, ◌==◌,
  if◌then◌else◌, length, get_or, drop,
}
use rev_dash.Prelude.Text.{◌<>◌}
use rev_dash.Core.Error.{Result, ok, ◌>>◌}
use rev_dash.Core.Types.{ObdMessage, payload_of}
use rev_dash.Core.Diagnostics.{Text, DtcStatus, Severity, DtcRecord, dtc_beq}
use rev_dash.Protocol.Diagnostics.Service.{malformed, validate_positive_service}

abbrev pub system_letters : Text
system_letters = b'P' ∷ b'C' ∷ b'B' ∷ b'U' ∷ []

abbrev pub hex_digits : Text
hex_digits =
    b'0' ∷ b'1' ∷ b'2' ∷ b'3' ∷ b'4' ∷ b'5' ∷ b'6' ∷ b'7' ∷ b'8' ∷ b'9' ∷ b'A' ∷ b'B' ∷ b'C' ∷ b'D'
    ∷ b'E' ∷ b'F' ∷ []

-- `decodeDtc`: `>>` is a division and `&` a remainder, by a power of two.
unfoldable pub decode_dtc : ℕ → ℕ → Text
decode_dtc first second =
    get_or system_letters (first / 64 % 4) 0
    ∷ (b'0' + first / 16 % 4)
    ∷ get_or hex_digits (first % 16) 0
    ∷ get_or hex_digits (second / 16 % 16) 0
    ∷ get_or hex_digits (second % 16) 0
    ∷ []

module _ {F : Type 0} where
  -- A record with the defaults of `DtcRecord`.
  abbrev pub dtc_record : ObdMessage → DtcStatus → Text → DtcRecord F
  dtc_record message status code = record {
    code = code;
    status = status;
    severity = Severity.warning;
    description = [];
    likely_failure_points = [];
    ecu_address = message.ecu_address;
    freeze_frame = none;
  }

  -- The loop over pairs of bytes, which skips a pair of zeros. The length is even.
  unfoldable pub decode_pairs : ObdMessage → DtcStatus → List ℕ → List (DtcRecord F)
  unfolding decode_dtc
  decode_pairs message status [] = []
  decode_pairs message status (a ∷ []) = []
  decode_pairs message status (a ∷ b ∷ rest) =
      if a == 0 && b == 0
      then decode_pairs message status rest
      else dtc_record message status (decode_dtc a b) ∷ decode_pairs message status rest

  -- `decodeDtcs`
  unfoldable pub decode_dtcs : ObdMessage → ℕ → DtcStatus → String → Result (List (DtcRecord F))
  unfolding validate_positive_service decode_pairs
  decode_dtcs message service status name =
      validate_positive_service message service name
      >> (let bytes = drop 1 (payload_of message) in
          if not (length bytes % 2 == 0)
          then malformed (name <> " response contains a truncated DTC pair")
          else ok (decode_pairs message status bytes))

  unfoldable pub decode_stored_dtcs : ObdMessage → Result (List (DtcRecord F))
  unfolding decode_dtcs
  decode_stored_dtcs message = decode_dtcs message 0x43 DtcStatus.confirmed "Mode 03"

  unfoldable pub decode_pending_dtcs : ObdMessage → Result (List (DtcRecord F))
  unfolding decode_dtcs
  decode_pending_dtcs message = decode_dtcs message 0x47 DtcStatus.pending "Mode 07"

  -- `std::find(unique.begin(), unique.end(), record) != unique.end()`
  unfoldable pub contains : List (DtcRecord F) → DtcRecord F → Bool
  contains [] r = false
  contains (x ∷ xs) r = dtc_beq x r || contains xs r

  -- The loop of `deduplicateDtcs`, with the vector `unique` so far.
  unfoldable pub deduplicate_onto : List (DtcRecord F) → List (DtcRecord F) → List (DtcRecord F)
  unfolding contains
  deduplicate_onto unique [] = unique
  deduplicate_onto unique (r ∷ rs) =
      deduplicate_onto (if contains unique r then unique else unique ++ r ∷ []) rs

  unfoldable pub deduplicate_dtcs : List (DtcRecord F) → List (DtcRecord F)
  unfolding deduplicate_onto
  deduplicate_dtcs records = deduplicate_onto [] records
