-- ===== src/Protocol/Diagnostics/FreezeFrame.antt =====
-- diagnostics.cpp: `decodeFreezeFrameZero`.
use rev_dash.Prelude.{
  ℕ, not, Option, none, some, List, [], ◌∷◌, ltb, ◌==◌, if◌then◌else◌, length, get_or,
}
use rev_dash.Core.Error.{Result, ok, err, fail, diagnostics_unsupported}
use rev_dash.Core.Types.{ObdMessage, payload_of}
use rev_dash.Core.Diagnostics.{Text, FreezeFrame}
use rev_dash.Core.Telemetry.{TelemetrySample}
use rev_dash.Core.Float.{Float}
use rev_dash.Protocol.Mode01.Catalog.{Mode01PidDescriptor}
use rev_dash.Protocol.Mode01.Decode.{find_mode01_pid_descriptor, decode_mode01_response}
use rev_dash.Protocol.Diagnostics.Service.{malformed, validate_positive_service}

-- `mode01_message.data[0] = 0x41`
unfoldable pub with_first : ℕ → List ℕ → List ℕ
with_first b [] = []
with_first b (x ∷ xs) = b ∷ xs

module _ {F : Type 0} (fl : Float F) where
  -- The frame that the decoded samples make.
  unfoldable pub frame_of :
      ObdMessage
      → Text
      → Option (Result (List (TelemetrySample F)))
      → Option (Result (FreezeFrame F))
  frame_of message dtc_code none = none
  frame_of message dtc_code (some (err e)) = some (err e)
  frame_of message dtc_code (some (ok samples)) = some (
      ok (record {
        dtc_code = dtc_code;
        frame_number = 0;
        timestamp = message.monotonic_ts;
        samples = samples;
      }))

  unfoldable pub decode_catalogued :
      ObdMessage → ℕ → Text → Option (Mode01PidDescriptor fl) → Option (Result (FreezeFrame F))
  unfolding frame_of with_first
  decode_catalogued message pid dtc_code none =
      some
        (fail diagnostics_unsupported "Mode 02 PID is not supported by the RevDash Mode 01 decoder")
  decode_catalogued message pid dtc_code (some d) =
      frame_of message dtc_code
        (decode_mode01_response fl (record message { bytes = with_first 0x41 message.bytes }) pid)

  -- `none` is the null call that `decode_mode01_response` may make.
  unfoldable pub decode_freeze_frame_zero : ObdMessage → ℕ → Text → Option (Result (FreezeFrame F))
  unfolding decode_catalogued validate_positive_service
  decode_freeze_frame_zero message pid dtc_code =
      if length dtc_code == 0
      then some
          (fail diagnostics_unsupported "Freeze-frame decoding requires its associated DTC code")
      else elim (validate_positive_service message 0x42 "Mode 02") [
        | err e ↦ some (err e)
        | ok _ ↦
            (let payload = payload_of message in
              if ltb (length payload) 2
              then some (malformed "Mode 02 response is truncated before its PID echo")
              else if not (get_or payload 1 0 == pid)
              then some (malformed "Mode 02 response PID does not match the requested PID")
              else decode_catalogued message pid dtc_code (find_mode01_pid_descriptor fl pid))
      ]
