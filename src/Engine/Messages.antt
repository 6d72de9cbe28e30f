-- ===== src/Engine/Messages.antt =====
-- engine_service.cpp: what the engine makes of a message of the source.
use rev_dash.Prelude.{
  ℕ, zero, suc, ◌+◌, ◌/◌, ◌%◌, Bool, true, false, not, ◌&&◌, ◌||◌, Option, none, some, List, [],
  ◌∷◌, ◌++◌, ◌==◌, ltb, if◌then◌else◌, length, get_or, drop,
}
use rev_dash.Core.Error.{Error, Result, ok, err, protocol_negative_response}
use rev_dash.Core.Types.{ConnectionState, EcuAddress, ObdMessage, payload_of, ecu_beq, option_beq}
use rev_dash.Core.Float.{Float}
use rev_dash.Core.Telemetry.{TelemetrySample}
use rev_dash.Core.Diagnostics.{Text, text_beq, FreezeFrame, DtcRecord, EcuMetadata}
use rev_dash.Core.Store.{update}
use rev_dash.Protocol.Mode01.Decode.{decode_mode01_response}
use rev_dash.Protocol.Diagnostics.Dtc.{hex_digits, decode_stored_dtcs, decode_pending_dtcs}
use rev_dash.Protocol.Diagnostics.FreezeFrame.{decode_freeze_frame_zero}
use rev_dash.Protocol.Diagnostics.Metadata.{decode_mode09_metadata, merge_mode09_metadata}
use rev_dash.Protocol.Diagnostics.Service.{parse_clear_diagnostic_response}
use rev_dash.Engine.State.{
  EngineEventType, Kind, Evaluator, DiagnosticOperation, Effect, EngineState, Outcome,
  diagnostic_error,
}
use rev_dash.Engine.Operation.{first_error, publish}

-- The digits of a number in a base; a number has at most as many as its value plus one.
unfoldable pub digits_from : ℕ → ℕ → ℕ → Text
digits_from base zero n = []
digits_from base (suc fuel) n =
    let more = digits_from base fuel (n / base) in
    let last = get_or hex_digits (n % base) 0 in if ltb n base then last ∷ [] else more ++ last ∷ []

-- `std::setw(2)` with `std::setfill('0')`
unfoldable pub byte_text : ℕ → ℕ → Text
unfolding digits_from
byte_text base b =
    if ltb b base then b'0' ∷ digits_from base (b + 1) b else digits_from base (b + 1) b

unfoldable pub bytes_text : ℕ → List ℕ → Text
unfolding byte_text
bytes_text base [] = []
bytes_text base (b ∷ bs) = byte_text base b ++ b' ' ∷ bytes_text base bs

-- `value.pop_back()`, of a text that may be empty
abbrev pub pop_back : Text → Text
pop_back [] = []
pop_back (c ∷ []) = []
pop_back (c ∷ d ∷ cs) = c ∷ pop_back (d ∷ cs)

-- `diagnosticLine`. The stream is switched to base 16 with the ECU address, so the bytes of a message
-- without one are in base 10.
unfoldable pub diagnostic_line : Option EcuAddress → List ℕ → Text
unfolding bytes_text digits_from
diagnostic_line none bytes =
    pop_back (b'E' ∷ b'C' ∷ b'U' ∷ b'?' ∷ b' ' ∷ b' ' ∷ bytes_text 10 bytes)
diagnostic_line (some a) bytes =
    pop_back
      (b'0' ∷ b'x' ∷ digits_from 16 (a.value + 1) a.value ++ b' ' ∷ b' ' ∷ bytes_text 16 bytes)

-- `kMaximumDiagnosticLines`
abbrev pub maximum_diagnostic_lines : ℕ
maximum_diagnostic_lines = 500

-- `recent_diagnostic_lines_`: the new line at the end, and the oldest one gone when there are too many.
unfoldable pub remember_line : Text → List Text → List Text
remember_line line lines =
    if ltb maximum_diagnostic_lines (length (lines ++ line ∷ []))
    then drop 1 (lines ++ line ∷ [])
    else lines ++ line ∷ []

-- The first byte is that of a diagnostic response.
abbrev pub is_diagnostic_service : ℕ → Bool
is_diagnostic_service b = b == 0x42 || b == 0x43 || b == 0x44 || b == 0x47 || b == 0x49 || b == 0x7f

-- The metadata of an ECU that is known is merged into it, the first time that it is found.
unfoldable pub merge_into : EcuMetadata → List EcuMetadata → Result (Unit {0}) × List EcuMetadata
merge_into addition [] = (ok tt, addition ∷ [])
merge_into addition (m ∷ ms) =
    let rest = merge_into addition ms in
    let merged = merge_mode09_metadata m addition in
    if option_beq ecu_beq m.ecu_address addition.ecu_address
    then (merged.0, merged.1 ∷ ms)
    else (rest.0, m ∷ rest.1)

abbrev pub is_clear : Kind → Bool
is_clear Kind.clear = true
is_clear _ = false

module _ {F : Type 0} where
  abbrev pub remember_error : Error → DiagnosticOperation F → DiagnosticOperation F
  remember_error e op = record op { error = first_error op.error e }

  unfoldable pub add_dtcs :
      Result (List (DtcRecord F)) → DiagnosticOperation F → DiagnosticOperation F
  add_dtcs (err e) op = remember_error e op
  add_dtcs (ok records) op = record op { dtcs = op.dtcs ++ records }

  -- `std::find_if` of the record of the frame's code and the message's ECU, and the write to it.
  unfoldable pub attach_frame :
      FreezeFrame F → Option EcuAddress → List (DtcRecord F) → List (DtcRecord F)
  attach_frame frame ecu [] = []
  attach_frame frame ecu (r ∷ rs) =
      let rest = attach_frame frame ecu rs in
      if text_beq r.code frame.dtc_code && option_beq ecu_beq r.ecu_address ecu
      then record r { freeze_frame = some frame } ∷ rs
      else r ∷ rest

  -- `none` would be a call through a null pointer, which no message makes.
  unfoldable pub add_frame :
      Option EcuAddress
      → Option (Result (FreezeFrame F))
      → DiagnosticOperation F
      → DiagnosticOperation F
  unfolding attach_frame
  add_frame ecu none op = op
  add_frame ecu (some (err e)) op = remember_error e op
  add_frame ecu (some (ok frame)) op = record op { dtcs = attach_frame frame ecu op.dtcs }

  unfoldable pub add_merged :
      Result (Unit {0}) × List EcuMetadata → DiagnosticOperation F → DiagnosticOperation F
  add_merged (ok _, metadata) op = record op { metadata = metadata }
  add_merged (err e, metadata) op = remember_error e (record op { metadata = metadata })

  unfoldable pub add_metadata : Result EcuMetadata → DiagnosticOperation F → DiagnosticOperation F
  unfolding add_merged merge_into
  add_metadata (err e) op = remember_error e op
  add_metadata (ok addition) op = add_merged (merge_into addition op.metadata) op

  unfoldable pub take_clear_response :
      Result (Unit {0}) → DiagnosticOperation F → DiagnosticOperation F
  take_clear_response (err e) op = remember_error e op
  take_clear_response (ok _) op = record op { positive_clear_response = true }

  -- The branch of a negative response.
  unfoldable pub take_refusal : List ℕ → DiagnosticOperation F → DiagnosticOperation F
  take_refusal payload op =
      if is_clear op.kind && not (ltb (length payload) 2) && get_or payload 1 0 == 0x04
      then record op {
        error =
            some
              (diagnostic_error protocol_negative_response "The ECU rejected the Mode 04 request");
      }
      else op

module _ {F : Type 0} (fl : Float F) where
  -- The branch of a freeze frame; without a code for it, the service byte is none of those below.
  unfoldable pub take_frame :
      ObdMessage → Option Text → DiagnosticOperation F → DiagnosticOperation F
  unfolding add_frame
  take_frame message none op = op
  take_frame message (some code) op =
      let payload = payload_of message in
      add_frame message.ecu_address
        (decode_freeze_frame_zero fl message
          (if ltb 1 (length payload) then get_or payload 1 0 else 0) code)
        op

  -- `handleDiagnosticMessage`, from the first byte on
  unfoldable pub take_message : ObdMessage → DiagnosticOperation F → DiagnosticOperation F
  unfolding take_refusal add_dtcs take_frame add_metadata take_clear_response
  take_message message op =
      let payload = payload_of message in
      let first = get_or payload 0 0 in
      if first == 0x7f
      then take_refusal payload op
      else if first == 0x43
      then add_dtcs (decode_stored_dtcs message) op
      else if first == 0x47
      then add_dtcs (decode_pending_dtcs message) op
      else if first == 0x42
      then take_frame message op.freeze_frame_dtc op
      else if first == 0x49 && not (ltb (length payload) 2)
      then add_metadata (decode_mode09_metadata message (get_or payload 1 0)) op
      else if first == 0x44 && is_clear op.kind
      then take_clear_response (parse_clear_diagnostic_response message) op
      else op

  unfoldable pub handle_message :
      ObdMessage → ℕ → Option (DiagnosticOperation F) → Option (DiagnosticOperation F)
  unfolding take_message
  handle_message message epoch none = none
  handle_message message epoch (some op) =
      if not (op.epoch == epoch) || length (payload_of message) == 0
      then some op
      else some (take_message message op)

module _ {F V : Type 0} (fl : Float F) (ev : Evaluator F V) where
  unfoldable pub ingest : List (TelemetrySample F) → EngineState F V → EngineState F V
  ingest [] s = s
  ingest (x ∷ xs) s =
      ingest xs (record s { telemetry = update x s.telemetry; evaluator = ev.ingest x s.evaluator })

  -- What a decoded Mode 01 response does; `none` would be a call through a null pointer, which no
  -- message makes. An error is published, and the message is not recorded.
  unfoldable pub take_samples :
      ℕ → ObdMessage → Option (Result (List (TelemetrySample F))) → EngineState F V → Outcome F V
  unfolding ingest
  take_samples epoch message none s = ([], s)
  take_samples epoch message (some (err e)) s = (
    Effect.publishes (record {
      type = EngineEventType.error_event;
      connection_state = ConnectionState.disconnected;
      epoch = s.epoch;
      error = some e;
    })
        ∷ [],
    s,
  )
  take_samples epoch message (some (ok samples)) s =
      let fed = ingest samples s in
      let evaluated = ev.evaluate message.monotonic_ts fed.evaluator in
      let after = record fed { evaluator = evaluated.1 } in
      let telemetry = publish EngineEventType.telemetry_updated none after in
      let findings = publish EngineEventType.diagnostic_findings_updated none after in
      (
        (if s.playback_rebuilding then [] else telemetry)
            ++ (if evaluated.0 && not s.playback_rebuilding then findings else [])
            ++ Effect.records epoch message ∷ [],
        after,
      )

  -- `processPackets`, for one packet
  unfoldable pub process_packet : ℕ → ObdMessage → EngineState F V → Outcome F V
  unfolding remember_line diagnostic_line handle_message take_samples
  process_packet epoch message s =
      let payload = payload_of message in
      let line =
        remember_line (diagnostic_line message.ecu_address payload) s.recent_diagnostic_lines in
      let noted = record s {
        recent_diagnostic_lines =
            if not (length payload == 0) && is_diagnostic_service (get_or payload 0 0)
            then line
            else s.recent_diagnostic_lines;
        operation = handle_message fl message s.epoch s.operation;
      } in
      if not (epoch == s.epoch)
      then ([], s)
      else if not (ltb (length payload) 2) && get_or payload 0 0 == 0x41
      then take_samples epoch message (decode_mode01_response fl message (get_or payload 1 0)) noted
      else (Effect.records epoch message ∷ [], noted)
