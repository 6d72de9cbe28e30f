-- ===== src/Protocol/IsoTp/Segment.antt =====
-- isotp_trace.cpp: `makeIsoTpTraceFrames`, which cuts a payload into the frames of a trace.
use rev_dash.Prelude.{
  ℕ, zero, suc, ◌+◌, ◌-◌, ◌/◌, ◌%◌, ◌||◌, List, [], ◌∷◌, min, ltb, leb, ◌==◌, if◌then◌else◌, length,
  take, drop, copy_front,
}
use rev_dash.Core.Error.{Result, ok, fail, protocol_payload_too_large}
use rev_dash.Core.Types.{TimePoint, Duration, zero_bytes, max_iso_tp_payload_bytes}
use rev_dash.Protocol.IsoTp.Frames.{IsoTpAddress, IsoTpTraceFrame}

-- The frame of a payload of at most 7 bytes.
unfoldable pub single_trace : IsoTpAddress → List ℕ → TimePoint → IsoTpTraceFrame
single_trace address payload timestamp = record {
  address = address;
  timestamp = timestamp;
  length = (length payload + 1) % 256;
  bytes = (length payload % 256) ∷ copy_front payload (zero_bytes 7);
}

-- The first frame of a longer payload. `0x10 | ((size >> 8) & 0x0F)` shares no bit, so it is a sum.
unfoldable pub first_trace : IsoTpAddress → List ℕ → TimePoint → IsoTpTraceFrame
first_trace address payload timestamp = record {
  address = address;
  timestamp = timestamp;
  length = 8;
  bytes =
      (16 + length payload / 256 % 16)
      ∷ (length payload % 256)
      ∷ copy_front (take 6 payload) (zero_bytes 6);
}

-- The frame of the loop's body, with `count` bytes from `offset` on. `0x20 | sequence` is a sum too.
unfoldable pub consecutive_trace : IsoTpAddress → List ℕ → ℕ → ℕ → ℕ → TimePoint → IsoTpTraceFrame
consecutive_trace address payload offset count sequence timestamp = record {
  address = address;
  timestamp = timestamp;
  length = (count + 1) % 256;
  bytes = (32 + sequence) ∷ copy_front (take count (drop offset payload)) (zero_bytes 7);
}

-- The loop `while (offset < payload.size())`; each round takes a byte at least, so the size is fuel
-- enough.
unfoldable pub segment_from :
    ℕ → IsoTpAddress → List ℕ → Duration → ℕ → ℕ → TimePoint → List IsoTpTraceFrame
segment_from zero address payload spacing offset sequence timestamp = []
segment_from (suc fuel) address payload spacing offset sequence timestamp =
    let count = min 7 (length payload - offset) in
    let rest =
      segment_from fuel address payload spacing (offset + count) ((sequence + 1) % 16)
        (timestamp + spacing) in
    if ltb offset (length payload)
    then consecutive_trace address payload offset count sequence (timestamp + spacing) ∷ rest
    else []

-- `makeIsoTpTraceFrames`
unfoldable pub make_iso_tp_trace_frames :
    IsoTpAddress → List ℕ → TimePoint → Duration → Result (List IsoTpTraceFrame)
make_iso_tp_trace_frames address payload start spacing =
    if length payload == 0 || ltb max_iso_tp_payload_bytes (length payload)
    then fail protocol_payload_too_large "ISO-TP fixture payload must contain 1 to 4095 bytes"
    else if leb (length payload) 7
    then ok (single_trace address payload start ∷ [])
    else ok (
        first_trace address payload start
        ∷ segment_from (length payload) address payload spacing 6 1 start)
