-- ===== src/Protocol/IsoTp/Frames.antt =====
-- isotp_trace.hpp and isotp_trace.cpp: ISO-TP addresses, frames recorded on a CAN bus, and
-- `parseIsoTpTraceFrame`.
use rev_dash.Prelude.{
  ℕ, ◌+◌, ◌-◌, ◌*◌, ◌/◌, ◌%◌, ◌≡◌, ◌↔◌, String, Bool, true, not, ◌&&◌, ◌||◌, List, arith, ltb, leb,
  ◌==◌, if◌then◌else◌, Eq, get_or, take, drop, copy_front,
}
use rev_dash.Core.Error.{Result, ok, fail, protocol_malformed_response}
use rev_dash.Core.Types.{
  EcuAddress, ecu_beq, ecu_beq_iff, TimePoint, zero_bytes, max_iso_tp_payload_bytes,
}

pub record IsoTpAddress : Type 0 where
  pub source : EcuAddress
  pub destination : EcuAddress

-- `operator==` of `IsoTpAddress`
abbrev pub address_beq : IsoTpAddress → IsoTpAddress → Bool
address_beq a b = ecu_beq a.source b.source && ecu_beq a.destination b.destination

pub address_beq_iff : (a b : IsoTpAddress) → (address_beq a b ≡ true) ↔ (a ≡ b)
address_beq_iff a b =
    ground (arith, ecu_beq_iff a.source b.source, ecu_beq_iff a.destination b.destination)

instance abbrev pub address_eq : Eq IsoTpAddress
address_eq = record { beq = address_beq; beq_iff = address_beq_iff }

-- `bytes` is the array of 8, of which the first `length` belong to the frame.
pub record IsoTpTraceFrame : Type 0 where
  pub address : IsoTpAddress
  pub timestamp : TimePoint
  pub length : ℕ
  pub bytes : List ℕ

pub data IsoTpFrameType : Type 0 where
  single_frame first_frame consecutive_frame flow_control : IsoTpFrameType

pub record IsoTpFrame : Type 0 where
  pub type : IsoTpFrameType
  pub address : IsoTpAddress
  pub timestamp : TimePoint
  pub declared_length : ℕ
  pub sequence_number : ℕ
  pub flow_status : ℕ
  pub block_size : ℕ
  pub st_min : ℕ
  pub payload : List ℕ
  pub payload_length : ℕ

-- `IsoTpFrame::bytes`
abbrev pub frame_bytes : IsoTpFrame → List ℕ
frame_bytes f = take f.payload_length f.payload

abbrev pub malformed {ℓ} : {A : Type ℓ} → String → Result A
malformed = fail protocol_malformed_response

-- `makeFrame`
unfoldable pub make_frame : IsoTpTraceFrame → IsoTpFrameType → IsoTpFrame
make_frame trace type = record {
  type = type;
  address = trace.address;
  timestamp = trace.timestamp;
  declared_length = 0;
  sequence_number = 0;
  flow_status = 0;
  block_size = 0;
  st_min = 0;
  payload = zero_bytes 7;
  payload_length = 0;
}

parse_single : IsoTpTraceFrame → List ℕ → ℕ → Result IsoTpFrame
parse_single frame bytes low =
    if low == 0 || ltb 7 low || not (frame.length == low + 1)
    then malformed "ISO-TP single frame has an invalid declared length"
    else ok (record (make_frame frame IsoTpFrameType.single_frame) {
      declared_length = low;
      payload = copy_front (take low (drop 1 bytes)) (zero_bytes 7);
      payload_length = low;
    })

-- The two operands of `(low << 8) | bytes[1]` share no bit, so their sum is the same number.
parse_first : IsoTpTraceFrame → List ℕ → ℕ → Result IsoTpFrame
parse_first frame bytes low =
    if ltb frame.length 3
    then malformed "ISO-TP first frame is truncated"
    else (let declared = low * 256 + get_or bytes 1 0 in
        if leb declared 7 || ltb max_iso_tp_payload_bytes declared
        then malformed "ISO-TP first frame declares an invalid payload length"
        else ok (record (make_frame frame IsoTpFrameType.first_frame) {
          declared_length = declared;
          payload = copy_front (drop 2 bytes) (zero_bytes 7);
          payload_length = (frame.length - 2) % 256;
        }))

parse_consecutive : IsoTpTraceFrame → List ℕ → ℕ → Result IsoTpFrame
parse_consecutive frame bytes low =
    if ltb frame.length 2
    then malformed "ISO-TP consecutive frame has no payload bytes"
    else ok (record (make_frame frame IsoTpFrameType.consecutive_frame) {
      sequence_number = low;
      payload = copy_front (drop 1 bytes) (zero_bytes 7);
      payload_length = (frame.length - 1) % 256;
    })

parse_flow_control : IsoTpTraceFrame → List ℕ → ℕ → Result IsoTpFrame
parse_flow_control frame bytes low =
    if ltb frame.length 3 || ltb 2 low
    then malformed "ISO-TP flow-control frame is malformed"
    else ok (record (make_frame frame IsoTpFrameType.flow_control) {
      flow_status = low;
      block_size = get_or bytes 1 0;
      st_min = get_or bytes 2 0;
    })

-- `parseIsoTpTraceFrame`. The size of `frame.bytes()` is `frame.length`, whatever the array holds.
unfoldable pub parse_iso_tp_trace_frame : IsoTpTraceFrame → Result IsoTpFrame
unfolding parse_single parse_first parse_consecutive parse_flow_control
parse_iso_tp_trace_frame frame =
    if frame.length == 0 || ltb 8 frame.length
    then malformed "ISO-TP trace frame has an invalid CAN data length"
    else (let bytes = take frame.length frame.bytes in
        let kind = get_or bytes 0 0 / 16 in
        let low = get_or bytes 0 0 % 16 in
        if kind == 0
        then parse_single frame bytes low
        else if kind == 1
        then parse_first frame bytes low
        else if kind == 2
        then parse_consecutive frame bytes low
        else if kind == 3
        then parse_flow_control frame bytes low
        else malformed "ISO-TP trace frame has an unsupported PCI type")
