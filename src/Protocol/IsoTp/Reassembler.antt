-- ===== src/Protocol/IsoTp/Reassembler.antt =====
-- isotp_trace.cpp: `IsoTpTraceReassembler`, which joins the frames of a segmented payload. Its map
-- from addresses to messages under way is an association list.
use rev_dash.Prelude.{
  ℕ, ◌+◌, ◌-◌, ◌%◌, ◌^◌, Bool, not, Option, none, some, List, [], ◌++◌, min, ltb, leb, ◌==◌,
  if◌then◌else◌, length, take,
}
use rev_dash.Prelude.Dict.{Dict, find, erase, assign, erase_if}
use rev_dash.Core.Error.{Result, ok, fail, transport_timeout}
use rev_dash.Core.Types.{TimePoint, Duration}
use rev_dash.Protocol.IsoTp.Frames.{
  IsoTpAddress, address_eq, IsoTpFrameType, IsoTpFrame, frame_bytes, malformed,
}

pub record ReassembledIsoTpPayload : Type 0 where
  pub address : IsoTpAddress
  pub completed_at : TimePoint
  pub payload : List ℕ

pub record PendingMessage : Type 0 where
  pub declared_length : ℕ
  pub expected_sequence : ℕ
  pub last_timestamp : TimePoint
  pub payload : List ℕ

pub record IsoTpTraceReassembler : Type 0 where
  pub timeout : Duration
  pub pending : Dict IsoTpAddress PendingMessage

abbrev pub Accepted : Type 0
Accepted = Result (Option ReassembledIsoTpPayload) × IsoTpTraceReassembler

unfoldable pub accept_single : IsoTpTraceReassembler → IsoTpFrame → Accepted
accept_single r frame = (
  ok (
      some (record {
        address = frame.address;
        completed_at = frame.timestamp;
        payload = frame_bytes frame;
      })),
  r,
)

-- The message that a first frame begins.
unfoldable pub begun : IsoTpFrame → PendingMessage
begun frame = record {
  declared_length = frame.declared_length;
  expected_sequence = 1;
  last_timestamp = frame.timestamp;
  payload = frame_bytes frame;
}

unfoldable pub accept_first : IsoTpTraceReassembler → IsoTpFrame → Accepted
unfolding begun
accept_first r frame =
    if leb frame.declared_length (length (begun frame).payload)
    then (malformed "ISO-TP first frame payload is inconsistent with its declared length", r)
    else (ok none, record r { pending = assign frame.address (begun frame) r.pending })

-- `std::size_t` subtraction wraps.
abbrev pub sub_size : ℕ → ℕ → ℕ
sub_size a b = (a + 2 ^ 64 - b) % 2 ^ 64

-- The message with the bytes of `frame` that it still lacks.
unfoldable pub extend : PendingMessage → IsoTpFrame → PendingMessage
extend p frame =
    let remaining = sub_size p.declared_length (length p.payload) in
    let copy_count = min remaining (length (frame_bytes frame)) in
    record p {
      expected_sequence = (p.expected_sequence + 1) % 16;
      last_timestamp = frame.timestamp;
      payload = p.payload ++ take copy_count (frame_bytes frame);
    }

-- `accept` for a consecutive frame, once the entry of its address is found.
unfoldable pub accept_found : IsoTpTraceReassembler → IsoTpFrame → PendingMessage → Accepted
unfolding extend
accept_found r frame p =
    let dropped : IsoTpTraceReassembler = record r { pending = erase frame.address r.pending } in
    if ltb (p.last_timestamp + r.timeout) frame.timestamp
    then (fail transport_timeout "ISO-TP trace reassembly timed out", dropped)
    else if not (frame.sequence_number == p.expected_sequence)
    then (malformed "ISO-TP consecutive frame sequence number is incorrect or duplicated", dropped)
    else (let p' = extend p frame in
        if not (length p'.payload == p'.declared_length)
        then (ok none, record r { pending = assign frame.address p' r.pending })
        else (
          ok (
              some (record {
                address = frame.address;
                completed_at = frame.timestamp;
                payload = p'.payload;
              })),
          dropped,
        ))

unfoldable pub accept_consecutive :
    IsoTpTraceReassembler → IsoTpFrame → Option PendingMessage → Accepted
accept_consecutive r frame none =
    (malformed "ISO-TP consecutive frame has no matching first frame", r)
accept_consecutive r frame (some p) = accept_found r frame p

unfoldable pub accept_as : IsoTpFrameType → IsoTpTraceReassembler → IsoTpFrame → Accepted
accept_as IsoTpFrameType.flow_control r frame = (ok none, r)
accept_as IsoTpFrameType.single_frame r frame = accept_single r frame
accept_as IsoTpFrameType.first_frame r frame = accept_first r frame
accept_as IsoTpFrameType.consecutive_frame r frame =
    accept_consecutive r frame (find frame.address r.pending)

-- `IsoTpTraceReassembler::accept`
unfoldable pub accept : IsoTpTraceReassembler → IsoTpFrame → Accepted
unfolding accept_as accept_single accept_first accept_consecutive accept_found
accept r frame = accept_as frame.type r frame

-- `now - last_timestamp > timeout_`
abbrev pub is_stale : IsoTpTraceReassembler → TimePoint → PendingMessage → Bool
is_stale r now p = ltb (p.last_timestamp + r.timeout) now

-- `IsoTpTraceReassembler::expire`
unfoldable pub expire : IsoTpTraceReassembler → TimePoint → ℕ × IsoTpTraceReassembler
expire r now =
    let kept = erase_if (is_stale r now) r.pending in
    (length r.pending - length kept, record r { pending = kept })

-- `IsoTpTraceReassembler::reset`
unfoldable pub reset : IsoTpTraceReassembler → IsoTpTraceReassembler
reset r = record r { pending = [] }
