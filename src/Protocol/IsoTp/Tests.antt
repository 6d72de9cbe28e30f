-- ===== src/Protocol/IsoTp/Tests.antt =====
-- Runs of the ISO-TP model on small traces, and its theorems at concrete inputs.
use rev_dash.Prelude.{ℕ, ◌≡◌, refl, none, some, List, [], ◌∷◌, ◌++◌, arith, length, ◌+◌}
use rev_dash.Prelude.Dict.{find, assign, erase}
use rev_dash.Core.Error.{ok}
use rev_dash.Core.Types.{can_11_bit, zero_bytes}
use rev_dash.Protocol.IsoTp.Frames.{
  IsoTpAddress, address_eq, IsoTpTraceFrame, make_frame, parse_iso_tp_trace_frame,
}
use rev_dash.Protocol.IsoTp.Reassembler.{IsoTpTraceReassembler, accept, expire}
use rev_dash.Protocol.IsoTp.Segment.{
  first_trace, consecutive_trace, segment_from, make_iso_tp_trace_frames,
}
use rev_dash.Protocol.IsoTp.Trace.{take_in, feed}
use rev_dash.Protocol.IsoTp.RoundTrip.{Delivers, feed-make_iso_tp_trace_frames}
use rev_dash.Protocol.IsoTp.Isolation.{Agree, frames_at, outcomes_at, outcomes_at-frames_at}
use rev_dash.Protocol.IsoTp.Invariant.{IsValid, feed-IsValid}
use rev_dash.Protocol.IsoTp.Expiry.{expire_lem}

abbrev engine : IsoTpAddress
engine = record {
  source = record { value = 0x7e8; format = can_11_bit };
  destination = record { value = 0x7e0; format = can_11_bit };
}

abbrev gearbox : IsoTpAddress
gearbox = record {
  source = record { value = 0x7e9; format = can_11_bit };
  destination = record { value = 0x7e1; format = can_11_bit };
}

abbrev empty : IsoTpTraceReassembler
empty = record { timeout = 1_000_000_000; pending = [] }

abbrev vin : List ℕ
vin = 0x49 ∷ 2 ∷ 1 ∷ 0x31 ∷ 0x47 ∷ 0x31 ∷ 0x4a ∷ 0x43 ∷ 0x35 ∷ 0x34 ∷ []

-- Two frames carry ten bytes.
frames-vin :
    make_iso_tp_trace_frames engine vin 5 1
    ≡ ok (
        record {
          address = engine;
          timestamp = 5;
          length = 8;
          bytes = 0x10 ∷ 10 ∷ 0x49 ∷ 2 ∷ 1 ∷ 0x31 ∷ 0x47 ∷ 0x31 ∷ [];
        }
        ∷ record {
          address = engine;
          timestamp = 6;
          length = 5;
          bytes = 0x21 ∷ 0x4a ∷ 0x43 ∷ 0x35 ∷ 0x34 ∷ 0 ∷ 0 ∷ 0 ∷ [];
        }
        ∷ [])
unfolding make_iso_tp_trace_frames first_trace segment_from consecutive_trace zero_bytes
frames-vin = refl

abbrev first : IsoTpTraceFrame
first = record {
  address = engine;
  timestamp = 5;
  length = 8;
  bytes = 0x10 ∷ 10 ∷ 0x49 ∷ 2 ∷ 1 ∷ 0x31 ∷ 0x47 ∷ 0x31 ∷ [];
}

abbrev stray : IsoTpTraceFrame
stray = record {
  address = gearbox;
  timestamp = 6;
  length = 2;
  bytes = 0x21 ∷ 9 ∷ 0 ∷ 0 ∷ 0 ∷ 0 ∷ 0 ∷ 0 ∷ [];
}

abbrev second : IsoTpTraceFrame
second = record {
  address = engine;
  timestamp = 7;
  length = 5;
  bytes = 0x21 ∷ 0x4a ∷ 0x43 ∷ 0x35 ∷ 0x34 ∷ 0 ∷ 0 ∷ 0 ∷ [];
}

-- The stray frame of another address is refused, and the message still arrives.
feed-interleaved :
    (feed empty (first ∷ stray ∷ second ∷ [])).0
    ≡ ok none ∷ (feed empty (stray ∷ [])).0
      ++ ok (some (record { address = engine; completed_at = 7; payload = vin })) ∷ []
unfolding feed take_in parse_iso_tp_trace_frame accept make_frame zero_bytes find assign erase
feed-interleaved = refl

feed-make_iso_tp_trace_frames_example :
    (frames : List IsoTpTraceFrame) × (make_iso_tp_trace_frames engine vin 5 1 ≡ ok frames)
    × Delivers empty engine vin 5 1 none (feed empty frames)
feed-make_iso_tp_trace_frames_example =
    feed-make_iso_tp_trace_frames empty engine vin 5 1 (omega arith) (omega arith) (omega arith)

outcomes_at-frames_at_example :
    (outcomes_at engine empty (first ∷ stray ∷ second ∷ [])
      ≡ (feed empty (frames_at engine (first ∷ stray ∷ second ∷ []))).0)
    × Agree engine
        (feed empty (first ∷ stray ∷ second ∷ [])).1
        (feed empty (frames_at engine (first ∷ stray ∷ second ∷ []))).1
outcomes_at-frames_at_example =
    outcomes_at-frames_at engine (first ∷ stray ∷ second ∷ []) empty empty
      (record { same = refl; timeout = refl })

empty-IsValid : IsValid empty
unfolding find
empty-IsValid = record { unique = tt; entries = λ a p e. cc }

feed-IsValid_example : IsValid (feed empty (first ∷ stray ∷ [])).1
feed-IsValid_example = (feed-IsValid (first ∷ stray ∷ []) empty empty-IsValid).1

expire_lem_example :
    length (expire (feed empty (first ∷ [])).1 9_000_000_000).1.pending
      + (expire (feed empty (first ∷ [])).1 9_000_000_000).0
    ≡ length (feed empty (first ∷ [])).1.pending
expire_lem_example =
    (expire_lem (feed empty (first ∷ [])).1 9_000_000_000
      (feed-IsValid (first ∷ []) empty empty-IsValid).1).2
