-- ===== src/Protocol/IsoTp/Trace.antt =====
-- A recorded trace read frame by frame, as a client of isotp_trace.hpp does: each frame goes through
-- `parseIsoTpTraceFrame`, and what that accepts through `IsoTpTraceReassembler::accept`.
use rev_dash.Prelude.{List, [], ◌∷◌, Option, ◌≡◌, refl}
use rev_dash.Core.Error.{Error, Result, ok, err}
use rev_dash.Protocol.IsoTp.Frames.{IsoTpTraceFrame, IsoTpFrame, parse_iso_tp_trace_frame}
use rev_dash.Protocol.IsoTp.Reassembler.{
  IsoTpTraceReassembler, ReassembledIsoTpPayload, Accepted, accept,
}

unfoldable pub take_in : IsoTpTraceReassembler → IsoTpTraceFrame → Accepted
take_in r frame = elim (parse_iso_tp_trace_frame frame) [ ok g ↦ accept r g | err e ↦ (err e, r) ]

pub take_in-parsed :
    (r : IsoTpTraceReassembler) (f : IsoTpTraceFrame) (g : IsoTpFrame)
    → parse_iso_tp_trace_frame f ≡ ok g
    → take_in r f ≡ accept r g
unfolding take_in
take_in-parsed r f g e = rw (e, take_in)

abbrev pub Outcomes : Type 0
Outcomes = List (Result (Option ReassembledIsoTpPayload))

unfoldable pub feed :
    IsoTpTraceReassembler → List IsoTpTraceFrame → Outcomes × IsoTpTraceReassembler
feed r [] = ([], r)
feed r (frame ∷ frames) =
    let (o, r') = take_in r frame in let (os, r'') = feed r' frames in (o ∷ os, r'')

pub feed-cons :
    (r r' : IsoTpTraceReassembler) (f : IsoTpTraceFrame) (fs : List IsoTpTraceFrame)
    (o : Result (Option ReassembledIsoTpPayload))
    → take_in r f ≡ (o, r')
    → feed r (f ∷ fs) ≡ (o ∷ (feed r' fs).0, (feed r' fs).1)
unfolding feed
feed-cons r r' f fs o e = rw e refl

pub take_in-unparsed :
    (r : IsoTpTraceReassembler) (f : IsoTpTraceFrame) (e : Error)
    → parse_iso_tp_trace_frame f ≡ err e
    → take_in r f ≡ (err e, r)
unfolding take_in
take_in-unparsed r f e q = rw (q, take_in)
