-- ===== src/Protocol/IsoTp/Invariant.antt =====
-- The state of `IsoTpTraceReassembler` between calls, and what `expire` removes.
use rev_dash.Prelude.{
  ℕ, ◌+◌, ◌≤◌, ◌<◌, ◌≡◌, ◌≢◌, ==_iff, Option, some, List, [], ◌∷◌, All, arith, length, Bool-cases,
  Option-cases, inl, inr, min, ltb, leb, ◌==◌, take, length-append, length-take,
}
use rev_dash.Prelude.Dict.{
  find, erase, assign, find-assign, find-erase, IsUnique, erase-IsUnique, assign-IsUnique,
}
use rev_dash.Core.Error.{Result, Result-cases, ok}
use rev_dash.Core.Types.{max_iso_tp_payload_bytes}
use rev_dash.Protocol.IsoTp.Frames.{
  IsoTpAddress, address_eq, IsoTpFrameType, IsoTpFrame, IsoTpTraceFrame, make_frame,
  parse_iso_tp_trace_frame, frame_bytes,
}
use rev_dash.Protocol.IsoTp.Reassembler.{
  IsoTpTraceReassembler, PendingMessage, ReassembledIsoTpPayload, accept, accept_as, accept_single,
  accept_first, accept_consecutive, accept_found, extend, begun, sub_size,
}
use rev_dash.Protocol.IsoTp.Trace.{take_in, take_in-parsed, take_in-unparsed, feed}

-- A message under way still lacks bytes of a length that ISO-TP can declare.
pub record IsUnderWay (p : PendingMessage) : Type 0 where
  pub incomplete : length p.payload < p.declared_length
  pub bounded : p.declared_length ≤ max_iso_tp_payload_bytes
  pub sequence : p.expected_sequence < 16

pub record IsValid (r : IsoTpTraceReassembler) : Type 0 where
  pub unique : IsUnique r.pending
  pub entries : (a : IsoTpAddress) (p : PendingMessage) → find a r.pending ≡ some p → IsUnderWay p

-- What the parser vouches for.
record IsParsed (g : IsoTpFrame) : Type 0 where
  declared : g.declared_length ≤ max_iso_tp_payload_bytes
  few : g.payload_length ≤ 7

parse-IsParsed :
    (f : IsoTpTraceFrame) (g : IsoTpFrame) → parse_iso_tp_trace_frame f ≡ ok g → IsParsed g
unfolding parse_iso_tp_trace_frame make_frame
parse-IsParsed f g e = ground arith

assign-IsValid :
    (r : IsoTpTraceReassembler) (a : IsoTpAddress) (p : PendingMessage)
    → IsValid r
    → IsUnderWay p
    → IsValid (record r { pending = assign a p r.pending })
assign-IsValid r a p v u = record {
  unique = assign-IsUnique a p r.pending v.unique;
  entries = λ b q e. ground (arith, find-assign a b p r.pending, v.entries b q);
}

erase-IsValid :
    (r : IsoTpTraceReassembler) (a : IsoTpAddress)
    → IsValid r
    → IsValid (record r { pending = erase a r.pending })
erase-IsValid r a v = record {
  unique = erase-IsUnique a r.pending v.unique;
  entries = λ b q e. ground (arith, find-erase a b r.pending, v.entries b q);
}

-- The wrapping subtraction in `accept` does not wrap, so no byte past the declared length is kept.
extend-bounded :
    (p : PendingMessage) (g : IsoTpFrame)
    → IsUnderWay p
    → length (extend p g).payload ≤ p.declared_length
unfolding extend
extend-bounded p g u = omega (
  arith,
  length-append p.payload (take copied (frame_bytes g)),
  length-take copied (frame_bytes g),
)
  where
    copied : ℕ
    copied = min (sub_size p.declared_length (length p.payload)) (length (frame_bytes g))

extend-IsUnderWay :
    (p : PendingMessage) (g : IsoTpFrame)
    → IsUnderWay p
    → length (extend p g).payload ≢ (extend p g).declared_length
    → IsUnderWay (extend p g)
unfolding extend
extend-IsUnderWay p g u ne =
    let most : length (extend p g).payload ≤ p.declared_length = extend-bounded p g u in
    record { incomplete = omega arith; bounded = u.bounded; sequence = omega arith }

-- A delivered payload is no longer than ISO-TP allows.
abbrev IsBounded : Result (Option ReassembledIsoTpPayload) → Type 0
IsBounded (ok (some m)) = length m.payload ≤ max_iso_tp_payload_bytes
IsBounded _ = Unit

-- A call keeps the state valid and delivers nothing too long.
abbrev Keeps : Result (Option ReassembledIsoTpPayload) × IsoTpTraceReassembler → Type 0
Keeps out = IsBounded out.0 × IsValid out.1

accept_found-Keeps :
    (r : IsoTpTraceReassembler) (g : IsoTpFrame) (p : PendingMessage)
    → IsValid r
    → IsUnderWay p
    → Keeps (accept_found r g p)
unfolding accept_found
accept_found-Keeps r g p v u = elim (Bool-cases (ltb (p.last_timestamp + r.timeout) g.timestamp)) [
  | inl late ↦ rw late (tt, erase-IsValid r g.address v)
  | inr in_time ↦ rw in_time (elim (Bool-cases (g.sequence_number == p.expected_sequence)) [
    | inr jump ↦ rw jump (tt, erase-IsValid r g.address v)
    | inl next ↦
        rw next (elim (Bool-cases (length (extend p g).payload == (extend p g).declared_length)) [
          | inl full ↦
              rw full (omega (arith, extend-bounded p g u, u.bounded), erase-IsValid r g.address v)
          | inr more ↦ rw more (
            tt,
            assign-IsValid r g.address (extend p g) v
                (extend-IsUnderWay p g u (λ e. cc ((==_iff _ _).1 e))),
          )
        ])
  ])
]

accept_as-Keeps :
    (t : IsoTpFrameType) (r : IsoTpTraceReassembler) (g : IsoTpFrame)
    → IsParsed g
    → IsValid r
    → Keeps (accept_as t r g)
unfolding accept_as accept_single accept_first accept_consecutive begun
accept_as-Keeps IsoTpFrameType.flow_control r g p v = (tt, v)
accept_as-Keeps IsoTpFrameType.single_frame r g p v =
    (omega (arith, length-take g.payload_length g.payload, p.few), v)
accept_as-Keeps IsoTpFrameType.first_frame r g p v =
    elim (Bool-cases (leb g.declared_length (length (frame_bytes g)))) [
      | inl full ↦ rw full (tt, v)
      | inr less ↦ rw less (
        tt,
        assign-IsValid r g.address (begun g) v
            (record { incomplete = ground arith; bounded = p.declared; sequence = omega arith }),
      )
    ]
accept_as-Keeps IsoTpFrameType.consecutive_frame r g p v =
    elim (Option-cases (find g.address r.pending)) [
      | inl e ↦ rw e (tt, v)
      | inr (m, e) ↦ rw e (accept_found-Keeps r g m v (v.entries g.address m e))
    ]

take_in-Keeps : (r : IsoTpTraceReassembler) (f : IsoTpTraceFrame) → IsValid r → Keeps (take_in r f)
unfolding accept
take_in-Keeps r f v = elim (Result-cases (parse_iso_tp_trace_frame f)) [
  | inl (g, e) ↦ rw (take_in-parsed r f g e) (accept_as-Keeps g.type r g (parse-IsParsed f g e) v)
  | inr (x, e) ↦ rw (take_in-unparsed r f x e) (tt, v)
]

-- Whatever frames a trace holds, well formed or not and in any order, the reassembler stays valid:
-- each address has one message at most, which still lacks bytes of a declared length of at most 4095,
-- and a delivered payload has at most 4095 bytes.
pub feed-IsValid :
    (fs : List IsoTpTraceFrame) (r : IsoTpTraceReassembler)
    → IsValid r
    → All IsBounded (feed r fs).0 × IsValid (feed r fs).1
unfolding feed
feed-IsValid [] r v = (tt, v)
feed-IsValid (f ∷ fs) r v =
    let step = take_in-Keeps r f v in
    let more = feed-IsValid fs (take_in r f).1 step.1 in ((step.0, more.0), more.1)
