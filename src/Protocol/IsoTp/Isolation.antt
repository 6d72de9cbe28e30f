-- ===== src/Protocol/IsoTp/Isolation.antt =====
-- Messages of one address, among the frames of others, in isotp_trace.cpp.
use rev_dash.Prelude.{
  ◌≡◌, ◌≢◌, refl, sym, ◌∙◌, Option, none, some, List, [], ◌∷◌, arith, if◌then◌else◌, Bool-cases,
  Option-cases, inl, inr,
}
use rev_dash.Prelude.Dict.{find, find-assign_self, find-erase_self, find-assign_ne, find-erase_ne}
use mathlib.Core.Path.{ap₂}
use rev_dash.Core.Error.{Result-cases, ok}
use rev_dash.Protocol.IsoTp.Frames.{
  IsoTpAddress, address_beq, address_beq_iff, address_eq, IsoTpFrameType, IsoTpFrame,
  IsoTpTraceFrame, make_frame, parse_iso_tp_trace_frame,
}
use rev_dash.Protocol.IsoTp.Reassembler.{
  IsoTpTraceReassembler, PendingMessage, accept, accept_as, accept_single, accept_first,
  accept_consecutive, accept_found, extend, begun,
}
use rev_dash.Protocol.IsoTp.Trace.{take_in, take_in-parsed, take_in-unparsed, Outcomes, feed}

-- Two reassemblers that a frame for `a` cannot tell apart.
pub record Agree (a : IsoTpAddress) (r s : IsoTpTraceReassembler) : Type 0 where
  pub same : find a r.pending ≡ find a s.pending
  pub timeout : r.timeout ≡ s.timeout

accept_found-Agree :
    (r s : IsoTpTraceReassembler) (g : IsoTpFrame) (p : PendingMessage)
    → Agree g.address r s
    → ((accept_found r g p).0 ≡ (accept_found s g p).0)
      × Agree g.address (accept_found r g p).1 (accept_found s g p).1
unfolding accept_found
accept_found-Agree r s g p v = ground (
  arith,
  find-assign_self g.address (extend p g) r.pending,
  find-assign_self g.address (extend p g) s.pending,
  find-erase_self g.address r.pending,
  find-erase_self g.address s.pending,
)

accept_first-Agree :
    (r s : IsoTpTraceReassembler) (g : IsoTpFrame)
    → Agree g.address r s
    → ((accept_first r g).0 ≡ (accept_first s g).0)
      × Agree g.address (accept_first r g).1 (accept_first s g).1
unfolding accept_first
accept_first-Agree r s g v = ground (
  arith,
  find-assign_self g.address (begun g) r.pending,
  find-assign_self g.address (begun g) s.pending,
)

accept_as-Agree :
    (t : IsoTpFrameType) (r s : IsoTpTraceReassembler) (g : IsoTpFrame)
    → Agree g.address r s
    → ((accept_as t r g).0 ≡ (accept_as t s g).0)
      × Agree g.address (accept_as t r g).1 (accept_as t s g).1
unfolding accept_as accept_single accept_consecutive
accept_as-Agree IsoTpFrameType.single_frame r s g v = (refl, v)
accept_as-Agree IsoTpFrameType.flow_control r s g v = (refl, v)
accept_as-Agree IsoTpFrameType.first_frame r s g v = accept_first-Agree r s g v
accept_as-Agree IsoTpFrameType.consecutive_frame r s g v =
    rw (v.same) (go (find g.address s.pending))
  where
    go :
        (o : Option PendingMessage)
        → ((accept_consecutive r g o).0 ≡ (accept_consecutive s g o).0)
          × Agree g.address (accept_consecutive r g o).1 (accept_consecutive s g o).1
    go none = (refl, v)
    go (some p) = accept_found-Agree r s g p v

-- The address of a parsed frame is that of its trace frame.
parse_iso_tp_trace_frame-address :
    (f : IsoTpTraceFrame) (g : IsoTpFrame)
    → parse_iso_tp_trace_frame f ≡ ok g
    → g.address ≡ f.address
unfolding parse_iso_tp_trace_frame make_frame
parse_iso_tp_trace_frame-address f g e = ground arith

-- A frame of another address leaves the entry of `a` and the timeout alone.
abbrev Untouched : IsoTpAddress → IsoTpTraceReassembler → IsoTpTraceReassembler → Type 0
Untouched a r r' = (find a r'.pending ≡ find a r.pending) × (r'.timeout ≡ r.timeout)

accept_found-Untouched :
    (a : IsoTpAddress) (r : IsoTpTraceReassembler) (g : IsoTpFrame) (p : PendingMessage)
    → g.address ≢ a
    → Untouched a r (accept_found r g p).1
unfolding accept_found
accept_found-Untouched a r g p ne = ground (
  arith,
  find-assign_ne g.address a (extend p g) r.pending ne,
  find-erase_ne g.address a r.pending ne,
)

accept_as-Untouched :
    (t : IsoTpFrameType) (a : IsoTpAddress) (r : IsoTpTraceReassembler) (g : IsoTpFrame)
    → g.address ≢ a
    → Untouched a r (accept_as t r g).1
unfolding accept_as accept_single accept_first accept_consecutive
accept_as-Untouched IsoTpFrameType.single_frame a r g ne = (refl, refl)
accept_as-Untouched IsoTpFrameType.flow_control a r g ne = (refl, refl)
accept_as-Untouched IsoTpFrameType.first_frame a r g ne =
    ground (arith, find-assign_ne g.address a (begun g) r.pending ne)
accept_as-Untouched IsoTpFrameType.consecutive_frame a r g ne =
    elim (Option-cases (find g.address r.pending)) [
      | inl e ↦ rw e (refl, refl)
      | inr (p, e) ↦ rw e (accept_found-Untouched a r g p ne)
    ]

take_in-Agree :
    (r s : IsoTpTraceReassembler) (f : IsoTpTraceFrame)
    → Agree f.address r s
    → ((take_in r f).0 ≡ (take_in s f).0) × Agree f.address (take_in r f).1 (take_in s f).1
unfolding accept
take_in-Agree r s f v = elim (Result-cases (parse_iso_tp_trace_frame f)) [
  | inl (g, e) ↦
      let here : f.address ≡ g.address = sym (parse_iso_tp_trace_frame-address f g e) in
      rw (take_in-parsed r f g e, take_in-parsed s f g e)
        (rw here (accept_as-Agree g.type r s g (rw here at v)))
  | inr (x, e) ↦ rw (take_in-unparsed r f x e, take_in-unparsed s f x e) (refl, v)
]

take_in-Untouched :
    (a : IsoTpAddress) (r : IsoTpTraceReassembler) (f : IsoTpTraceFrame)
    → f.address ≢ a
    → Untouched a r (take_in r f).1
unfolding accept
take_in-Untouched a r f ne = elim (Result-cases (parse_iso_tp_trace_frame f)) [
  | inl (g, e) ↦
      let here : g.address ≡ f.address = parse_iso_tp_trace_frame-address f g e in
      rw (take_in-parsed r f g e) (accept_as-Untouched g.type a r g (λ q. ne (sym here ∙ q)))
  | inr (x, e) ↦ rw (take_in-unparsed r f x e) (refl, refl)
]

-- The frames of a trace that bear the address `a`.
unfoldable pub frames_at : IsoTpAddress → List IsoTpTraceFrame → List IsoTpTraceFrame
frames_at a [] = []
frames_at a (f ∷ fs) = if address_beq f.address a then f ∷ frames_at a fs else frames_at a fs

-- What the reassembler answers to the frames at `a` while it reads a whole trace.
unfoldable pub outcomes_at : IsoTpAddress → IsoTpTraceReassembler → List IsoTpTraceFrame → Outcomes
outcomes_at a r [] = []
outcomes_at a r (f ∷ fs) =
    let (o, r') = take_in r f in
    let rest = outcomes_at a r' fs in if address_beq f.address a then o ∷ rest else rest

-- What a trace yields for one address is what the frames of that address yield alone: frames of
-- other addresses, well formed or not and wherever they stand, change neither the outcomes nor what
-- is pending for it.
pub outcomes_at-frames_at :
    (a : IsoTpAddress) (fs : List IsoTpTraceFrame) (r s : IsoTpTraceReassembler)
    → Agree a r s
    → (outcomes_at a r fs ≡ (feed s (frames_at a fs)).0)
      × Agree a (feed r fs).1 (feed s (frames_at a fs)).1
unfolding outcomes_at feed frames_at
outcomes_at-frames_at a [] r s v = (refl, v)
outcomes_at-frames_at a (f ∷ fs) r s v = elim (Bool-cases (address_beq f.address a)) [
  | inl y ↦
      let here : f.address ≡ a = (address_beq_iff f.address a).0 y in
      let step = take_in-Agree r s f (rw here v) in
      let more = outcomes_at-frames_at a fs (take_in r f).1 (take_in s f).1 (rw (← here) step.1) in
      rw y (ap₂ ◌∷◌ step.0 more.0, more.1)
  | inr n ↦
      let apart = take_in-Untouched a r f (λ e. cc ((address_beq_iff f.address a).1 e)) in
      let more =
        outcomes_at-frames_at a fs (take_in r f).1 s
          (record { same = apart.0 ∙ v.same; timeout = apart.1 ∙ v.timeout }) in
      rw n more
]
