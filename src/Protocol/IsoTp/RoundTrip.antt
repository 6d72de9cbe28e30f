-- ===== src/Protocol/IsoTp/RoundTrip.antt =====
-- What `makeIsoTpTraceFrames` cuts into frames comes back from the parser and the reassembler.
use rev_dash.Prelude.{
  ℕ, zero, suc, ◌+◌, ◌-◌, ◌*◌, ◌%◌, ◌≤◌, ◌<◌, ◌≡◌, ◌≢◌, refl, ap, ◌∙◌, none, some, Option, List, [],
  ◌∷◌, ◌++◌, min, arith, leb, length, replicate, if◌then◌else◌, true, false,
}
use rev_dash.Prelude.Dict.{
  find, erase, assign, find-assign_self, find-assign_ne, find-erase_ne, find-erase_self,
}
use native.Mathlib.Decide.{ℕ_discrete, dec_lt}
use rev_dash.Core.Error.{ok}
use rev_dash.Core.Types.{TimePoint, max_iso_tp_payload_bytes}
use rev_dash.Protocol.IsoTp.Frames.{IsoTpAddress, address_eq, IsoTpTraceFrame}
use rev_dash.Protocol.IsoTp.Reassembler.{IsoTpTraceReassembler, PendingMessage}
use rev_dash.Protocol.IsoTp.Segment.{
  single_trace, first_trace, consecutive_trace, segment_from, make_iso_tp_trace_frames,
}
use rev_dash.Protocol.IsoTp.Trace.{take_in, Outcomes, feed, feed-cons}
use rev_dash.Protocol.IsoTp.Steps.{
  under_way, Receives, take_in-more, take_in-last, take_in-single_trace, take_in-first_trace,
}

-- `waits` frames are taken in silence, and the next one delivers `p` at time `t`.
abbrev pub delivery : ℕ → IsoTpAddress → List ℕ → TimePoint → Outcomes
delivery waits a p t =
    replicate waits (ok none)
    ++ ok (some (record { address = a; completed_at = t; payload = p })) ∷ []

-- What a trace of the payload `p` for the address `a` does to the reassembler `r`, when its first
-- frame bears the time `t` and each later one `spacing` more; `left` is what stays pending at `a`.
pub record Delivers (r : IsoTpTraceReassembler) (a : IsoTpAddress) (p : List ℕ) (t spacing : ℕ)
    (left : Option PendingMessage) (out : Outcomes × IsoTpTraceReassembler) : Type 0 where
  pub waits : ℕ
  pub outcomes : out.0 ≡ delivery waits a p (t + waits * spacing)
  pub own : find a out.1.pending ≡ left
  pub others : (b : IsoTpAddress) → a ≢ b → find b out.1.pending ≡ find b r.pending

-- A frame taken in silence, and then a delivery.
Delivers-cons :
    (r r' : IsoTpTraceReassembler) (f : IsoTpTraceFrame) (fs : List IsoTpTraceFrame)
    (a : IsoTpAddress) (p : List ℕ) (t spacing : ℕ) (left : Option PendingMessage)
    → take_in r f ≡ (ok none, r')
    → ((b : IsoTpAddress) → a ≢ b → find b r'.pending ≡ find b r.pending)
    → Delivers r' a p (t + spacing) spacing left (feed r' fs)
    → Delivers r a p t spacing left (feed r (f ∷ fs))
Delivers-cons r r' f fs a p t spacing left e same d = rw (feed-cons r r' f fs (ok none) e) (record {
  waits = suc d.waits;
  outcomes = ap (◌∷◌ (ok none)) d.outcomes ∙ ap (λ s. delivery (suc d.waits) a p s) later;
  own = d.own;
  others = λ b ne. d.others b ne ∙ same b ne;
})
  where
    later : t + spacing + d.waits * spacing ≡ t + suc d.waits * spacing
    later = grind arith

-- The frame that delivers, as the last of a trace.
Delivers-last :
    (r r' : IsoTpTraceReassembler) (f : IsoTpTraceFrame) (a : IsoTpAddress) (p : List ℕ)
    (t spacing : ℕ) (left : Option PendingMessage)
    → take_in r f ≡ (ok (some (record { address = a; completed_at = t; payload = p })), r')
    → find a r'.pending ≡ left
    → ((b : IsoTpAddress) → a ≢ b → find b r'.pending ≡ find b r.pending)
    → Delivers r a p t spacing left (feed r (f ∷ []))
unfolding feed
Delivers-last r r' f a p t spacing left e own same =
    rw (feed-cons r r' f [] _ e)
      (record { waits = 0; outcomes = ap (delivery 0 a p) (omega arith); own = own; others = same })

segment_from-more :
    (fuel : ℕ) (a : IsoTpAddress) (p : List ℕ) (spacing o seq t : ℕ)
    → o < length p
    → let n = min 7 (length p - o) in
      segment_from (suc fuel) a p spacing o seq t
      ≡ consecutive_trace a p o n seq (t + spacing)
        ∷ segment_from fuel a p spacing (o + n) ((seq + 1) % 16) (t + spacing)
unfolding segment_from
segment_from-more fuel a p spacing o seq t h = ground arith

segment_from-done :
    (fuel : ℕ) (a : IsoTpAddress) (p : List ℕ) (spacing o seq t : ℕ)
    → o ≡ length p
    → segment_from fuel a p spacing o seq t ≡ []
unfolding segment_from
segment_from-done zero a p spacing o seq t e = refl
segment_from-done (suc fuel) a p spacing o seq t e = ground arith

-- The rest of a segmented payload, from a reassembler that holds its first `o` bytes.
feed-segment_from :
    (fuel : ℕ) (r : IsoTpTraceReassembler) (a : IsoTpAddress) (p : List ℕ) (spacing o seq t : ℕ)
    → find a r.pending ≡ some (under_way p o seq t)
    → o < length p
    → length p - o ≤ fuel
    → length p ≤ 4095
    → seq < 16
    → spacing ≤ r.timeout
    → Delivers r a p (t + spacing) spacing none (feed r (segment_from fuel a p spacing o seq t))
feed-segment_from zero r a p spacing o seq t e h k l m s = absurd (omega arith)
feed-segment_from (suc fuel) r a p spacing o seq t e h k l m s =
    rw (segment_from-more fuel a p spacing o seq t h) (elim (ℕ_discrete (o + n) (length p)) [
      | yes done ↦
          rw (segment_from-done fuel a p spacing (o + n) ((seq + 1) % 16) (t + spacing) done) (
            Delivers-last r (record r { pending = erase a r.pending }) _ a p (t + spacing) spacing
              none (take_in-last r a p o n seq (t + spacing) v done) (find-erase_self a r.pending)
              (λ b ne. find-erase_ne a b r.pending ne))
      | no more ↦
          Delivers-cons r (record r { pending = assign a next r.pending }) _ _ a p (t + spacing)
            spacing none (take_in-more r a p o n seq (t + spacing) v more)
            (λ b ne. find-assign_ne a b next r.pending ne)
            (feed-segment_from fuel (record r { pending = assign a next r.pending }) a p spacing
              (o + n) ((seq + 1) % 16) (t + spacing) (find-assign_self a next r.pending)
              (omega arith) (omega arith) l (omega arith) s)
    ])
  where
    n : ℕ
    n = min 7 (length p - o)

    next : PendingMessage
    next = under_way p (o + n) ((seq + 1) % 16) (t + spacing)

    v : Receives r a p o n seq (t + spacing)
    v = record {
      last = t;
      holds = e;
      in_time = omega arith;
      fits = omega arith;
      small = l;
      seq_small = m;
      some_bytes = omega arith;
      few_bytes = omega arith;
    }

-- For every payload of 1 to 4095 bytes, every address, start and spacing within the timeout, and
-- whatever the reassembler holds, `makeIsoTpTraceFrames` succeeds; feeding its frames gives no error,
-- delivers the payload exactly once, with the last frame and bearing that frame's time; a segmented
-- payload leaves nothing pending at its address, and the messages of other addresses stay.
pub feed-make_iso_tp_trace_frames :
    (r : IsoTpTraceReassembler) (a : IsoTpAddress) (p : List ℕ) (start spacing : ℕ)
    → 1 ≤ length p
    → length p ≤ max_iso_tp_payload_bytes
    → spacing ≤ r.timeout
    → (frames : List IsoTpTraceFrame) × (make_iso_tp_trace_frames a p start spacing ≡ ok frames)
      × Delivers r a p start spacing
          (if leb (length p) 7 then find a r.pending else none)
          (feed r frames)
unfolding make_iso_tp_trace_frames
feed-make_iso_tp_trace_frames r a p start spacing h k l = elim (dec_lt 7 (length p)) [
  | yes long ↦ (
    first_trace a p start ∷ rest,
    ground arith,
    rw (long_test long) (
        Delivers-cons r r' _ rest a p start spacing none (take_in-first_trace r a p start long k)
          (λ b ne. find-assign_ne a b begun r.pending ne)
          (feed-segment_from (length p) r' a p spacing 6 1 start
            (find-assign_self a begun r.pending) (omega arith) (omega arith) k (omega arith) l)),
  )
  | no short ↦ (
    single_trace a p start ∷ [],
    ground arith,
    rw (short_test (omega arith)) (
        Delivers-last r r _ a p start spacing (find a r.pending)
          (take_in-single_trace r a p start h (omega arith)) refl (λ b ne. refl)),
  )
]
  where
    begun : PendingMessage
    begun = under_way p 6 1 start

    r' : IsoTpTraceReassembler
    r' = record r { pending = assign a begun r.pending }

    rest : List IsoTpTraceFrame
    rest = segment_from (length p) a p spacing 6 1 start

    long_test : 7 < length p → leb (length p) 7 ≡ false
    long_test x = ground arith

    short_test : length p ≤ 7 → leb (length p) 7 ≡ true
    short_test x = ground arith
