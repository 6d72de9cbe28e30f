-- ===== src/Protocol/IsoTp/Steps.antt =====
-- How the reassembler takes each kind of frame that `makeIsoTpTraceFrames` makes.

use rev_dash.Prelude.{
  ℕ, suc, ◌+◌, ◌*◌, ◌/◌, ◌%◌, ◌≤◌, ◌<◌, ◌≡◌, ◌≢◌, refl, ◌∙◌, none, some, List, ◌∷◌, min, arith,
  length, take, drop, copy_front, take-copy_front, length-take, length-drop, take-take_self,
  take_all, take-append-take-drop,
}
use rev_dash.Prelude.Dict.{find, erase, assign}
use rev_dash.Core.Error.{ok}
use rev_dash.Core.Types.{TimePoint, zero_bytes, length-zero_bytes}
use rev_dash.Protocol.IsoTp.Frames.{
  IsoTpAddress, address_eq, IsoTpTraceFrame, IsoTpFrame, IsoTpFrameType, frame_bytes, make_frame,
  parse_iso_tp_trace_frame,
}
use rev_dash.Protocol.IsoTp.Reassembler.{
  IsoTpTraceReassembler, PendingMessage, accept, extend, sub_size,
}
use rev_dash.Protocol.IsoTp.Trace.{take_in, take_in-parsed}
use rev_dash.Protocol.IsoTp.Segment.{single_trace, first_trace, consecutive_trace}

-- The frame that a single-frame trace parses to.
abbrev single_of : IsoTpAddress → List ℕ → TimePoint → IsoTpFrame
single_of a p t = record (make_frame (single_trace a p t) IsoTpFrameType.single_frame) {
  declared_length = length p;
  payload = copy_front p (zero_bytes 7);
  payload_length = length p;
}

abbrev trace : IsoTpAddress → TimePoint → ℕ → List ℕ → IsoTpTraceFrame
trace a t n bytes = record { address = a; timestamp = t; length = n; bytes = bytes }

-- `single_trace` with its sizes reduced.
single_trace_lem :
    (a : IsoTpAddress) (p : List ℕ) (t : TimePoint)
    → length p ≤ 7
    → single_trace a p t ≡ trace a t (suc (length p)) (length p ∷ copy_front p (zero_bytes 7))
unfolding single_trace
single_trace_lem a p t h = ground arith

parse-trace-single :
    (a : IsoTpAddress) (low : ℕ) (rest : List ℕ) (t : TimePoint)
    → 1 ≤ low
    → low ≤ 7
    → parse_iso_tp_trace_frame (trace a t (suc low) (low ∷ rest))
      ≡ ok (record (make_frame (trace a t (suc low) (low ∷ rest)) IsoTpFrameType.single_frame) {
        declared_length = low;
        payload = copy_front (take low (take low rest)) (zero_bytes 7);
        payload_length = low;
      })
unfolding parse_iso_tp_trace_frame
parse-trace-single a low rest t h k = ground arith

parse-trace-first :
    (a : IsoTpAddress) (hi lo : ℕ) (rest : List ℕ) (t : TimePoint)
    → hi < 16
    → 7 < hi * 256 + lo
    → hi * 256 + lo ≤ 4095
    → parse_iso_tp_trace_frame (trace a t 8 ((16 + hi) ∷ lo ∷ rest))
      ≡ ok (record (make_frame (trace a t 8 ((16 + hi) ∷ lo ∷ rest)) IsoTpFrameType.first_frame) {
        declared_length = hi * 256 + lo;
        payload = copy_front (take 6 rest) (zero_bytes 7);
        payload_length = 6;
      })
unfolding parse_iso_tp_trace_frame
parse-trace-first a hi lo rest t h k l = ground arith

parse-trace-consecutive :
    (a : IsoTpAddress) (n seq : ℕ) (rest : List ℕ) (t : TimePoint)
    → seq < 16
    → 1 ≤ n
    → n ≤ 7
    → parse_iso_tp_trace_frame (trace a t (suc n) ((32 + seq) ∷ rest))
      ≡ ok
          (record (make_frame
            (trace a t (suc n) ((32 + seq) ∷ rest))
            IsoTpFrameType.consecutive_frame) {
              sequence_number = seq;
              payload = copy_front (take n rest) (zero_bytes 7);
              payload_length = n;
            })
unfolding parse_iso_tp_trace_frame
parse-trace-consecutive a n seq rest t h k l = ground arith

-- The message that the reassembler holds after the first `offset` bytes of `payload`.
abbrev pub under_way : List ℕ → ℕ → ℕ → TimePoint → PendingMessage
under_way payload offset sequence last = record {
  declared_length = length payload;
  expected_sequence = sequence;
  last_timestamp = last;
  payload = take offset payload;
}

length-chunk : (o n : ℕ) (p : List ℕ) → o + n ≤ length p → length (take n (drop o p)) ≡ n
length-chunk o n p h = omega (arith, length-take n (drop o p), length-drop o p)

-- A frame that carries the next `n` bytes extends the message by them.
extend-under_way :
    (p : List ℕ) (o n seq last : ℕ) (g : IsoTpFrame)
    → o + n ≤ length p
    → length p ≤ 4095
    → frame_bytes g ≡ take n (drop o p)
    → extend (under_way p o seq last) g ≡ under_way p (o + n) ((seq + 1) % 16) g.timestamp
unfolding extend
extend-under_way p o n seq last g h k e =
    rw (e, count, take-take_self n (drop o p), take-append-take-drop o n p)
  where
    count : min (sub_size (length p) (length (take o p))) (length (take n (drop o p))) ≡ n
    count = omega (arith, length-take o p, length-chunk o n p h)

-- A consecutive frame in time and in sequence for the message `m` under its address.
record Fits (r : IsoTpTraceReassembler) (g : IsoTpFrame) (m : PendingMessage) : Type 0 where
  consecutive : g.type ≡ IsoTpFrameType.consecutive_frame
  found : find g.address r.pending ≡ some m
  in_time : g.timestamp ≤ m.last_timestamp + r.timeout
  in_sequence : g.sequence_number ≡ m.expected_sequence

-- It leaves the message under way until the last byte, and then delivers it.
accept-more :
    (r : IsoTpTraceReassembler) (g : IsoTpFrame) (m : PendingMessage)
    → Fits r g m
    → length (extend m g).payload ≢ (extend m g).declared_length
    → accept r g ≡ (ok none, record r { pending = assign g.address (extend m g) r.pending })
unfolding accept
accept-more r g m f ne = rw (f.consecutive, f.found) (ground arith)

accept-last :
    (r : IsoTpTraceReassembler) (g : IsoTpFrame) (m : PendingMessage)
    → Fits r g m
    → length (extend m g).payload ≡ (extend m g).declared_length
    → accept r g ≡ (
      ok (
          some (record {
            address = g.address;
            completed_at = g.timestamp;
            payload = (extend m g).payload;
          })),
      record r { pending = erase g.address r.pending },
    )
unfolding accept
accept-last r g m f e = rw (f.consecutive, f.found) (ground arith)

-- Bytes that went through two arrays that hold them.
take-copied :
    (m n : ℕ) (xs : List ℕ)
    → length xs ≡ n
    → n ≤ m
    → n ≤ 7
    → take n (copy_front (take n (copy_front xs (zero_bytes m))) (zero_bytes 7)) ≡ xs
take-copied m n xs e h k = rw (← e) (rw (copied m (omega arith), copied 7 (omega arith)))
  where
    copied : (j : ℕ) → length xs ≤ j → take (length xs) (copy_front xs (zero_bytes j)) ≡ xs
    copied j l = take-copy_front xs (zero_bytes j) (omega (arith, length-zero_bytes j))

consecutive_trace_lem :
    (a : IsoTpAddress) (p : List ℕ) (o n seq : ℕ) (t : TimePoint)
    → n ≤ 7
    → consecutive_trace a p o n seq t
      ≡ trace a t (suc n) ((32 + seq) ∷ copy_front (take n (drop o p)) (zero_bytes 7))
unfolding consecutive_trace
consecutive_trace_lem a p o n seq t h = ground arith

-- The parsed form of a consecutive frame.
abbrev consecutive_of : IsoTpAddress → List ℕ → ℕ → ℕ → ℕ → TimePoint → IsoTpFrame
consecutive_of a p o n seq t = record {
  type = IsoTpFrameType.consecutive_frame;
  address = a;
  timestamp = t;
  declared_length = 0;
  sequence_number = seq;
  flow_status = 0;
  block_size = 0;
  st_min = 0;
  payload = copy_front (take n (copy_front (take n (drop o p)) (zero_bytes 7))) (zero_bytes 7);
  payload_length = n;
}

parse-consecutive_trace :
    (a : IsoTpAddress) (p : List ℕ) (o n seq : ℕ) (t : TimePoint)
    → seq < 16
    → 1 ≤ n
    → n ≤ 7
    → parse_iso_tp_trace_frame (consecutive_trace a p o n seq t) ≡ ok (consecutive_of a p o n seq t)
unfolding make_frame
parse-consecutive_trace a p o n seq t h k l =
    rw (consecutive_trace_lem a p o n seq t l)
      (parse-trace-consecutive a n seq (copy_front (take n (drop o p)) (zero_bytes 7)) t h k l)

-- The next frame of `p` at a reassembler that holds its first `o` bytes.
pub record Receives (r : IsoTpTraceReassembler) (a : IsoTpAddress) (p : List ℕ) (o n seq t : ℕ)
    : Type 0 where
  pub last : TimePoint
  pub holds : find a r.pending ≡ some (under_way p o seq last)
  pub in_time : t ≤ last + r.timeout
  pub fits : o + n ≤ length p
  pub small : length p ≤ 4095
  pub seq_small : seq < 16
  pub some_bytes : 1 ≤ n
  pub few_bytes : n ≤ 7

module _ (r : IsoTpTraceReassembler) (a : IsoTpAddress) (p : List ℕ) (o n seq t : ℕ)
    (v : Receives r a p o n seq t) where
  extended :
      extend (under_way p o seq v.last) (consecutive_of a p o n seq t)
      ≡ under_way p (o + n) ((seq + 1) % 16) t
  extended =
      extend-under_way p o n seq v.last (consecutive_of a p o n seq t) v.fits v.small
        (take-copied 7 n (take n (drop o p)) (length-chunk o n p v.fits) v.few_bytes v.few_bytes)

  Fits-consecutive : Fits r (consecutive_of a p o n seq t) (under_way p o seq v.last)
  Fits-consecutive = record {
    consecutive = refl;
    found = v.holds;
    in_time = v.in_time;
    in_sequence = refl;
  }

  reaches : take_in r (consecutive_trace a p o n seq t) ≡ accept r (consecutive_of a p o n seq t)
  reaches =
      take_in-parsed r (consecutive_trace a p o n seq t) (consecutive_of a p o n seq t)
        (parse-consecutive_trace a p o n seq t v.seq_small v.some_bytes v.few_bytes)

  held : length (take (o + n) p) ≡ o + n
  held = omega (arith, length-take (o + n) p, v.fits)

  -- Bytes are still missing after this frame.
  pub take_in-more :
      o + n ≢ length p
      → take_in r (consecutive_trace a p o n seq t) ≡ (
        ok none,
        record r { pending = assign a (under_way p (o + n) ((seq + 1) % 16) t) r.pending },
      )
  take_in-more ne =
      reaches
      ∙ rw (← extended) (
          accept-more r (consecutive_of a p o n seq t) (under_way p o seq v.last) Fits-consecutive
            (rw (extended, held) ne))

  -- This frame is the last.
  pub take_in-last :
      o + n ≡ length p
      → take_in r (consecutive_trace a p o n seq t) ≡ (
        ok (some (record { address = a; completed_at = t; payload = p })),
        record r { pending = erase a r.pending },
      )
  take_in-last e =
      reaches
      ∙ accept-last r (consecutive_of a p o n seq t) (under_way p o seq v.last) Fits-consecutive
          (rw (extended, held) e)
      ∙ rw (extended, take_all (o + n) p (omega arith)) refl

-- A single frame delivers its payload at once, and leaves the reassembler as it was.
pub take_in-single_trace :
    (r : IsoTpTraceReassembler) (a : IsoTpAddress) (p : List ℕ) (t : TimePoint)
    → 1 ≤ length p
    → length p ≤ 7
    → take_in r (single_trace a p t)
      ≡ (ok (some (record { address = a; completed_at = t; payload = p })), r)
unfolding make_frame accept
take_in-single_trace r a p t h k = rw (single_trace_lem a p t k) (
    take_in-parsed r _ _ (parse-trace-single a (length p) (copy_front p (zero_bytes 7)) t h k)
    ∙ rw
        (
          take-take_self (length p) (copy_front p (zero_bytes 7)),
          take-copied 7 (length p) p refl k k,
        )
        refl)

-- A first frame makes its address await the rest, whatever was under way there.
pub take_in-first_trace :
    (r : IsoTpTraceReassembler) (a : IsoTpAddress) (p : List ℕ) (t : TimePoint)
    → 7 < length p
    → length p ≤ 4095
    → take_in r (first_trace a p t)
      ≡ (ok none, record r { pending = assign a (under_way p 6 1 t) r.pending })
unfolding make_frame accept first_trace
take_in-first_trace r a p t h k =
    take_in-parsed r _ _ (
      parse-trace-first a (length p / 256 % 16) (length p % 256)
        (copy_front (take 6 p) (zero_bytes 6)) t (omega arith) (omega arith) (omega arith))
    ∙ rw (declared, take-copied 6 6 (take 6 p) six (omega arith) (omega arith))
        (ground (arith, length-take 6 p))
  where
    declared : length p / 256 % 16 * 256 + length p % 256 ≡ length p
    declared = omega arith

    six : length (take 6 p) ≡ 6
    six = omega (arith, length-take 6 p)
