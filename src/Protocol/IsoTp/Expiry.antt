-- ===== src/Protocol/IsoTp/Expiry.antt =====
-- What `IsoTpTraceReassembler::expire` removes.
use rev_dash.Prelude.{◌+◌, ◌≡◌, sym, ◌∙◌, Bool, Option, none, some, arith, length}
use rev_dash.Prelude.Dict.{
  find, erase_if, unless_taken, find-erase_if, erase_if-IsUnique, length-erase_if,
}
use rev_dash.Core.Types.{TimePoint}
use rev_dash.Protocol.IsoTp.Frames.{IsoTpAddress, address_eq}
use rev_dash.Protocol.IsoTp.Reassembler.{IsoTpTraceReassembler, PendingMessage, is_stale, expire}
use rev_dash.Protocol.IsoTp.Invariant.{IsValid, IsUnderWay}

-- `expire` keeps a valid reassembler valid; it removes exactly the messages whose last frame lies
-- further back than the timeout, leaves every other message as it is, and returns how many it removed.
pub expire_lem :
    (r : IsoTpTraceReassembler) (now : TimePoint)
    → IsValid r
    → let (removed, r') = expire r now in
      IsValid r'
      × ((a : IsoTpAddress) → find a r'.pending ≡ unless_taken (is_stale r now) (find a r.pending))
      × (length r'.pending + removed ≡ length r.pending)
unfolding expire
expire_lem r now v = (
  record { unique = erase_if-IsUnique stale r.pending v.unique; entries = kept },
  λ a. find-erase_if stale a r.pending v.unique,
  omega (arith, length-erase_if stale r.pending),
)
  where
    stale : PendingMessage → Bool
    stale = is_stale r now

    untaken :
        (o : Option PendingMessage) (p : PendingMessage)
        → unless_taken stale o ≡ some p
        → o ≡ some p
    untaken none p e = e
    untaken (some q) p e = ground arith

    kept :
        (a : IsoTpAddress) (p : PendingMessage)
        → find a (erase_if stale r.pending) ≡ some p
        → IsUnderWay p
    kept a p e = v.entries a p (untaken _ p (sym (find-erase_if stale a r.pending v.unique) ∙ e))
