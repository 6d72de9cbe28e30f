-- ===== src/Protocol/Mode01/Support.antt =====
-- mode01.cpp: `SupportedMode01Pids` and the requests made from it. The array of 256 flags is a
-- function of the PID.
use rev_dash.Prelude.{
  ℕ, zero, suc, ◌+◌, ◌/◌, ◌%◌, ◌^◌, Bool, not, ◌&&◌, List, [], ◌∷◌, ◌++◌, ltb, ◌==◌, if◌then◌else◌,
  get_or,
}
use Prim.Native.Nat.{bit_and}
use rev_dash.Core.Error.{Result, ok, fail, protocol_malformed_response}
use rev_dash.Core.Types.{ObdRequest, obd_request}
use rev_dash.Core.Float.{Float}
use rev_dash.Protocol.Mode01.Catalog.{Mode01PidDescriptor, catalog}
use rev_dash.Protocol.Mode01.Decode.{is_bitmap_pid}

abbrev pub SupportedMode01Pids : Type 0
SupportedMode01Pids = ℕ → Bool

-- `supported_[pid] = value`
abbrev pub set_flag : SupportedMode01Pids → ℕ → Bool → SupportedMode01Pids
set_flag s pid value = λ k. if k == pid then value else s k

-- `(bitmap[bit / 8] & (0x80 >> (bit % 8))) != 0`
unfoldable pub bitmap_flag : List ℕ → ℕ → Bool
bitmap_flag bitmap bit = not (bit_and (get_or bitmap (bit / 8) 0) (0x80 / 2 ^ (bit % 8)) == 0)

-- The loop over `bit`, with the rounds that are left; it breaks at the first PID above 0xFF.
unfoldable pub apply_bits : ℕ → ℕ → ℕ → List ℕ → SupportedMode01Pids → SupportedMode01Pids
apply_bits zero bit base bitmap s = s
apply_bits (suc rounds) bit base bitmap s =
    let pid = base + 1 + bit in
    let rest = apply_bits rounds (bit + 1) base bitmap (set_flag s pid (bitmap_flag bitmap bit)) in
    if ltb 0xff pid then s else rest

-- `SupportedMode01Pids::applyBitmap`
unfoldable pub apply_bitmap :
    ℕ → List ℕ → SupportedMode01Pids → Result (Unit {0}) × SupportedMode01Pids
apply_bitmap base bitmap s =
    if not (base % 0x20 == 0)
    then (
      fail protocol_malformed_response "Mode 01 supported-PID bitmap base is not aligned to 0x20",
      s,
    )
    else (ok tt, apply_bits 32 0 base bitmap s)

module _ {F : Type 0} (fl : Float F) where
  unfoldable pub filter_entries :
      SupportedMode01Pids → List (Mode01PidDescriptor fl) → List ObdRequest
  filter_entries supported [] = []
  filter_entries supported (d ∷ ds) =
      if not (is_bitmap_pid d.pid) && supported d.pid
      then obd_request 0x01 d.pid ∷ filter_entries supported ds
      else filter_entries supported ds

  -- `buildMode01QueryFilter`
  unfoldable pub build_mode01_query_filter : SupportedMode01Pids → List ObdRequest
  unfolding filter_entries
  build_mode01_query_filter supported = filter_entries supported (catalog fl)

-- `buildSupportedPidDiscoveryRequests`
unfoldable pub build_supported_pid_discovery_requests : SupportedMode01Pids → List ObdRequest
build_supported_pid_discovery_requests supported =
    (obd_request 0x01 0x00 ∷ [])
    ++ ((if supported 0x20 then obd_request 0x01 0x20 ∷ [] else [])
        ++ (if supported 0x40 then obd_request 0x01 0x40 ∷ [] else []))
