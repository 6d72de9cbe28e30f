-- ===== src/Protocol/Mode01/Bitmap.antt =====
-- Which PIDs `applyBitmap` of mode01.cpp sets, and which requests are made from them.
use rev_dash.Prelude.{
  ℕ, zero, suc, ◌+◌, ◌-◌, ◌%◌, ◌≡◌, Bool, ◌&&◌, List, arith, ltb, leb, if◌then◌else◌, Bool-cases,
  inl, inr,
}
use rev_dash.Core.Error.{success}
use rev_dash.Protocol.Mode01.Support.{
  SupportedMode01Pids, set_flag, bitmap_flag, apply_bits, apply_bitmap,
}

-- The PIDs that `rounds` rounds from `bit` on set.
abbrev covered : ℕ → ℕ → ℕ → ℕ → Bool
covered rounds bit base pid =
    leb (base + 1 + bit) pid && ltb pid (base + 1 + bit + rounds) && leb pid 0xff

apply_bits_lem :
    (rounds bit base : ℕ) (bitmap : List ℕ) (s : SupportedMode01Pids) (pid : ℕ)
    → apply_bits rounds bit base bitmap s pid
      ≡ (if covered rounds bit base pid then bitmap_flag bitmap (pid - (base + 1)) else s pid)
unfolding apply_bits
apply_bits_lem zero bit base bitmap s pid = ground arith
apply_bits_lem (suc rounds) bit base bitmap s pid = elim (Bool-cases (ltb 0xff (base + 1 + bit))) [
  | inl past ↦ rw past (ground arith)
  | inr within ↦ rw within (
      ground (
        arith,
        apply_bits_lem rounds (bit + 1) base bitmap
            (set_flag s (base + 1 + bit) (bitmap_flag bitmap bit)) pid,
      ))
]

-- An aligned base sets the flags of the 32 PIDs after it, up to 0xFF, from the bits of the bitmap,
-- most significant first, and no other flag.
pub apply_bitmap_lem :
    (base : ℕ) (bitmap : List ℕ) (s : SupportedMode01Pids)
    → base % 32 ≡ 0
    → ((apply_bitmap base bitmap s).0 ≡ success)
      × ((pid : ℕ)
          → (apply_bitmap base bitmap s).1 pid ≡ (
              if ltb base pid && leb pid (base + 32) && leb pid 0xff
              then bitmap_flag bitmap (pid - (base + 1))
              else s pid))
unfolding apply_bitmap
apply_bitmap_lem base bitmap s h =
    (ground arith, λ pid. ground (arith, apply_bits_lem 32 0 base bitmap s pid))
