-- ===== src/Maintenance/Bytes.antt =====
-- Sizes for the reports: `HumanBytes` of maintenance/internal/nodes/nodes.go and `SizeReport` of
-- maintenance/internal/nodes/measure.go. The text of a size is kept as the number, the divisor, the
-- suffix and whether it is printed whole; Go divides as floats, which here is the exact quotient.
pub mod Scale
use nomad_temporal_jobs.Prelude.{
  ℕ, zero, suc, ◌*◌, ◌/◌, ◌^◌, ℤ, pos, negsuc, ◌-ℤ◌, ltb_ℤ, Bool, true, false, ◌&&◌, ltb, leb,
  if◌then◌else◌,
}

pub data Suffix : Type 0 where
  kib mib gib tib : Suffix

-- `plain n` prints as `nB`.
pub data Shown : Type 0 where
  plain : ℤ → Shown
  scaled : ℕ → ℕ → Suffix → Bool → Shown

-- `suffixes[exp]`, the exponent being clamped to the last one
unfoldable pub suffix_at : ℕ → Suffix
suffix_at zero = kib
suffix_at (suc zero) = mib
suffix_at (suc (suc zero)) = gib
suffix_at (suc (suc (suc e))) = tib

-- `for x := n / unit; x >= unit; x /= unit { div *= unit; exp++ }`
unfoldable pub scale_loop : ℕ → ℕ → ℕ → ℕ → ℕ × ℕ
scale_loop zero x div exp = (div, exp)
scale_loop (suc fuel) x div exp =
    let rest = scale_loop fuel (x / 1024) (div * 1024) (suc exp) in
    if leb 1024 x then rest else (div, exp)

-- An int64 is below 1024 ^ 7, so six rounds are enough.
unfoldable pub scale : ℕ → ℕ × ℕ
unfolding scale_loop
scale n = scale_loop 6 (n / 1024) 1024 0

unfoldable pub human_bytes : ℤ → Shown
unfolding scale suffix_at
human_bytes (negsuc n) = plain (negsuc n)
human_bytes (pos n) =
    let (div, exp) = scale n in
    if ltb n 1024 then plain (pos n) else scaled n div (suffix_at exp) (leb (100 * div) n)

pub record Size : Type 0 where
  pub bytes : ℤ
  pub measured : Bool

-- The entries of a report.
pub data Entry : Type 0 where
  unknown : Entry
  none_reclaimed : Entry
  size : Shown → Entry

unfoldable pub size_entry : Size → Entry
size_entry s = if s.measured then size (human_bytes s.bytes) else unknown

-- Before, after and reclaimed.
unfoldable pub size_report : Size → Size → Entry × Entry × Entry
unfolding size_entry
size_report before after = (
  size_entry before,
  size_entry after,
  let d = before.bytes -ℤ after.bytes in
      if before.measured && after.measured
      then (if ltb_ℤ (pos 0) d then size (human_bytes d) else none_reclaimed)
      else unknown,
)
