-- ===== src/Maintenance/Bytes/Scale.antt =====
-- The unit in which a size is shown.
use nomad_temporal_jobs.Prelude.{ℕ, suc, ◌*◌, ◌^◌, ◌≤◌, ◌<◌, ◌≡◌, ◌↔◌, arith}
use nomad_temporal_jobs.Maintenance.Bytes.{Suffix, kib, mib, gib, tib, suffix_at, scale}

-- the bytes that a suffix stands for
abbrev pub suffix_bytes : Suffix → ℕ
suffix_bytes kib = 1024
suffix_bytes mib = 1024 ^ 2
suffix_bytes gib = 1024 ^ 3
suffix_bytes tib = 1024 ^ 4

-- From 1024 up to the largest int64, the divisor is the power of 1024 that the exponent counts, and
-- the largest one that does not exceed the size.
pub scale_exact :
    (n : ℕ)
    → 1024 ≤ n
    → n < 2 ^ 63
    → let (div, exp) = scale n in (div ≡ 1024 ^ suc exp) × (div ≤ n) × (n < div * 1024)
unfolding scale
scale_exact n lo hi = ground arith

-- In the same range, the suffix stands for the divisor exactly if the size is below 1024 ^ 5: from
-- there on the size is divided by a larger unit than the one that is printed.
pub scale-suffix_iff :
    (n : ℕ)
    → 1024 ≤ n
    → n < 2 ^ 63
    → (suffix_bytes (suffix_at (scale n).1) ≡ (scale n).0) ↔ (n < 1024 ^ 5)
unfolding scale suffix_at
scale-suffix_iff n lo hi = ground arith
