-- ===== src/Ssh/Reclaim/Exact.antt =====
-- What a sweep removes and reports.
use nomad_temporal_jobs.Prelude.{
  ℕ, ◌+◌, ◌%◌, ◌^◌, ◌≡◌, refl, sym, Bool, true, false, List, [], ◌∷◌, ◌++◌, map, length,
  length-append, count, arith, append-nil, append_assoc, if◌then◌else◌,
}
use nomad_temporal_jobs.Prelude.Result.{Result, is_ok}
use nomad_temporal_jobs.Prelude.Text.{Text}
use nomad_temporal_jobs.Ssh.Reclaim.{
  PruneCandidate, ReclaimResult, to_u64, no_reclaim, sweep_one, sweep_from, sweep,
}

-- the bytes of the candidates that pass a test
abbrev pub bytes_of : (PruneCandidate → Bool) → List PruneCandidate → ℕ
bytes_of p [] = 0
bytes_of p (c ∷ cs) = let rest = bytes_of p cs in if p c then to_u64 c.size + rest else rest

abbrev pub ids : List PruneCandidate → List Text
ids = map (λ (c : PruneCandidate). c.id)

abbrev State : Type 0
State = ReclaimResult × List Text

-- what a dry run and a real run make of some candidates
abbrev Tallied : List PruneCandidate → State → State → Type 0
Tallied cs s t =
    (t.1 ≡ s.1)
    × (t.0.deleted ≡ s.0.deleted)
    × (t.0.reclaimed ≡ s.0.reclaimed)
    × (t.0.warnings ≡ s.0.warnings)
    × (t.0.candidates ≡ s.0.candidates + length cs)
    × (t.0.reclaimable % 2 ^ 64 ≡ (s.0.reclaimable + bytes_of (λ c. true) cs) % 2 ^ 64)

module _ (remove : Text → Result (Unit {0})) where
  abbrev pub is_removed : PruneCandidate → Bool
  is_removed c = is_ok (remove c.id)

  abbrev Removed : List PruneCandidate → State → State → Type 0
  Removed cs s t =
      (t.1 ≡ s.1 ++ ids cs)
      × (t.0.deleted ≡ s.0.deleted + count is_removed cs)
      × (length t.0.warnings + t.0.deleted ≡ length s.0.warnings + s.0.deleted + length cs)
      × (t.0.candidates ≡ s.0.candidates)
      × (t.0.reclaimable ≡ s.0.reclaimable)
      × (t.0.reclaimed % 2 ^ 64 ≡ (s.0.reclaimed + bytes_of is_removed cs) % 2 ^ 64)

  sweep_one-Tallied :
      (c : PruneCandidate) (s : State) → Tallied (c ∷ []) s (sweep_one remove true c s)
  unfolding sweep_one
  sweep_one-Tallied c s = ground arith

  sweep_from-Tallied :
      (cs : List PruneCandidate) (s : State) → Tallied cs s (sweep_from remove true cs s)
  unfolding sweep_from
  sweep_from-Tallied [] s = (refl, refl, refl, refl, omega arith, omega arith)
  sweep_from-Tallied (c ∷ cs) s =
      ground (arith, sweep_one-Tallied c s, sweep_from-Tallied cs (sweep_one remove true c s))

  sweep_one-Removed :
      (c : PruneCandidate) (s : State) → Removed (c ∷ []) s (sweep_one remove false c s)
  unfolding sweep_one
  sweep_one-Removed c s = ground (arith, length-append s.0.warnings (c.id ∷ []))

  sweep_from-Removed :
      (cs : List PruneCandidate) (s : State) → Removed cs s (sweep_from remove false cs s)
  unfolding sweep_from
  sweep_from-Removed [] s =
      (sym (append-nil s.1), omega arith, omega arith, refl, refl, omega arith)
  sweep_from-Removed (c ∷ cs) s = ground (
    arith,
    sweep_one-Removed c s,
    sweep_from-Removed cs (sweep_one remove false c s),
    append_assoc s.1 (c.id ∷ []) (ids cs),
  )

  -- A dry run asks for no removal and reports every candidate and their bytes, modulo 2 ^ 64, and
  -- nothing as removed.
  pub sweep_dry :
      (cs : List PruneCandidate)
      → let (r, asked) = sweep remove cs true in
        (asked ≡ [])
        × (r.deleted ≡ 0)
        × (r.reclaimed ≡ 0)
        × (r.candidates ≡ length cs)
        × (r.reclaimable % 2 ^ 64 ≡ bytes_of (λ c. true) cs % 2 ^ 64)
  unfolding sweep
  sweep_dry cs = ground (arith, sweep_from-Tallied cs (no_reclaim, []))

  -- A real run asks to remove every candidate, in order, whatever failed before. It reports those
  -- that were removed, with their bytes modulo 2 ^ 64, and one warning for each other one.
  pub sweep_real :
      (cs : List PruneCandidate)
      → let (r, asked) = sweep remove cs false in
        (asked ≡ ids cs)
        × (r.deleted ≡ count is_removed cs)
        × (length r.warnings + r.deleted ≡ length cs)
        × (r.candidates ≡ 0)
        × (r.reclaimed % 2 ^ 64 ≡ bytes_of is_removed cs % 2 ^ 64)
  unfolding sweep
  sweep_real cs = ground (arith, sweep_from-Removed cs (no_reclaim, []))
