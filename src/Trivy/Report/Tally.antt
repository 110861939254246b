-- ===== src/Trivy/Report/Tally.antt =====
-- What the report of trivy becomes.
use nomad_temporal_jobs.Prelude.{
  not_ltb, ℕ, zero, suc, subst, sym, ◌+◌, ◌≤◌, ltb, ◌≡◌, refl, Bool, ◌||◌, List, [], ◌∷◌, ◌++◌,
  length, length-append, count, count-append, any, All, arith, inl, inr, if◌then◌else◌, Bool-cases,
}
use nomad_temporal_jobs.Prelude.Text.{Text, codes, text_eq, text_eq_iff, text_eq_refl, contains}
use nomad_temporal_jobs.Trivy.Report.{
  Vulnerability, SeverityCounts, to_upper, tally, take_bytes, max_description_len, clip, Parsed,
  nothing_parsed, parse_one, parse_result, parse_results,
}

abbrev pub has_id : Text → Vulnerability → Bool
has_id k v = text_eq v.vuln_id k

abbrev pub has_severity : Text → Vulnerability → Bool
has_severity s v = text_eq (to_upper v.severity) s

-- the vulnerability is in the report
abbrev pub is_reported : Text → List (List Vulnerability) → Bool
is_reported k = any (any (has_id k))

abbrev Once : Text → Parsed → Type 0
Once k p = count (has_id k) p.vulns ≡ (if contains p.seen k then 1 else 0)

abbrev Saw : Bool → Text → Parsed → Parsed → Type 0
Saw b k p q = (Once k p → Once k q) × (contains q.seen k ≡ (b || contains p.seen k))

parse_one-Saw : (k : Text) (v : Vulnerability) (p : Parsed) → Saw (has_id k v) k p (parse_one v p)
unfolding parse_one contains
parse_one-Saw k v p = elim (Bool-cases (has_id k v)) [
  | inl y ↦ ground (
    arith,
    y,
    (text_eq_iff v.vuln_id k).0 y,
    text_eq_refl k,
    count-append (has_id k) p.vulns (record v { description = clip v.description } ∷ []),
  )
  | inr n ↦ ground (
    arith,
    n,
    count-append (has_id k) p.vulns (record v { description = clip v.description } ∷ []),
  )
]

parse_result-Saw :
    (k : Text) (vs : List Vulnerability) (p : Parsed)
    → Saw (any (has_id k) vs) k p (parse_result vs p)
unfolding parse_result
parse_result-Saw k [] p = ground arith
parse_result-Saw k (v ∷ vs) p =
    ground (arith, parse_one-Saw k v p, parse_result-Saw k vs (parse_one v p))

parse_results-Saw :
    (k : Text) (rs : List (List Vulnerability)) (p : Parsed)
    → Saw (is_reported k rs) k p (parse_results rs p)
unfolding parse_results
parse_results-Saw k [] p = ground arith
parse_results-Saw k (r ∷ rs) p =
    ground (arith, parse_result-Saw k r p, parse_results-Saw k rs (parse_result r p))

-- Of every vulnerability id that the report has anywhere, exactly one entry is kept, and of any
-- other id none.
pub parse_results_once :
    (rs : List (List Vulnerability)) (k : Text)
    → count (has_id k) (parse_results rs nothing_parsed).vulns ≡ (if is_reported k rs then 1 else 0)
unfolding contains
parse_results_once rs k = ground (arith, parse_results-Saw k rs nothing_parsed)

-- what the counts and the descriptions keep
abbrev Tallied : Parsed → Type 0
Tallied p =
    (p.counts.critical ≡ count (has_severity (codes "CRITICAL")) p.vulns)
    × (p.counts.high ≡ count (has_severity (codes "HIGH")) p.vulns)
    × (p.counts.medium ≡ count (has_severity (codes "MEDIUM")) p.vulns)
    × (p.counts.low ≡ count (has_severity (codes "LOW")) p.vulns)

tally_lem :
    (s : Text) (n : SeverityCounts)
    → ((tally s n).critical
        ≡ n.critical + (if text_eq (to_upper s) (codes "CRITICAL") then 1 else 0))
      × ((tally s n).high ≡ n.high + (if text_eq (to_upper s) (codes "HIGH") then 1 else 0))
      × ((tally s n).medium ≡ n.medium + (if text_eq (to_upper s) (codes "MEDIUM") then 1 else 0))
      × ((tally s n).low ≡ n.low + (if text_eq (to_upper s) (codes "LOW") then 1 else 0))
unfolding tally text_eq
tally_lem s n = ground (
  arith,
  text_eq_iff (to_upper s) (codes "CRITICAL"),
  text_eq_iff (to_upper s) (codes "HIGH"),
  text_eq_iff (to_upper s) (codes "MEDIUM"),
  text_eq_iff (to_upper s) (codes "LOW"),
)

parse_one-Tallied : (v : Vulnerability) (p : Parsed) → Tallied p → Tallied (parse_one v p)
unfolding parse_one
parse_one-Tallied v p t =
    let more = record v { description = clip v.description } ∷ [] in
    ground (
      arith,
      t,
      tally_lem v.severity p.counts,
      count-append (has_severity (codes "CRITICAL")) p.vulns more,
      count-append (has_severity (codes "HIGH")) p.vulns more,
      count-append (has_severity (codes "MEDIUM")) p.vulns more,
      count-append (has_severity (codes "LOW")) p.vulns more,
    )

parse_result-Tallied :
    (vs : List Vulnerability) (p : Parsed) → Tallied p → Tallied (parse_result vs p)
unfolding parse_result
parse_result-Tallied [] p t = t
parse_result-Tallied (v ∷ vs) p t =
    parse_result-Tallied vs (parse_one v p) (parse_one-Tallied v p t)

parse_results-Tallied :
    (rs : List (List Vulnerability)) (p : Parsed) → Tallied p → Tallied (parse_results rs p)
unfolding parse_results
parse_results-Tallied [] p t = t
parse_results-Tallied (r ∷ rs) p t =
    parse_results-Tallied rs (parse_result r p) (parse_result-Tallied r p t)

-- The counts are the numbers of kept entries of each severity, in whatever case it is written.
pub parse_results_counts :
    (rs : List (List Vulnerability))
    → let p = parse_results rs nothing_parsed in
      (p.counts.critical ≡ count (has_severity (codes "CRITICAL")) p.vulns)
      × (p.counts.high ≡ count (has_severity (codes "HIGH")) p.vulns)
      × (p.counts.medium ≡ count (has_severity (codes "MEDIUM")) p.vulns)
      × (p.counts.low ≡ count (has_severity (codes "LOW")) p.vulns)
parse_results_counts rs = parse_results-Tallied rs nothing_parsed (refl, refl, refl, refl)

abbrev IsShort : Vulnerability → Type 0
IsShort v = length v.description ≤ max_description_len

All-append {ℓ κ} :
    {A : Type ℓ} (P : A → Type κ) (xs : List A) (a : A) → All P xs → P a → All P (xs ++ (a ∷ []))
All-append P [] a ps p = (p, tt)
All-append P (x ∷ xs) a (q, ps) p = (q, All-append P xs a ps p)

length-take_bytes : (n : ℕ) (s : Text) → length (take_bytes n s) ≤ n
unfolding take_bytes
length-take_bytes zero s = omega arith
length-take_bytes (suc n) [] = omega arith
length-take_bytes (suc n) (x ∷ s) = omega (arith, length-take_bytes n s)

length-clip : (s : Text) → length (clip s) ≤ max_description_len
unfolding clip
length-clip s =
    let cut : length (take_bytes 997 s ++ codes "...") ≤ 1000 =
      omega (arith, length-take_bytes 997 s, length-append (take_bytes 997 s) (codes "...")) in
    elim (Bool-cases (ltb 1000 (length s))) [
      | inl y ↦
          subst (λ b. length (if b then take_bytes 997 s ++ codes "..." else s) ≤ 1000) (sym y) cut
      | inr n ↦
          subst (λ b. length (if b then take_bytes 997 s ++ codes "..." else s) ≤ 1000) (sym n)
            (not_ltb 1000 (length s) n)
    ]

parse_one-IsShort :
    (v : Vulnerability) (p : Parsed) → All IsShort p.vulns → All IsShort (parse_one v p).vulns
unfolding parse_one
parse_one-IsShort v p a = elim (Bool-cases (contains p.seen v.vuln_id)) [
  | inl y ↦ ground (arith, y, a)
  | inr n ↦ ground (
    arith,
    n,
    All-append IsShort p.vulns (record v { description = clip v.description }) a
        (length-clip v.description),
  )
]

parse_result-IsShort :
    (vs : List Vulnerability) (p : Parsed)
    → All IsShort p.vulns
    → All IsShort (parse_result vs p).vulns
unfolding parse_result
parse_result-IsShort [] p a = a
parse_result-IsShort (v ∷ vs) p a =
    parse_result-IsShort vs (parse_one v p) (parse_one-IsShort v p a)

parse_results-IsShort :
    (rs : List (List Vulnerability)) (p : Parsed)
    → All IsShort p.vulns
    → All IsShort (parse_results rs p).vulns
unfolding parse_results
parse_results-IsShort [] p a = a
parse_results-IsShort (r ∷ rs) p a =
    parse_results-IsShort rs (parse_result r p) (parse_result-IsShort r p a)

-- No description that is stored is longer than 1000 bytes.
pub parse_results_short :
    (rs : List (List Vulnerability))
    → All
        (λ (v : Vulnerability). length v.description ≤ 1000)
        (parse_results rs nothing_parsed).vulns
parse_results_short rs = parse_results-IsShort rs nothing_parsed tt
