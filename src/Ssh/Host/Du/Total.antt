-- ===== src/Ssh/Host/Du/Total.antt =====
-- What DirSize makes of the line that `du` prints, against the value of a decimal numeral by its
-- places.
use native.Mathlib.Nat.{pow-suc, add-mul, mul_assoc, mul_comm}
use nomad_temporal_jobs.Prelude.{
  ℕ, suc, ◌+◌, ◌-◌, ◌*◌, ◌^◌, ◌≡◌, refl, arith, pos, true, false, ltb, length, All, [], ◌∷◌, ◌++◌,
  Option, none, some, if◌then◌else◌,
}
use nomad_temporal_jobs.Prelude.Result.{Failure, external, ok, err}
use nomad_temporal_jobs.Prelude.Text.{
  Text, is_space, split, split-singleton, Lacks, trim_space, trim_end, trim_end-append_word,
  trim_end-newline, trim_end-Lacks, trim_space-solid,
}
use nomad_temporal_jobs.Ssh.Host.Du.{
  is_digit, digits_from, digits, parse_int, starts_blank, fields, last_line, first_field,
  parse_du_bytes, du_total, positive, parsed,
}

-- the value of a numeral, each digit by its place
abbrev pub numeral_value : Text → ℕ
numeral_value [] = 0
numeral_value (c ∷ s) = (c - b'0') * 10 ^ length s + numeral_value s

abbrev pub IsNumeral : Text → Type 0
IsNumeral = All (λ c. is_digit c ≡ true)

horner : (n d : ℕ) (k : ℕ) → (n * 10 + d) * 10 ^ k ≡ n * 10 ^ suc k + d * 10 ^ k
horner n d k =
    rw (pow-suc 10 k, add-mul (n * 10) d (10 ^ k), mul_assoc n 10 (10 ^ k), mul_comm (10 ^ k) 10)

digits_from-numeral :
    (n : ℕ) (s : Text) → IsNumeral s → digits_from n s ≡ some (n * 10 ^ length s + numeral_value s)
unfolding digits_from
digits_from-numeral n [] h = ground arith
digits_from-numeral n (c ∷ s) h =
    ground
      (arith, h.0, digits_from-numeral (n * 10 + (c - b'0')) s h.1, horner n (c - b'0') (length s))

parse_int-numeral :
    (c : ℕ) (s : Text)
    → IsNumeral (c ∷ s)
    → parse_int (c ∷ s) ≡ positive (some (numeral_value (c ∷ s)))
unfolding parse_int is_digit digits
parse_int-numeral c s h = ground (arith, digits_from-numeral 0 (c ∷ s) h, h.0)

is_space-digit : (c : ℕ) → is_digit c ≡ true → is_space c ≡ false
unfolding is_digit is_space
is_space-digit c h = ground (arith, h)

numeral-Solid : (s : Text) → IsNumeral s → All (λ c. is_space c ≡ false) s
numeral-Solid [] h = tt
numeral-Solid (c ∷ s) h = (is_space-digit c h.0, numeral-Solid s h.1)

numeral-Lacks : (s t : Text) → IsNumeral s → Lacks 10 t → Lacks 10 (s ++ t)
unfolding is_digit
numeral-Lacks [] t h k = k
numeral-Lacks (c ∷ s) t h k = ground (arith, h.0, numeral-Lacks s t h.1 k)

fields-append_word :
    (c : ℕ) (s t : Text)
    → All (λ c. is_space c ≡ false) (c ∷ s)
    → starts_blank t ≡ true
    → fields (c ∷ s ++ t) ≡ (c ∷ s) ∷ fields t
unfolding fields starts_blank
fields-append_word c [] t h k = ground (arith, h.0, k)
fields-append_word c (x ∷ s) t h k = ground (arith, h.0, h.1.0, fields-append_word x s t h.1 k)

starts_blank-trim_end : (s : Text) → starts_blank s ≡ true → starts_blank (trim_end s) ≡ true
unfolding starts_blank trim_end
starts_blank-trim_end [] h = refl
starts_blank-trim_end (c ∷ s) h = ground (arith, h)

-- The line of `du`: the numeral, a tab, the name of the directory.
abbrev pub du_line : Text → Text → Text
du_line numeral dir = numeral ++ (9 ∷ dir) ++ (10 ∷ [])

tab_blank : (dir : Text) → starts_blank (9 ∷ dir) ≡ true
unfolding starts_blank is_space
tab_blank dir = refl

fields-du_line :
    (c : ℕ) (s dir : Text)
    → IsNumeral (c ∷ s)
    → Lacks 10 dir
    → fields (last_line (split 10 (trim_space (du_line (c ∷ s) dir))))
      ≡ (c ∷ s) ∷ fields (trim_end (9 ∷ dir))
unfolding fields last_line trim_end
fields-du_line c s dir h k = rw (
  trim_space-solid c (s ++ (9 ∷ dir) ++ (10 ∷ [])) (is_space-digit c h.0),
  trim_end-newline (c ∷ s ++ (9 ∷ dir)),
  trim_end-append_word (c ∷ s) (9 ∷ dir) (numeral-Solid (c ∷ s) h),
  split-singleton 10 (c ∷ s ++ trim_end (9 ∷ dir)) (
      numeral-Lacks (c ∷ s) (trim_end (9 ∷ dir)) h
        (trim_end-Lacks 10 (9 ∷ dir) ((λ q. ground (arith, q)), k))),
  fields-append_word c s (trim_end (9 ∷ dir)) (numeral-Solid (c ∷ s) h)
      (starts_blank-trim_end (9 ∷ dir) (tab_blank dir)),
)

-- A line of `du`, of a name without a line break, is read as the number that its digits spell, also
-- when the command failed, where that fits a signed 64-bit integer; with a larger number the total
-- is an error, that of the command where it failed.
pub du_total-du_line :
    (c : ℕ) (s dir : Text) (run_err : Option Failure)
    → IsNumeral (c ∷ s)
    → Lacks 10 dir
    → du_total (du_line (c ∷ s) dir) run_err none ≡ (
        if ltb (numeral_value (c ∷ s)) (2 ^ 63)
        then ok (pos (numeral_value (c ∷ s)))
        else err (elim run_err [ none ↦ external "du: unexpected output" | some e ↦ e ]))
unfolding du_total parse_du_bytes first_field parsed
du_total-du_line c s dir run_err h k =
    ground (arith, fields-du_line c s dir h k, parse_int-numeral c s h)
