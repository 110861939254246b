-- ===== src/Ssh/Host/Du.antt =====
-- The size that `du` reports: `parseDuBytes` and `duTotal` of shared/client/ssh/ssh.go, with the
-- functions of Go's `strings` and `strconv` packages that they call.
pub mod Total
use nomad_temporal_jobs.Prelude.{
  ℕ, ◌+◌, ◌-◌, ◌*◌, ◌^◌, ℤ, pos, ◌-ℤ◌, Bool, true, false, ◌&&◌, leb, ltb, ◌==◌, List, [], ◌∷◌,
  Option, none, some, if◌then◌else◌,
}
use nomad_temporal_jobs.Prelude.Result.{Result, Failure, external, ok, err}
use nomad_temporal_jobs.Prelude.Text.{Text, is_space, trim_space, split, cons_head}

unfoldable pub is_digit : ℕ → Bool
is_digit c = leb b'0' c && leb c b'9'

-- the number that digits spell behind those already read
unfoldable pub digits_from : ℕ → Text → Option ℕ
unfolding is_digit
digits_from n [] = some n
digits_from n (c ∷ s) =
    let rest = digits_from (n * 10 + (c - b'0')) s in if is_digit c then rest else none

unfoldable pub digits : Text → Option ℕ
unfolding digits_from
digits [] = none
digits (c ∷ s) = digits_from 0 (c ∷ s)

abbrev positive : Option ℕ → Option ℤ
positive none = none
positive (some n) = if ltb n (2 ^ 63) then some (pos n) else none

abbrev negative : Option ℕ → Option ℤ
negative none = none
negative (some n) = if leb n (2 ^ 63) then some (pos 0 -ℤ pos n) else none

-- `strconv.ParseInt s 10 64`
unfoldable pub parse_int : Text → Option ℤ
unfolding digits
parse_int [] = none
parse_int (c ∷ s) =
    if c == b'-'
    then negative (digits s)
    else if c == b'+'
    then positive (digits s)
    else positive (digits (c ∷ s))

unfoldable pub starts_blank : Text → Bool
unfolding is_space
starts_blank [] = true
starts_blank (c ∷ s) = is_space c

-- `strings.Fields`
unfoldable pub fields : Text → List Text
unfolding is_space starts_blank
fields [] = []
fields (c ∷ s) =
    let rest = fields s in
    if is_space c then rest else if starts_blank s then (c ∷ []) ∷ rest else cons_head c rest

-- `lines[len(lines)-1]`, of the lines of a text, which are never none
unfoldable pub last_line : List Text → Text
last_line [] = []
last_line (s ∷ []) = s
last_line (s ∷ t ∷ rest) = last_line (t ∷ rest)

unfoldable pub parsed : Option ℤ → Result ℤ
parsed none = err (external "du: unexpected output")
parsed (some n) = ok n

unfoldable pub first_field : List Text → Result ℤ
unfolding parsed parse_int
first_field [] = err (external "du: no output")
first_field (s ∷ rest) = parsed (parse_int s)

unfoldable pub parse_du_bytes : Text → Result ℤ
unfolding first_field fields last_line
parse_du_bytes out = first_field (fields (last_line (split 10 (trim_space out))))

-- `duTotal`, by the parse, the error of the run and that of the context
parsed_total : Result ℤ → Option Failure → Result ℤ
parsed_total (ok n) run_err = ok n
parsed_total (err e) (some f) = err f
parsed_total (err e) none = err e

unfoldable pub du_total : Text → Option Failure → Option Failure → Result ℤ
unfolding parse_du_bytes parsed_total
du_total out run_err (some e) = err e
du_total out run_err none = parsed_total (parse_du_bytes out) run_err
