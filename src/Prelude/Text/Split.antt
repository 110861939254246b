-- ===== src/Prelude/Text/Split.antt =====
-- Prefixes, suffixes, substrings, cutting and joining.
use Prim.Native.Nat.{ℕ, ◌+◌}
use mathlib.Core.Path.{◌≡◌, refl, ap, ◌∙◌}
use mathlib.Core.Logic.{◌≢◌}
use mathlib.Core.Bool.{Bool, true, false, ◌&&◌, ◌||◌}
use mathlib.Core.Option.{Option, none, some}
use mathlib.Core.List.{List, [], ◌∷◌, ◌++◌, map, reverse}
use native.Mathlib.Omega.{arith}
use nomad_temporal_jobs.Prelude.Tests.{leb, ◌==◌, if◌then◌else◌}
use nomad_temporal_jobs.Prelude.Lists.{All}
use nomad_temporal_jobs.Prelude.Text.Equality.{Text, text_eq}

-- `strings.HasPrefix s p`
unfoldable pub has_prefix : Text → Text → Bool
has_prefix s [] = true
has_prefix [] (y ∷ p) = false
has_prefix (x ∷ s) (y ∷ p) = (x == y) && has_prefix s p

-- `strings.HasSuffix s p`
unfoldable pub has_suffix : Text → Text → Bool
unfolding has_prefix
has_suffix s p = has_prefix (reverse s) (reverse p)

-- `strings.Contains s sub`
unfoldable pub has_substring : Text → Text → Bool
unfolding has_prefix
has_substring [] sub = has_prefix [] sub
has_substring (x ∷ s) sub = has_prefix (x ∷ s) sub || has_substring s sub

-- what is left behind a prefix, if it is there
unfoldable pub after_prefix : Text → Text → Option Text
after_prefix s [] = some s
after_prefix [] (y ∷ p) = none
after_prefix (x ∷ s) (y ∷ p) = let rest = after_prefix s p in if x == y then rest else none

abbrev or_else : Option Text → Text → Text
or_else none d = d
or_else (some s) d = s

-- `strings.TrimPrefix s p`
unfoldable pub trim_prefix : Text → Text → Text
unfolding after_prefix
trim_prefix s p = or_else (after_prefix s p) s

-- `strings.TrimRight s c`, for a cutset of one byte
unfoldable pub trim_right : ℕ → Text → Text
trim_right c [] = []
trim_right c (x ∷ s) =
    let rest = trim_right c s in
    elim rest [ [] ↦ if x == c then [] else x ∷ [] | y ∷ ys ↦ x ∷ y ∷ ys ]

-- `strings.Join`, with a separator of one byte
unfoldable pub join : ℕ → List Text → Text
join c [] = []
join c (s ∷ []) = s
join c (s ∷ t ∷ rest) = s ++ (c ∷ join c (t ∷ rest))

-- the fields of a text, the first of them being read
abbrev pub cons_head : ℕ → List Text → List Text
cons_head x [] = (x ∷ []) ∷ []
cons_head x (s ∷ rest) = (x ∷ s) ∷ rest

-- `strings.Split`, with a separator of one byte: never the empty list
unfoldable pub split : ℕ → Text → List Text
split c [] = [] ∷ []
split c (x ∷ s) = let rest = split c s in if x == c then [] ∷ rest else cons_head x rest

-- `strings.Cut`, at the first separator of one byte
unfoldable pub cut : ℕ → Text → Option (Text × Text)
cut c [] = none
cut c (x ∷ s) =
    let rest = cut c s in
    if x == c then some ([], s) else elim rest [ none ↦ none | some (a, b) ↦ some (x ∷ a, b) ]

-- The white space of `unicode.IsSpace`.
unfoldable pub is_space : ℕ → Bool
is_space c =
    (leb 9 c && leb c 13)
    || c == 32
    || c == 133
    || c == 160
    || c == 5760
    || (leb 8192 c && leb c 8202)
    || c == 8232
    || c == 8233
    || c == 8239
    || c == 8287
    || c == 12288

unfoldable pub trim_left_space : Text → Text
trim_left_space [] = []
trim_left_space (x ∷ s) = let rest = trim_left_space s in if is_space x then rest else x ∷ s

-- `strings.TrimSpace`
unfoldable pub trim_space : Text → Text
unfolding trim_left_space is_space
trim_space s = reverse (trim_left_space (reverse (trim_left_space s)))

-- Folding of ASCII letters only. The texts that the workers compare with hold no `k` and no `s`
-- where they call `strings.EqualFold`, and these are the ASCII letters to which others fold.
unfoldable pub to_lower_byte : ℕ → ℕ
to_lower_byte c = if leb b'A' c && leb c b'Z' then c + 32 else c

unfoldable pub to_lower : Text → Text
unfolding to_lower_byte
to_lower = map to_lower_byte

unfoldable pub equal_fold : Text → Text → Bool
unfolding to_lower text_eq
equal_fold s t = text_eq (to_lower s) (to_lower t)

-- no byte of the text is `c`
abbrev pub Lacks : ℕ → Text → Type 0
Lacks c = All (λ x. x ≢ c)

split-append : (c : ℕ) (s t : Text) → Lacks c s → split c (s ++ (c ∷ t)) ≡ s ∷ split c t
unfolding split
split-append c [] t h = ground arith
split-append c (x ∷ s) t h = ground (arith, split-append c s t h.1)

pub split-singleton : (c : ℕ) (s : Text) → Lacks c s → split c s ≡ s ∷ []
unfolding split
split-singleton c [] h = refl
split-singleton c (x ∷ s) h = ground (arith, split-singleton c s h.1)

-- `Split` undoes `Join` where no field holds the separator.
pub split-join :
    (c : ℕ) (s : Text) (rest : List Text)
    → All (Lacks c) (s ∷ rest)
    → split c (join c (s ∷ rest)) ≡ s ∷ rest
unfolding join
split-join c s [] h = split-singleton c s h.0
split-join c s (t ∷ rest) h =
    split-append c s (join c (t ∷ rest)) h.0 ∙ ap (◌∷◌ s) (split-join c t rest h.1)

pub after_prefix-append : (p s : Text) → after_prefix (p ++ s) p ≡ some s
unfolding after_prefix
after_prefix-append [] s = refl
after_prefix-append (y ∷ p) s = ground (arith, after_prefix-append p s)

pub trim_prefix-append : (p s : Text) → trim_prefix (p ++ s) p ≡ s
unfolding trim_prefix
trim_prefix-append p s = rw (after_prefix-append p s)

-- With another beginning nothing is cut.
pub trim_prefix-has_prefix : (s p : Text) → has_prefix s p ≡ false → trim_prefix s p ≡ s
unfolding trim_prefix has_prefix
trim_prefix-has_prefix s p h = rw (none_of s p h)
  where
    none_of : (s p : Text) → has_prefix s p ≡ false → after_prefix s p ≡ none
    none_of s [] h = ground arith
    none_of [] (y ∷ p) h = refl
    none_of (x ∷ s) (y ∷ p) h = ground (arith, none_of s p)

has_prefix-append : (s t p : Text) → has_prefix s p ≡ true → has_prefix (s ++ t) p ≡ true
unfolding has_prefix
has_prefix-append [] t [] h = ground arith
has_prefix-append (x ∷ s) t [] h = ground arith
has_prefix-append [] t (y ∷ p) h = ground arith
has_prefix-append (x ∷ s) t (y ∷ p) h = ground (arith, has_prefix-append s t p)

has_substring-append_right :
    (s t sub : Text) → has_substring s sub ≡ true → has_substring (s ++ t) sub ≡ true
unfolding has_substring
has_substring-append_right [] [] sub h = ground arith
has_substring-append_right [] (y ∷ t) sub h = ground (arith, has_prefix-append [] (y ∷ t) sub)
has_substring-append_right (x ∷ s) t sub h =
    ground (arith, has_prefix-append (x ∷ s) t sub, has_substring-append_right s t sub)

-- What a part of a text contains, the text contains.
pub has_substring-append :
    (a s b sub : Text) → has_substring s sub ≡ true → has_substring (a ++ (s ++ b)) sub ≡ true
unfolding has_substring
has_substring-append [] s b sub h = has_substring-append_right s b sub h
has_substring-append (x ∷ a) s b sub h = ground (arith, has_substring-append a s b sub h)
