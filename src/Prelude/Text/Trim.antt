-- ===== src/Prelude/Text/Trim.antt =====
-- `strings.TrimSpace`, end by end, on texts of which the beginning or the end is known.
use Prim.Native.Nat.{ℕ}
use mathlib.Core.Path.{◌≡◌, refl, sym, ap, ◌∙◌}
use mathlib.Core.Bool.{Bool, true, false}
use mathlib.Core.List.{[], ◌∷◌, ◌++◌, reverse, reverse-cons, reverse-append}
use native.Mathlib.Omega.{arith}
use nomad_temporal_jobs.Prelude.Tests.{if◌then◌else◌}
use nomad_temporal_jobs.Prelude.Lists.{All}
use nomad_temporal_jobs.Prelude.Text.Equality.{Text}
use nomad_temporal_jobs.Prelude.Text.Split.{is_space, trim_left_space, trim_space, Lacks}

-- one more character in front of a text whose end is trimmed
abbrev cons_trimmed : Bool → Text → Text → Text
cons_trimmed blank c [] = if blank then [] else c
cons_trimmed blank c (y ∷ ys) = c ++ (y ∷ ys)

unfoldable pub trim_end : Text → Text
trim_end [] = []
trim_end (c ∷ s) = cons_trimmed (is_space c) (c ∷ []) (trim_end s)

abbrev snoc_trimmed : Bool → Text → Text → Text
snoc_trimmed blank c [] = if blank then [] else c
snoc_trimmed blank c (y ∷ ys) = (y ∷ ys) ++ c

trim_left_space-snoc :
    (s : Text) (c : ℕ)
    → trim_left_space (s ++ (c ∷ [])) ≡ snoc_trimmed (is_space c) (c ∷ []) (trim_left_space s)
unfolding trim_left_space
trim_left_space-snoc [] c = refl
trim_left_space-snoc (x ∷ s) c = ground (arith, trim_left_space-snoc s c)

cons_trimmed-snoc :
    (blank : Bool) (c s : Text) (y : ℕ)
    → cons_trimmed blank c (s ++ (y ∷ [])) ≡ c ++ (s ++ (y ∷ []))
cons_trimmed-snoc blank c [] y = refl
cons_trimmed-snoc blank c (x ∷ s) y = refl

reverse-snoc_trimmed :
    (blank : Bool) (c : ℕ) (t : Text)
    → reverse (snoc_trimmed blank (c ∷ []) t) ≡ cons_trimmed blank (c ∷ []) (reverse t)
reverse-snoc_trimmed true c [] = refl
reverse-snoc_trimmed false c [] = refl
reverse-snoc_trimmed blank c (y ∷ ys) =
    reverse-append (y ∷ ys) (c ∷ [])
    ∙ sym (
        ap (cons_trimmed blank (c ∷ [])) (reverse-cons y ys)
        ∙ cons_trimmed-snoc blank (c ∷ []) (reverse ys) y
        ∙ ap (λ t. c ∷ t) (sym (reverse-cons y ys)))

-- The end of a text, trimmed as the source does it, by reversal.
reverse-trim_left_space : (s : Text) → reverse (trim_left_space (reverse s)) ≡ trim_end s
unfolding trim_end trim_left_space
reverse-trim_left_space [] = refl
reverse-trim_left_space (c ∷ s) = rw (
  reverse-cons c s,
  trim_left_space-snoc (reverse s) c,
  reverse-snoc_trimmed (is_space c) c (trim_left_space (reverse s)),
  reverse-trim_left_space s,
)

pub trim_end-append_word :
    (word t : Text) → All (λ c. is_space c ≡ false) word → trim_end (word ++ t) ≡ word ++ trim_end t
unfolding trim_end
trim_end-append_word [] t h = refl
trim_end-append_word (c ∷ word) t h = ground (arith, trim_end-append_word word t h.1, h.0)

pub trim_end-newline : (s : Text) → trim_end (s ++ (10 ∷ [])) ≡ trim_end s
unfolding trim_end is_space
trim_end-newline [] = refl
trim_end-newline (c ∷ s) = rw (trim_end-newline s)

pub trim_end-Lacks : (c : ℕ) (s : Text) → Lacks c s → Lacks c (trim_end s)
unfolding trim_end
trim_end-Lacks c [] h = h
trim_end-Lacks c (x ∷ s) h = ground (arith, trim_end-Lacks c s h.1, h.0)

-- Of a text that begins with no blank only the end is trimmed.
pub trim_space-solid :
    (c : ℕ) (s : Text) → is_space c ≡ false → trim_space (c ∷ s) ≡ trim_end (c ∷ s)
unfolding trim_space trim_left_space
trim_space-solid c s h = ground (arith, h, reverse-trim_left_space (c ∷ s))
