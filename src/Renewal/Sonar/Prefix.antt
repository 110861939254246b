-- ===== src/Renewal/Sonar/Prefix.antt =====
-- The prefix of one repository fits no token of another.
use nomad_temporal_jobs.Prelude.{
  ◌≡◌, refl, ap, Bool, true, false, ◌&&◌, not, [], ◌∷◌, ◌++◌, arith, append_assoc, ◌∙◌, sym,
}
use nomad_temporal_jobs.Prelude.Text.{Text, text_eq, has_prefix, Lacks}
use nomad_temporal_jobs.Renewal.Sonar.{is_prior, token_prefix, token_name}

and_true : (a b : Bool) → (a && b) ≡ true → (a ≡ true) × (b ≡ true)
and_true a b h = ground (arith, h)

not-true : (b : Bool) → not b ≡ true → b ≡ false
not-true b h = ground (arith, h)

-- A segment up to a slash is found again.
has_prefix-segment :
    (o p : Text) (s t : Text)
    → Lacks b'/' o
    → Lacks b'/' p
    → has_prefix (o ++ (b'/' ∷ s)) (p ++ (b'/' ∷ t)) ≡ true
    → (o ≡ p) × (has_prefix s t ≡ true)
unfolding has_prefix
has_prefix-segment [] [] s t h k e = (refl, e)
has_prefix-segment [] (y ∷ p) s t h k e = ground (arith, k.0, e)
has_prefix-segment (x ∷ o) [] s t h k e = ground (arith, h.0, e)
has_prefix-segment (x ∷ o) (y ∷ p) s t h k e = ground (arith, e, has_prefix-segment o p s t h.1 k.1)

ap2_prefix : {s t p q : Text} → s ≡ t → p ≡ q → has_prefix s p ≡ has_prefix t q
ap2_prefix {t = t} {p = p} e f = ap (λ s. has_prefix s p) e ∙ ap (has_prefix t) f

segments :
    (o r s : Text) → ((o ++ (b'/' ∷ r)) ++ (b'/' ∷ [])) ++ s ≡ o ++ (b'/' ∷ (r ++ (b'/' ∷ s)))
segments o r s = append_assoc (o ++ (b'/' ∷ r)) (b'/' ∷ []) s ∙ append_assoc o (b'/' ∷ r) (b'/' ∷ s)

-- A token that the renewal of a repository takes for a prior one of that repository, and that was
-- minted for a repository of any owner and name without a slash, was minted for that repository
-- itself, and is not the token to keep.
pub is_prior_own :
    (owner name owner' name' stamp kept : Text)
    → Lacks b'/' owner
    → Lacks b'/' name
    → Lacks b'/' owner'
    → Lacks b'/' name'
    → is_prior (token_prefix owner name) kept (token_name owner' name' stamp) ≡ true
    → (owner' ≡ owner) × (name' ≡ name) × (text_eq (token_name owner' name' stamp) kept ≡ false)
unfolding is_prior token_name token_prefix has_prefix
is_prior_own owner name owner' name' stamp kept h h' k k' e =
    let q = token_name owner' name' stamp in
    let both = and_true (not (text_eq q kept)) (has_prefix q (token_prefix owner name)) e in
    let found : has_prefix (((owner' ++ (b'/' ∷ name')) ++ (b'/' ∷ [])) ++ stamp)
          ((owner ++ (b'/' ∷ name)) ++ (b'/' ∷ []))
        ≡ true =
      both.1 in
    let here = has_prefix-segment owner' owner (name' ++ (b'/' ∷ stamp)) (name ++ (b'/' ∷ [])) k h (
      ap2_prefix (sym (segments owner' name' stamp))
        (sym (append_assoc owner (b'/' ∷ name) (b'/' ∷ [])))
      ∙ found) in
    (
      here.0,
      (has_prefix-segment name' name stamp [] k' h' here.1).0,
      not-true (text_eq q kept) both.0,
    )
