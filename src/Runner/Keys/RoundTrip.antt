-- ===== src/Runner/Keys/RoundTrip.antt =====
-- Whether an active runner is counted in the bucket that it was dispatched for.
use nomad_temporal_jobs.Prelude.{
  ℕ, ◌≡◌, refl, ◌≢◌, ap, ◌∙◌, true, false, List, [], ◌∷◌, ◌++◌, arith, length, length-append, All,
}
use mathlib.Core.List.{Perm}
use nomad_temporal_jobs.Prelude.Text.{
  Text, is_empty, join, split, sort_strings, sort_strings-eq_of_perm, Lacks, split-join,
  trim_prefix-append, trim_prefix-has_prefix, has_prefix, trim_right, equal_fold,
}
use nomad_temporal_jobs.Runner.Config.{mode_forgejo}
use nomad_temporal_jobs.Runner.Keys.{
  github_root, runner_bucket_key, repo_from_url, split_labels, slot_key, dispatch_repo_url,
  dispatched_slot,
}

-- The order of the labels does not matter to the key.
pub runner_bucket_key-perm :
    (repo : Text) {ls ms : List Text}
    → Perm ls ms
    → runner_bucket_key repo ls ≡ runner_bucket_key repo ms
unfolding runner_bucket_key
runner_bucket_key-perm repo p = rw (sort_strings-eq_of_perm p)

split_labels-full : (s : Text) → is_empty s ≡ false → split_labels s ≡ split b',' s
unfolding split_labels
split_labels-full s h = rw h

is_empty-join_cons :
    (x : ℕ) (s : Text) (rest : List Text) → is_empty (join b',' ((x ∷ s) ∷ rest)) ≡ false
unfolding is_empty join
is_empty-join_cons x s [] = refl
is_empty-join_cons x s (t ∷ rest) = refl

is_empty-join_two : (s t : Text) (rest : List Text) → is_empty (join b',' (s ∷ t ∷ rest)) ≡ false
unfolding is_empty join
is_empty-join_two [] t rest = refl
is_empty-join_two (x ∷ s) t rest = refl

split_labels-join :
    (s : Text) (rest : List Text)
    → is_empty (join b',' (s ∷ rest)) ≡ false
    → All (Lacks b',') (s ∷ rest)
    → split_labels (join b',' (s ∷ rest)) ≡ s ∷ rest
split_labels-join s rest e h = split_labels-full (join b',' (s ∷ rest)) e ∙ split-join b',' s rest h

-- The labels in the metadata give the key of the labels themselves.
pub key-split_labels-join :
    (repo : Text) (labels : List Text)
    → All (Lacks b',') labels
    → runner_bucket_key repo (split_labels (join b',' labels)) ≡ runner_bucket_key repo labels
key-split_labels-join repo [] h = unfold split_labels is_empty join in refl
key-split_labels-join repo ([] ∷ []) h =
    unfold split_labels is_empty join runner_bucket_key sort_strings in refl
key-split_labels-join repo ((x ∷ s) ∷ rest) h =
    ap (runner_bucket_key repo) (split_labels-join (x ∷ s) rest (is_empty-join_cons x s rest) h)
key-split_labels-join repo ([] ∷ t ∷ rest) h =
    ap (runner_bucket_key repo) (split_labels-join [] (t ∷ rest) (is_empty-join_two [] t rest) h)

-- A runner dispatched in app-mode or vault-mode, for labels without a comma, counts in the bucket
-- of its repository and labels.
pub slot_key-dispatched_github :
    (mode forgejo_url repo : Text) (labels : List Text)
    → equal_fold mode mode_forgejo ≡ false
    → All (Lacks b',') labels
    → slot_key (dispatched_slot mode forgejo_url repo labels) ≡ runner_bucket_key repo labels
unfolding slot_key dispatched_slot dispatch_repo_url repo_from_url
slot_key-dispatched_github mode forgejo_url repo labels m h =
    rw (m, trim_prefix-append github_root repo) (key-split_labels-join repo labels h)

longer_key :
    (base repo : Text) (labels : List Text)
    → runner_bucket_key (base ++ (b'/' ∷ repo)) labels ≢ runner_bucket_key repo labels
unfolding runner_bucket_key
longer_key base repo labels e = omega (
  arith,
  ap length e,
  length-append (base ++ (b'/' ∷ repo)) (b'|' ∷ join b',' (sort_strings labels)),
  length-append repo (b'|' ∷ join b',' (sort_strings labels)),
  length-append base (b'/' ∷ repo),
)

-- A runner dispatched in forgejo-mode, for an instance whose URL does not begin with
-- https://github.com/ and labels without a comma, never counts in the bucket of its repository and
-- labels.
pub slot_key-dispatched_forgejo :
    (mode forgejo_url repo : Text) (labels : List Text)
    → equal_fold mode mode_forgejo ≡ true
    → has_prefix (trim_right b'/' forgejo_url ++ (b'/' ∷ repo)) github_root ≡ false
    → All (Lacks b',') labels
    → slot_key (dispatched_slot mode forgejo_url repo labels) ≢ runner_bucket_key repo labels
unfolding slot_key dispatched_slot dispatch_repo_url repo_from_url
slot_key-dispatched_forgejo mode forgejo_url repo labels m p h =
    rw (m, trim_prefix-has_prefix (trim_right b'/' forgejo_url ++ (b'/' ∷ repo)) github_root p)
      (rw (key-split_labels-join (trim_right b'/' forgejo_url ++ (b'/' ∷ repo)) labels h)
        (longer_key (trim_right b'/' forgejo_url) repo labels))
