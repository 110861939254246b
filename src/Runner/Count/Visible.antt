-- ===== src/Runner/Count/Visible.antt =====
-- Whether the next tick sees the runners that a tick dispatched.
use nomad_temporal_jobs.Prelude.{
  ℕ, zero, suc, ◌≡◌, refl, true, false, List, ◌∷◌, ◌++◌, arith, All, replicate,
}
use nomad_temporal_jobs.Prelude.Text.{Text, text_eq_iff, Lacks, equal_fold, has_prefix, trim_right}
use nomad_temporal_jobs.Runner.Config.{mode_forgejo}
use nomad_temporal_jobs.Runner.Keys.{github_root, slot_key, dispatched_slot, runner_bucket_key}
use nomad_temporal_jobs.Runner.Keys.RoundTrip.{
  slot_key-dispatched_github, slot_key-dispatched_forgejo,
}
use nomad_temporal_jobs.Runner.Count.Exact.{slots_in}

module _ (mode forgejo_url repo : Text) (labels : List Text)
    (no_comma : All (Lacks b',') labels) where
  -- Of n active runners that were dispatched in app-mode or vault-mode for labels without a comma,
  -- the bucket of their repository and labels counts n.
  pub slots_in-github :
      (n : ℕ)
      → equal_fold mode mode_forgejo ≡ false
      → slots_in
          (runner_bucket_key repo labels)
          (replicate n (dispatched_slot mode forgejo_url repo labels))
        ≡ n
  slots_in-github zero m = refl
  slots_in-github (suc n) m = ground (
    arith,
    slots_in-github n m,
    slot_key-dispatched_github mode forgejo_url repo labels m no_comma,
    text_eq_iff (slot_key (dispatched_slot mode forgejo_url repo labels))
        (runner_bucket_key repo labels),
  )

  -- Of n active runners that were dispatched in forgejo-mode, for an instance whose URL does not
  -- begin with https://github.com/ and labels without a comma, the bucket of their repository and
  -- labels counts 0.
  pub slots_in-forgejo :
      (n : ℕ)
      → equal_fold mode mode_forgejo ≡ true
      → has_prefix (trim_right b'/' forgejo_url ++ (b'/' ∷ repo)) github_root ≡ false
      → slots_in
          (runner_bucket_key repo labels)
          (replicate n (dispatched_slot mode forgejo_url repo labels))
        ≡ 0
  slots_in-forgejo zero m p = refl
  slots_in-forgejo (suc n) m p = ground (
    arith,
    slots_in-forgejo n m p,
    slot_key-dispatched_forgejo mode forgejo_url repo labels m p no_comma,
    text_eq_iff (slot_key (dispatched_slot mode forgejo_url repo labels))
        (runner_bucket_key repo labels),
  )
