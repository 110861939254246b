-- ===== src/Renewal/Partition.antt =====
-- Where each repository of a renewal goes.
use nomad_temporal_jobs.Prelude.{
  ◌+◌, ◌≡◌, ◌↔◌, true, not, List, [], ◌∷◌, keep, length, arith, inl, inr,
}
use nomad_temporal_jobs.Prelude.Result.{Result, ok, err, is_ok, Result-cases}
use nomad_temporal_jobs.Prelude.Text.{Text}
use nomad_temporal_jobs.Renewal.{renew_all}

module _ {T : Type 0} (renew : Text → Result T) where
  -- the results of the repositories that were renewed, in order
  abbrev pub add_answer : Result T → List T → List T
  add_answer (ok t) ts = t ∷ ts
  add_answer (err e) ts = ts

  abbrev pub answers : List Text → List T
  answers [] = []
  answers (repo ∷ repos) = add_answer (renew repo) (answers repos)

  -- Of the repositories, in order, exactly those whose renewal failed are reported as failed, and of
  -- exactly the others the results are reported; the joined error is one exactly if a renewal failed.
  pub renew_all-partition :
      (repos : List Text)
      → let r = renew_all renew repos in
        (r.failed ≡ keep (λ repo. not (is_ok (renew repo))) repos)
        × (r.renewed ≡ answers repos)
        × (length r.renewed + length r.failed ≡ length repos)
        × ((is_ok r.joined ≡ true) ↔ (r.failed ≡ []))
  unfolding renew_all
  renew_all-partition [] = ground arith
  renew_all-partition (repo ∷ repos) = elim (Result-cases (renew repo)) [
    | inl (t, p) ↦ ground (arith, p, renew_all-partition repos)
    | inr (e, p) ↦
        ground (arith, p, renew_all-partition repos, Result-cases (renew_all renew repos).joined)
  ]
