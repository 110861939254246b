-- ===== src/Renewal.antt =====
-- The token renewal: `renewAll` of ghtokenrenewer/workflows/renew_common.go and `RenewTokens` of
-- ghtokenrenewer/workflows/renew.go. The fan-out leaves each outcome at its own index (see FanOut),
-- so the outcomes are a map over the repositories; what the activity answers is a function of the
-- repository.
pub mod Partition
pub mod Sonar
pub mod Enabled
use nomad_temporal_jobs.Prelude.{Bool, true, false, List, [], ◌∷◌}
use nomad_temporal_jobs.Prelude.Result.{Result, Failure, wrap, both, ok, err, context, is_ok}
use nomad_temporal_jobs.Prelude.Text.{Text}

-- `errors.Join` of the error of one repository and those behind it
unfoldable pub join_error : Failure → Result (Unit {0}) → Result (Unit {0})
join_error e (ok u) = err (wrap "repo" e)
join_error e (err f) = err (both (wrap "repo" e) f)

-- What `renewAll` returns: the results, the repositories that failed, and the joined error.
pub record Renewals (T : Type 0) : Type 0 where
  pub renewed : List T
  pub failed : List Text
  pub joined : Result (Unit {0})

module _ {T : Type 0} (renew : Text → Result T) where
  -- One repository, before those behind it.
  unfoldable pub place : Text → Result T → Renewals T → Renewals T
  unfolding join_error
  place repo (ok t) r = record r { renewed = t ∷ r.renewed }
  place repo (err e) r = record r { failed = repo ∷ r.failed; joined = join_error e r.joined }

  unfoldable pub renew_all : List Text → Renewals T
  unfolding place
  renew_all [] = record { renewed = []; failed = []; joined = ok tt }
  renew_all (repo ∷ repos) = place repo (renew repo) (renew_all repos)

  -- The workflow: no result where the repositories cannot be listed, else the lists, the mark of success and
  -- the error.
  unfoldable pub renew_tokens : Result (List Text) → Result (Renewals T × Bool × Result (Unit {0}))
  unfolding renew_all
  renew_tokens (err e) = err (wrap "list repos" e)
  renew_tokens (ok repos) =
      let r = renew_all repos in ok (r, is_ok r.joined, context "one or more repos failed" r.joined)
