-- ===== src/Nomad/Alloc/Running.antt =====
-- Which jobs run on a node.
use nomad_temporal_jobs.Prelude.{◌≡◌, refl, Bool, ◌||◌, ◌&&◌, List, [], ◌∷◌, any, arith}
use nomad_temporal_jobs.Prelude.Result.{ok}
use nomad_temporal_jobs.Prelude.Text.{Text, text_eq, contains, add_key, contains-add_key}
use nomad_temporal_jobs.Nomad.Alloc.{AllocStub, is_running, running_ids, running_job_ids}

abbrev pub runs_job : Text → AllocStub → Bool
runs_job k al = is_running al.client_status && text_eq al.job_id k

contains-running_ids :
    (allocs : List AllocStub) (set : List Text) (k : Text)
    → contains (running_ids allocs set) k ≡ (any (runs_job k) allocs || contains set k)
unfolding running_ids
contains-running_ids [] set k = refl
contains-running_ids (al ∷ allocs) set k = ground (
  arith,
  contains-running_ids allocs set k,
  contains-running_ids allocs (add_key set al.job_id) k,
  contains-add_key set al.job_id k,
)

-- The running jobs of a node are exactly those of which an allocation there has the client status
-- running.
pub running_job_ids_lem :
    (allocs : List AllocStub) (k : Text)
    → (running : List Text) × (running_job_ids (ok allocs) ≡ ok running)
      × (contains running k ≡ any (runs_job k) allocs)
unfolding running_job_ids
running_job_ids_lem allocs k = (
  running_ids allocs [],
  refl,
  unfold contains in ground (arith, contains-running_ids allocs [] k),
)
