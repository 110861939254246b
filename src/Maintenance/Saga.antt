-- ===== src/Maintenance/Saga.antt =====
-- The steps that the job-scaling sagas share: the activities of maintenance/internal/nodes/saga.go,
-- called by the workflows of maintenance/registrygc and maintenance/aptlycleanup, and the deferred
-- compensation of both. What the cluster answers depends on all that was called before, so that a
-- blip, a timeout and a cancellation are answers like any other.
use nomad_temporal_jobs.Prelude.{ℕ, ℤ, pos, Bool, true, false, List, [], ◌∷◌, ◌++◌, if◌then◌else◌}
use nomad_temporal_jobs.Prelude.Result.{Result, ok, err, is_ok}
use nomad_temporal_jobs.Prelude.Trace.{Run, within, ◌>>◌}
use nomad_temporal_jobs.Prelude.Text.{Text}
use nomad_temporal_jobs.Maintenance.Bytes.{Size}

-- `NodeInfo`, the fields that the sagas use
pub record NodeInfo : Type 0 where
  pub name : Text
  pub address : Text

pub data Activity : Type 0 where
  find_job_node : Text → Activity
  resolve_job_image : Text → Activity
  measure : NodeInfo → Text → Activity
  scale_job : Text → Text → ℕ → Activity
  wait_drained : Text → Activity
  wait_running : Text → Activity
  garbage_collect : NodeInfo → Activity
  db_cleanup : NodeInfo → Text → Text → Activity

-- the counts that the scalings in a log ask for
abbrev pub scales : List Activity → List ℕ
scales [] = []
scales (scale_job job group n ∷ log) = n ∷ scales log
scales (find_job_node job ∷ log) = scales log
scales (resolve_job_image job ∷ log) = scales log
scales (measure node dir ∷ log) = scales log
scales (wait_drained job ∷ log) = scales log
scales (wait_running job ∷ log) = scales log
scales (garbage_collect node ∷ log) = scales log
scales (db_cleanup node image dir ∷ log) = scales log

-- The activities called so far and the count of the scaled task group.
pub record World : Type 0 where
  pub log : List Activity
  pub count : ℕ

-- The cluster's answers, after what was called before. `applied` says of a scaling that is answered
-- with an error whether the count was changed all the same, as when the response is lost.
pub record Cluster : Type 0 where
  pub node : List Activity → Result NodeInfo
  pub image : List Activity → Result Text
  pub dir_size : List Activity → Result ℤ
  pub scaling : List Activity → Result (Unit {0})
  pub applied : List Activity → Bool
  pub drained : List Activity → Result (Unit {0})
  pub running : List Activity → Result (Unit {0})
  pub blobs : List Activity → Result ℕ
  pub cleaned : List Activity → Result Text

-- An activity that leaves the count as it is.
abbrev pub act : {A : Type 0} → Activity → (List Activity → Result A) → Run World A
act a answer w = (answer w.log, record w { log = w.log ++ (a ∷ []) })

abbrev or_unmeasured : Result ℤ → Size
or_unmeasured (ok n) = record { bytes = n; measured = true }
or_unmeasured (err e) = record { bytes = pos 0; measured = false }

module _ (c : Cluster) where
  -- `MeasureBestEffort` of maintenance/internal/nodes/measure.go
  unfoldable pub measure_best_effort : NodeInfo → Text → Run World Size
  measure_best_effort node dir w =
      let (r, w') = act (measure node dir) c.dir_size w in (ok (or_unmeasured r), w')

  -- `ScaleJob`
  unfoldable pub scale_to : Text → Text → ℕ → Run World (Unit {0})
  scale_to job group n w = (
    c.scaling w.log,
    record {
      log = w.log ++ (scale_job job group n ∷ []);
      count = if is_ok (c.scaling w.log) then n else if c.applied w.log then n else w.count;
    },
  )

  -- The deferred function: scale back to 1, and wait for the job to run if that went well.
  unfoldable pub compensate : Text → Text → Run World (Unit {0})
  unfolding scale_to
  compensate job group = do
    within "compensation scale-up failed" (scale_to job group 1)
    within "compensation wait-running failed" (act (wait_running job) c.running)

-- A workflow's state: the world, and the named result, which is filled in on the way.
pub record Saga (R : Type 0) : Type 0 where
  pub world : World
  pub result : R

abbrev pub lift : {R A : Type 0} → Run World A → Run (Saga R) A
lift m s = let (a, w) = m s.world in (a, record s { world = w })

abbrev pub set_result : {R : Type 0} → (R → R) → Run (Saga R) (Unit {0})
set_result f s = (ok tt, record s { result = f s.result })
