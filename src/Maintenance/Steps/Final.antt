-- ===== src/Maintenance/Steps/Final.antt =====
-- Which errors of the steps end a saga at once.
use nomad_temporal_jobs.Prelude.{◌≡◌, ◌↔◌, refl, arith, inl, inr, false, List, [], ◌∷◌}
use nomad_temporal_jobs.Prelude.Result.{
  Result, Failure, non_retryable, ok, err, ◌>>=◌, Result-cases,
}
use nomad_temporal_jobs.Prelude.Text.{Text, text_eq}
use nomad_temporal_jobs.Nomad.Alloc.{AllocStub, running_alloc_stubs}
use nomad_temporal_jobs.Nomad.Nodes.{Node, NodeInfo, find_job_node, node_of_first, node_info}
use nomad_temporal_jobs.Maintenance.Steps.{find_job_node_step, final_if, is_no_running_alloc}

-- the answer that ends a saga
abbrev final_answer : Result NodeInfo
final_answer = err (non_retryable "NoRunningAlloc")

first_found :
    (info : Text → Result Node) (stubs : List AllocStub)
    → ((id : Text) (e : Failure) → info id ≡ err e → is_no_running_alloc e ≡ false)
    → ((final_if is_no_running_alloc "NoRunningAlloc" (node_of_first info stubs) >>= λ node.
          ok (node_info node))
        ≡ final_answer)
      ↔ (stubs ≡ [])
unfolding node_of_first final_if is_no_running_alloc text_eq
first_found info [] distinct = (λ h. refl, λ h. refl)
first_found info (al ∷ stubs) distinct = elim (Result-cases (info al.node_id)) [
  | inl (node, p) ↦ ground (arith, p)
  | inr (e, p) ↦ ground (arith, p, distinct al.node_id e p)
]

-- Where Nomad lists the allocations of a job and its other errors are not that of a missing
-- allocation, the step that finds the job's node ends the saga at once exactly when none of the
-- allocations is running.
pub find_job_node_step_final_iff :
    (info : Text → Result Node) (allocs : List AllocStub)
    → ((id : Text) (e : Failure) → info id ≡ err e → is_no_running_alloc e ≡ false)
    → (find_job_node_step info (ok allocs) ≡ err (non_retryable "NoRunningAlloc"))
      ↔ (running_alloc_stubs allocs ≡ [])
unfolding find_job_node_step find_job_node
find_job_node_step_final_iff info allocs distinct =
    first_found info (running_alloc_stubs allocs) distinct
