-- ===== src/Nomad/Slots.antt =====
-- The active runners of a job: `ActiveRunnerSlots` and `metaString` of shared/client/nomad/nomad.go.
-- The Go map of active children is walked in any order; here it is that of the allocations.
pub mod Exact
use nomad_temporal_jobs.Prelude.{
  ℕ, Bool, ◌&&◌, Option, none, some, List, [], ◌∷◌, ◌++◌, if◌then◌else◌,
}
use nomad_temporal_jobs.Prelude.Result.{Result, Failure, ok, err, context, ◌>>=◌}
use nomad_temporal_jobs.Prelude.Text.{Text, codes, has_prefix, add_key}
use nomad_temporal_jobs.Nomad.Alloc.{AllocStub, occupies}
use nomad_temporal_jobs.Runner.Keys.{RunnerSlot}

-- The metadata of a job; a missing key reads as the empty text.
pub record JobMeta : Type 0 where
  pub repo_url : Text
  pub labels : Text

abbrev pub dispatch_prefix : Text → Text
dispatch_prefix parent = parent ++ codes "/dispatch-"

unfoldable pub is_active_child : Text → AllocStub → Bool
unfolding occupies
is_active_child prefix al = has_prefix al.job_id prefix && occupies al.client_status

unfoldable pub active_children : Text → List AllocStub → List Text → List Text
unfolding is_active_child
active_children prefix [] active = active
active_children prefix (al ∷ allocs) active =
    active_children prefix allocs
      (if is_active_child prefix al then add_key active al.job_id else active)

module _ (info : Text → Result JobMeta) where
  add_slot : Result JobMeta → List RunnerSlot → List RunnerSlot
  add_slot (err e) slots = slots
  add_slot (ok meta) slots = record { repo_url = meta.repo_url; labels = meta.labels } ∷ slots

  unfoldable pub read_slots : List Text → List RunnerSlot
  unfolding add_slot
  read_slots [] = []
  read_slots (id ∷ ids) = add_slot (info id) (read_slots ids)

  unfoldable pub active_runner_slots : Result (List AllocStub) → Text → Result (List RunnerSlot)
  unfolding read_slots active_children
  active_runner_slots listed parent = context "list allocations" listed >>= λ allocs.
      ok (read_slots (active_children (dispatch_prefix parent) allocs []))
