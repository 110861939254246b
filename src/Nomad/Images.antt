-- ===== src/Nomad/Images.antt =====
-- The docker images of jobs: `RunningImages`, `collectDockerImages`, `JobImage`, `mainDockerImage`,
-- `dockerTasks` and `dockerImage` of shared/client/nomad/nomad.go.
pub mod Running
pub mod Main
use nomad_temporal_jobs.Prelude.{
  Bool, true, false, ◌&&◌, not, Option, none, some, List, [], ◌∷◌, ◌++◌, if◌then◌else◌,
}
use nomad_temporal_jobs.Prelude.Result.{Result, Failure, external, ok, err, context, ◌>>=◌}
use nomad_temporal_jobs.Prelude.Text.{Text, codes, text_eq, is_empty, add_key, sort_strings}
use nomad_temporal_jobs.Nomad.Alloc.{AllocStub, running_alloc_stubs}

-- `image` is the string under `image` in the task's configuration, if there is one.
pub record Task : Type 0 where
  pub name : Text
  pub driver : Text
  pub image : Option Text
  pub has_lifecycle : Bool

pub record TaskGroup : Type 0 where
  pub tasks : List Task

pub record Job : Type 0 where
  pub task_groups : List TaskGroup

non_empty : Text → Option Text
non_empty image = if is_empty image then none else some image

string_image : Option Text → Option Text
unfolding non_empty
string_image none = none
string_image (some image) = non_empty image

unfoldable pub docker_image : Task → Option Text
unfolding string_image
docker_image task = if text_eq task.driver (codes "docker") then string_image task.image else none

unfoldable pub add_image : List Text → Option Text → List Text
add_image set none = set
add_image set (some image) = add_key set image

unfoldable pub collect_tasks : List Task → List Text → List Text
unfolding add_image docker_image
collect_tasks [] set = set
collect_tasks (task ∷ tasks) set = collect_tasks tasks (add_image set (docker_image task))

unfoldable pub collect_docker_images : List TaskGroup → List Text → List Text
collect_docker_images [] set = set
collect_docker_images (tg ∷ groups) set = collect_docker_images groups (collect_tasks tg.tasks set)

-- `info` answers for an allocation with its job, if it has one.
module _ (info : Text → Result (Option Job)) where
  collect_info : Result (Option Job) → List Text → List Text
  unfolding collect_docker_images
  collect_info (err e) set = set
  collect_info (ok none) set = set
  collect_info (ok (some job)) set = collect_docker_images job.task_groups set

  unfoldable pub collect_allocs : List AllocStub → List Text → List Text
  unfolding collect_info
  collect_allocs [] set = set
  collect_allocs (stub ∷ stubs) set = collect_allocs stubs (collect_info (info stub.id) set)

  unfoldable pub running_images : Result (List AllocStub) → Result (List Text)
  unfolding collect_allocs
  running_images listed = context "list allocations" listed >>= λ allocs.
      ok (sort_strings (collect_allocs (running_alloc_stubs allocs) []))

pub record DockerTask : Type 0 where
  pub name : Text
  pub image : Text
  pub sidecar : Bool

add_docker_task : Task → Option Text → List DockerTask → List DockerTask
add_docker_task task none rest = rest
add_docker_task task (some image) rest =
    record { name = task.name; image = image; sidecar = task.has_lifecycle } ∷ rest

unfoldable pub group_docker_tasks : List Task → List DockerTask
unfolding add_docker_task docker_image
group_docker_tasks [] = []
group_docker_tasks (task ∷ tasks) =
    add_docker_task task (docker_image task) (group_docker_tasks tasks)

unfoldable pub docker_tasks : List TaskGroup → List DockerTask
docker_tasks [] = []
docker_tasks (tg ∷ groups) = group_docker_tasks tg.tasks ++ docker_tasks groups

-- the first task that passes a test
unfoldable pub first_image : (DockerTask → Bool) → List DockerTask → Option Text
first_image p [] = none
first_image p (t ∷ ts) = let rest = first_image p ts in if p t then some t.image else rest

or_else : Option Text → Option Text → Option Text
or_else none rest = rest
or_else (some image) rest = some image

unfoldable pub pick_image : Text → List DockerTask → Option Text
unfolding first_image or_else
pick_image job_name tasks =
    or_else (first_image (λ t. text_eq t.name job_name) tasks)
      (or_else (first_image (λ t. not t.sidecar) tasks) (first_image (λ t. true) tasks))

unfoldable pub main_docker_image : Job → Text → Option Text
unfolding pick_image
main_docker_image job job_name = pick_image job_name (docker_tasks job.task_groups)

found_image : Option Text → Result Text
found_image none = err (external "no docker-driver image found in job")
found_image (some image) = ok image

unfoldable pub job_image : Text → Result Job → Result Text
unfolding found_image main_docker_image
job_image job_name got =
    context "get job" got >>= λ job. found_image (main_docker_image job job_name)
