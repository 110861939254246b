-- ===== src/Nomad/Images/Running.antt =====
-- Which images are found running.
use nomad_temporal_jobs.Prelude.{
  ◌≡◌, refl, ap, ◌∙◌, Bool, false, ◌||◌, ◌&&◌, Option, none, some, List, [], ◌∷◌, any, arith,
  if◌then◌else◌,
}
use nomad_temporal_jobs.Prelude.Result.{Result, ok, err}
use nomad_temporal_jobs.Prelude.Text.{
  Text, text_eq, contains, IsKeySet, IsSorted, times_key, contains-add_key, add_key-IsKeySet,
  sort_strings, times_key-sort_strings, sort_strings-IsSorted,
}
use nomad_temporal_jobs.Nomad.Alloc.{AllocStub, is_running, running_alloc_stubs}
use nomad_temporal_jobs.Nomad.Images.{
  Task, TaskGroup, Job, docker_image, add_image, collect_tasks, collect_docker_images, collect_info,
  collect_allocs, running_images,
}

abbrev is_image : Text → Option Text → Bool
is_image k none = false
is_image k (some image) = text_eq image k

-- the tasks, groups and jobs that run an image under docker
abbrev pub task_runs : Text → Task → Bool
task_runs k task = is_image k (docker_image task)

abbrev pub group_runs : Text → TaskGroup → Bool
group_runs k tg = any (task_runs k) tg.tasks

abbrev pub answer_runs : Text → Result (Option Job) → Bool
answer_runs k (err e) = false
answer_runs k (ok none) = false
answer_runs k (ok (some job)) = any (group_runs k) job.task_groups

or_false : (b : Bool) → (b || false) ≡ b
or_false b = ground arith

-- `t` is the set `s` with the image `k` added if `b` says so.
abbrev Adds : Bool → Text → List Text → List Text → Type 0
Adds b k s t = (contains t k ≡ (b || contains s k)) × (IsKeySet s → IsKeySet t)

Adds-trans :
    (b c : Bool) (k : Text) (s t u : List Text) → Adds b k s t → Adds c k t u → Adds (b || c) k s u
Adds-trans b c k s t u (p, f) (q, g) = (ground (arith, p, q), λ h. g (f h))

Adds-none : (k : Text) (s : List Text) → Adds false k s s
Adds-none k s = (refl, λ h. h)

add_image-Adds :
    (k : Text) (o : Option Text) (set : List Text) → Adds (is_image k o) k set (add_image set o)
unfolding add_image
add_image-Adds k none set = Adds-none k set
add_image-Adds k (some image) set = (contains-add_key set image k, add_key-IsKeySet set image)

collect_tasks-Adds :
    (k : Text) (tasks : List Task) (set : List Text)
    → Adds (any (task_runs k) tasks) k set (collect_tasks tasks set)
unfolding collect_tasks
collect_tasks-Adds k [] set = Adds-none k set
collect_tasks-Adds k (task ∷ tasks) set =
    let next = add_image set (docker_image task) in
    Adds-trans (task_runs k task) (any (task_runs k) tasks) k set next (collect_tasks tasks next)
      (add_image-Adds k (docker_image task) set) (collect_tasks-Adds k tasks next)

collect_docker_images-Adds :
    (k : Text) (groups : List TaskGroup) (set : List Text)
    → Adds (any (group_runs k) groups) k set (collect_docker_images groups set)
unfolding collect_docker_images
collect_docker_images-Adds k [] set = Adds-none k set
collect_docker_images-Adds k (tg ∷ groups) set =
    let next = collect_tasks tg.tasks set in
    Adds-trans (group_runs k tg) (any (group_runs k) groups) k set next
      (collect_docker_images groups next) (collect_tasks-Adds k tg.tasks set)
      (collect_docker_images-Adds k groups next)

module _ (info : Text → Result (Option Job)) where
  collect_info-Adds :
      (k : Text) (r : Result (Option Job)) (set : List Text)
      → Adds (answer_runs k r) k set (collect_info info r set)
  unfolding collect_info
  collect_info-Adds k (err e) set = Adds-none k set
  collect_info-Adds k (ok none) set = Adds-none k set
  collect_info-Adds k (ok (some job)) set = collect_docker_images-Adds k job.task_groups set

  abbrev stub_runs : Text → AllocStub → Bool
  stub_runs k stub = answer_runs k (info stub.id)

  collect_allocs-Adds :
      (k : Text) (stubs : List AllocStub) (set : List Text)
      → Adds (any (stub_runs k) stubs) k set (collect_allocs info stubs set)
  unfolding collect_allocs
  collect_allocs-Adds k [] set = Adds-none k set
  collect_allocs-Adds k (stub ∷ stubs) set =
      let next = collect_info info (info stub.id) set in
      Adds-trans (stub_runs k stub) (any (stub_runs k) stubs) k set next
        (collect_allocs info stubs next) (collect_info-Adds k (info stub.id) set)
        (collect_allocs-Adds k stubs next)

  -- an allocation that runs, whose job can be read and runs an image
  abbrev pub alloc_runs : Text → AllocStub → Bool
  alloc_runs k stub = is_running stub.client_status && answer_runs k (info stub.id)

  any-running_alloc_stubs :
      (k : Text) (allocs : List AllocStub)
      → any (stub_runs k) (running_alloc_stubs allocs) ≡ any (alloc_runs k) allocs
  unfolding running_alloc_stubs
  any-running_alloc_stubs k [] = refl
  any-running_alloc_stubs k (al ∷ allocs) = ground (arith, any-running_alloc_stubs k allocs)

  -- The images are sorted, and each image stands there once exactly if a docker task of the job of a
  -- running allocation has it, of those jobs that can be read; no other image stands there.
  pub running_images_exact :
      (allocs : List AllocStub)
      → (images : List Text) × (running_images info (ok allocs) ≡ ok images)
        × IsSorted images
        × ((k : Text) → times_key k images ≡ (if any (alloc_runs k) allocs then 1 else 0))
  unfolding running_images contains
  running_images_exact allocs =
      let set = collect_allocs info (running_alloc_stubs allocs) [] in
      (
        sort_strings set,
        refl,
        sort_strings-IsSorted set,
        λ k.
            let (found, once) = collect_allocs-Adds k (running_alloc_stubs allocs) [] in
            times_key-sort_strings k set
            ∙ once (λ j. refl) k
            ∙ ap (λ b. if b then 1 else 0)
                (found
                  ∙ unfold contains in or_false (any (stub_runs k) (running_alloc_stubs allocs)))
            ∙ ap (λ b. if b then 1 else 0) (any-running_alloc_stubs k allocs),
      )
