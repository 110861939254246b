-- ===== src/Nomad/Images/Main.antt =====
-- Which image a job is taken to run.
use nomad_temporal_jobs.Prelude.{
  ◌≡◌, refl, Bool, true, false, ◌&&◌, not, none, some, List, [], ◌∷◌, any, arith, ◌⊎◌, inl, inr,
  Bool-cases,
}
use nomad_temporal_jobs.Prelude.Text.{Text, text_eq, text_eq_refl}
use nomad_temporal_jobs.Nomad.Images.{
  DockerTask, Job, docker_tasks, first_image, pick_image, main_docker_image,
}

abbrev pub is_named : Text → DockerTask → Bool
is_named job_name t = text_eq t.name job_name

abbrev pub is_main : DockerTask → Bool
is_main t = not t.sidecar

-- the test `p` finds the image of one of the tasks that pass it
abbrev pub Finds : (DockerTask → Bool) → List DockerTask → Text → Type 0
Finds p ts image = any (λ (t : DockerTask). p t && text_eq t.image image) ts ≡ true

first_image-Finds :
    (p : DockerTask → Bool) (ts : List DockerTask)
    → ((first_image p ts ≡ none) × (any p ts ≡ false))
      ⊎ ((image : Text) × (first_image p ts ≡ some image) × Finds p ts image)
unfolding first_image
first_image-Finds p [] = inl (refl, refl)
first_image-Finds p (t ∷ ts) = elim (Bool-cases (p t)) [
  | inl y ↦ inr (t.image, ground (arith, y), ground (arith, y, text_eq_refl t.image))
  | inr n ↦ elim (first_image-Finds p ts) [
    | inl (e, f) ↦ inl (ground (arith, n, e), ground (arith, n, f))
    | inr (image, e, f) ↦ inr (image, ground (arith, n, e), ground (arith, n, f))
  ]
]

no_task : (ts : List DockerTask) → any (λ (t : DockerTask). true) ts ≡ false → ts ≡ []
no_task [] h = refl
no_task (t ∷ ts) h = cc

-- No image is found only if the job has no docker task with one. Otherwise it is that of a docker
-- task of the job's own name; if there is none, of one without a lifecycle hook; only if there is
-- neither, of any.
pub main_docker_image_lem :
    (job : Job) (job_name : Text)
    → let ts = docker_tasks job.task_groups in
      ((main_docker_image job job_name ≡ none) × (ts ≡ []))
      ⊎ ((image : Text) × (main_docker_image job job_name ≡ some image)
          × (Finds (is_named job_name) ts image
              ⊎ ((any (is_named job_name) ts ≡ false) × Finds is_main ts image)
              ⊎ ((any (is_named job_name) ts ≡ false)
                  × (any is_main ts ≡ false)
                  × Finds (λ t. true) ts image)))
unfolding main_docker_image pick_image
main_docker_image_lem job job_name =
    let ts = docker_tasks job.task_groups in
    elim (first_image-Finds (is_named job_name) ts) [
      | inr (image, e, f) ↦ inr (image, ground (arith, e), inl f)
      | inl (e, f) ↦ elim (first_image-Finds is_main ts) [
        | inr (image, e', f') ↦ inr (image, ground (arith, e, e'), inr (inl (f, f')))
        | inl (e', f') ↦ elim (first_image-Finds (λ t. true) ts) [
          | inr (image, e'', f'') ↦ inr (image, ground (arith, e, e', e''), inr (inr (f, f', f'')))
          | inl (e'', f'') ↦ inl (ground (arith, e, e', e''), no_task ts f'')
        ]
      ]
    ]
