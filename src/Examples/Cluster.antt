-- ===== src/Examples/Cluster.antt =====
-- The Nomad client, the cleanup of a node and the queue of jobs at concrete inputs.
use nomad_temporal_jobs.Prelude.{
  ℕ, ◌≡◌, refl, pos, true, false, ◌&&◌, ◌||◌, not, none, some, List, [], ◌∷◌, any, count,
  if◌then◌else◌, ◌↔◌, All, arith,
}
use nomad_temporal_jobs.Prelude.Result.{Result, external, ok, err}
use nomad_temporal_jobs.Prelude.Text.{
  Text, codes, text_eq, is_empty, contains, has_substring, has_prefix, times_key,
}
use nomad_temporal_jobs.Nomad.Alloc.{
  running, pending, AllocStub, ApiError, is_running, runner_terminal, running_job_ids,
  is_job_not_found,
}
use nomad_temporal_jobs.Nomad.Alloc.Terminal.{runner_terminal_quoted}
use nomad_temporal_jobs.Nomad.Wait.{Round, wait_alloc_count}
use nomad_temporal_jobs.Nomad.Wait.First.{GoesOn, IsMetIn, wait_alloc_count_iff}
use nomad_temporal_jobs.Nomad.Slots.{JobMeta}
use nomad_temporal_jobs.Nomad.Slots.Exact.{is_slot_of, has_key}
use nomad_temporal_jobs.Runner.Config.{QueuedJob}
use nomad_temporal_jobs.Runner.Count.{Counts, count_of, count_active_runners}
use nomad_temporal_jobs.Runner.Count.Cluster.{children_with, lister, count_active_runners_refines}
use nomad_temporal_jobs.Runner.Queue.{WorkflowJob, Listings, list_queued_self_hosted_jobs}
use nomad_temporal_jobs.Runner.Queue.Distinct.{has_id, any_run, list_queued_self_hosted_jobs_exact}
use nomad_temporal_jobs.Maintenance.NodeCleanup.{CleanupConfig, dir_path, strip_index}
use nomad_temporal_jobs.Maintenance.NodeCleanup.Node.{Conn}
use nomad_temporal_jobs.Maintenance.NodeCleanup.Node.Run.{cleanup_node_via_ssh}
use nomad_temporal_jobs.Maintenance.NodeCleanup.Node.Dry.{IsIdle, cleanup_node_via_ssh-IsIdle}
use nomad_temporal_jobs.Maintenance.NodeCleanup.Node.Spared.{cleanup_node_via_ssh_spares}
use nomad_temporal_jobs.Backup.Local.{WalkEntry, Directory, missing, stat_failed, walk}

abbrev alloc : AllocStub
alloc = record {
  id = codes "a1";
  job_id = codes "web";
  node_id = codes "n1";
  client_status = running;
}

abbrev child : AllocStub
child = record {
  id = codes "a2";
  job_id = codes "r/dispatch-1";
  node_id = codes "n1";
  client_status = pending;
}

abbrev quoted : ApiError
quoted = record { status_code = some 500; message = codes "Get r/dispatch-1404: refused" }

finds_404 : has_substring (codes "r/dispatch-1404") (codes "404") ≡ true
unfolding has_substring has_prefix
finds_404 = refl

runner_terminal_quoted_example :
    runner_terminal (λ f. is_job_not_found quoted) (err (external "refused")) ≡ ok true
runner_terminal_quoted_example =
    runner_terminal_quoted (λ f. quoted) (external "refused") (codes "Get ")
      (codes "r/dispatch-1404") (codes ": refused") refl finds_404

abbrev early : Round
early = record { done_before = false; listing = ok (alloc ∷ []); done_after = false }

abbrev drained : Round
drained = record { done_before = false; listing = ok []; done_after = false }

early-GoesOn : GoesOn (pos 0) early
unfolding is_running
early-GoesOn = (refl, (λ p. ground (arith, p)), refl)

wait_alloc_count_iff_example :
    ((wait_alloc_count (pos 0) (early ∷ drained ∷ []) ≡ some (ok tt))
      ↔ IsMetIn (pos 0) (early ∷ drained ∷ []))
    × ((wait_alloc_count (pos 0) (early ∷ drained ∷ []) ≡ none)
        ↔ All (GoesOn (pos 0)) (early ∷ drained ∷ []))
wait_alloc_count_iff_example = wait_alloc_count_iff (pos 0) (early ∷ drained ∷ [])

-- The second of these rounds ends the wait.
drained_second : IsMetIn (pos 0) (early ∷ drained ∷ [])
drained_second = (early ∷ [], drained, [], refl, (early-GoesOn, tt), refl, refl)

abbrev info : Text → Result JobMeta
info id = ok (record { repo_url = codes "o/r"; labels = codes "x" })

count_active_runners_refines_example :
    (r : Counts) × (jobs : List Text) × (children : Text → List Text) × (count_active_runners
        (lister info (child ∷ child ∷ alloc ∷ []))
        (codes "r")
        (codes "r" ∷ [])
      ≡ ok r)
    × ((job : Text)
        → times_key job jobs ≡ (
            if text_eq (codes "r") job || (contains (codes "r" ∷ []) job && not (is_empty job))
            then 1
            else 0))
    × ((job id : Text)
        → times_key id (children job)
          ≡ (if any (is_slot_of job id) (child ∷ child ∷ alloc ∷ []) then 1 else 0))
    × ((key : Text) → count_of r key ≡ children_with (has_key info key) children jobs)
count_active_runners_refines_example =
    count_active_runners_refines info (child ∷ child ∷ alloc ∷ []) (codes "r") (codes "r" ∷ [])

abbrev queued : WorkflowJob
queued = record {
  id = 7;
  run_id = 3;
  name = codes "build";
  status = codes "queued";
  labels = codes "self-hosted" ∷ [];
}

abbrev jobs_of : ℕ → List WorkflowJob
jobs_of run = queued ∷ []

abbrev listings : Listings
listings = record { runs = λ status. ok (3 ∷ []); jobs = λ run. ok (jobs_of run) }

list_queued_self_hosted_jobs_exact_example :
    (js : List QueuedJob) × (list_queued_self_hosted_jobs listings ≡ ok js)
    × ((id : ℕ)
        → count (has_id id) js ≡ (
            if any_run listings jobs_of id (3 ∷ []) || any_run listings jobs_of id (3 ∷ [])
            then 1
            else 0))
list_queued_self_hosted_jobs_exact_example =
    list_queued_self_hosted_jobs_exact listings jobs_of (3 ∷ []) (3 ∷ []) refl refl (λ r. refl)

abbrev remove : Text → Result (Unit {0})
remove path = ok tt

abbrev conn : Conn
conn = record {
  read_dir = λ dir. ok (
      record { name = codes "web-0"; is_dir = true; mtime = 0 }
      ∷ record { name = codes "old"; is_dir = true; mtime = 0 }
      ∷ []);
  remove_all = remove;
  docker = record { new_client = ok tt; prune = λ step. ok 10; prune_networks = ok tt };
  daemons = record {
    storage_driver = ok (codes "overlay2");
    client = ok tt;
    containers = ok [];
    list_images = ok (codes "stale" ∷ []);
    delete_image = remove;
    size_before = pos 100;
    size_after = pos 60;
  };
  host = record {
    overlay_dir = ok [];
    is_missing = λ e. false;
    mount_table = ok [];
    dir_size = λ path. pos 1;
    remove_all = remove;
    dangling_volumes = ok [];
    remove_volume = remove;
  };
  cancels = record {
    docker = none;
    containerd = some (external "context canceled");
    rootfs = none;
    buildx = none;
  };
}

abbrev pub config : CleanupConfig
config = record {
  data_dir = codes "/d";
  grace_days = pos 7;
  concurrency = pos 4;
  dry_run = false;
  docker_prune = true;
  containerd_prune = true;
  rootfs_prune = true;
  buildx_volume_prune = true;
}

-- 30 days in nanoseconds
abbrev now : ℕ
now = 2_592_000_000_000_000

runs_web :
    (any
        (λ (al : AllocStub). is_running al.client_status && text_eq al.job_id (codes "web-0"))
        (alloc ∷ [])
      || any
          (λ (al : AllocStub).
            is_running al.client_status && text_eq al.job_id (strip_index (codes "web-0")))
          (alloc ∷ []))
    ≡ true
unfolding is_running text_eq strip_index
runs_web = refl

cleanup_node_via_ssh_spares_example :
    contains
      (cleanup_node_via_ssh
        (codes "n1")
        config
        now
        (running_job_ids (ok (alloc ∷ [])))
        (ok conn)).1.1.dirs
      (dir_path config (codes "web-0"))
    ≡ false
cleanup_node_via_ssh_spares_example =
    cleanup_node_via_ssh_spares (codes "n1") config now (alloc ∷ []) (ok conn) (codes "web-0")
      runs_web

cleanup_node_via_ssh-IsIdle_example :
    IsIdle
      (cleanup_node_via_ssh
        (codes "n1")
        (record config { dry_run = true })
        now
        (ok [])
        (ok conn)).1.1
cleanup_node_via_ssh-IsIdle_example =
    cleanup_node_via_ssh-IsIdle (codes "n1") (record config { dry_run = true }) now (ok [])
      (ok conn) refl

abbrev backup : WalkEntry
backup = record { path = codes "/b/n.snap"; name = codes "n.snap"; is_dir = false; mod_time = ok 5 }

abbrev dirs : List Directory
dirs = walk (ok backup ∷ []) ∷ missing ∷ stat_failed (external "io") ∷ []
