-- ===== src/Maintenance/NodeCleanup/Node/Dry.antt =====
-- When nothing is removed from a node.
use nomad_temporal_jobs.Prelude.{
  ℕ, ◌≡◌, refl, sym, subst, if_both, ◌||◌, not, inl, inr, keep, Bool, true, false, List, [], Option,
  map, arith, if◌then◌else◌,
}
use nomad_temporal_jobs.Prelude.Result.{Result, Failure, ok, err, is_ok, Result-cases}
use nomad_temporal_jobs.Prelude.Text.{Text}
use nomad_temporal_jobs.Ssh.Containerd.{
  Daemons, referenced_images, prune_safe, prune_images, containerd_prune,
}
use nomad_temporal_jobs.Ssh.Reclaim.{
  ReclaimResult, Host, Volume, is_buildx_state_volume, rootfs_candidates, rootfs_prune,
  buildx_volume_prune,
}
use nomad_temporal_jobs.Ssh.Reclaim.Exact.{sweep_dry}
use nomad_temporal_jobs.Maintenance.NodeCleanup.{
  CleanupConfig, DirEntry, sweep_data_dirs, first_sweep,
}
use nomad_temporal_jobs.Maintenance.NodeCleanup.Exact.{sweep_data_dirs_exact}
use nomad_temporal_jobs.Maintenance.NodeCleanup.Node.{
  Conn, Asked, docker_prune, prune_containerd, reclaim_step, asked_of, list_data_dirs,
}
use nomad_temporal_jobs.Maintenance.NodeCleanup.Node.Run.{
  nothing_asked, State, scan_step, docker_ran, containerd_ran, rootfs_ran, buildx_ran,
  optional_steps, listed, connected, after_running, cleanup_node_via_ssh, no_result,
}

abbrev NoneAsked : {A : Type 0} → Result (A × List Text) → Type 0
NoneAsked (err e) = Unit
NoneAsked (ok (r, asked)) = asked ≡ []

containerd_prune-dry : (d : Daemons) → NoneAsked (containerd_prune d true)
unfolding containerd_prune prune_safe prune_images
containerd_prune-dry d = ground (
  arith,
  Result-cases d.storage_driver,
  Result-cases d.client,
  Result-cases (referenced_images d),
  Result-cases d.list_images,
)

rootfs_prune-dry : (h : Host) → NoneAsked (rootfs_prune h true)
unfolding rootfs_prune
rootfs_prune-dry h = elim (Result-cases h.overlay_dir) [
  | inr (e, q) ↦ ground (arith, q)
  | inl (entries, q) ↦ elim (Result-cases h.mount_table) [
    | inr (e, p) ↦ ground (arith, q, p)
    | inl (mounts, p) ↦
        ground (arith, q, p, sweep_dry h.remove_all (rootfs_candidates h entries mounts))
  ]
]

buildx_volume_prune-dry : (h : Host) → NoneAsked (buildx_volume_prune h true)
unfolding buildx_volume_prune
buildx_volume_prune-dry h = elim (Result-cases h.dangling_volumes) [
  | inr (e, q) ↦ ground (arith, q)
  | inl (volumes, q) ↦ ground (
    arith,
    q,
    sweep_dry h.remove_volume (
        map (λ (v : Volume). record { id = v.name; size = h.dir_size v.mountpoint })
          (keep (λ (v : Volume). is_buildx_state_volume v.name) volumes)),
  )
]

asked_of-dry : {A : Type 0} (q : Result (A × List Text)) → NoneAsked q → asked_of q ≡ []
unfolding asked_of
asked_of-dry (err e) h = refl
asked_of-dry (ok (r, asked)) h = h

reclaim_step-dry :
    (cancelled : Option Failure) (q : Result (ReclaimResult × List Text))
    → NoneAsked q
    → (reclaim_step cancelled true q).1 ≡ []
unfolding reclaim_step
reclaim_step-dry cancelled q h = asked_of-dry q h

prune_containerd-dry : (conn : Conn) → (prune_containerd conn true).1 ≡ []
unfolding prune_containerd
prune_containerd-dry conn =
    asked_of-dry (containerd_prune conn.daemons true) (containerd_prune-dry conn.daemons)

-- Data directories, system prunes, images, overlay entries and volumes: none was asked for.
abbrev pub IsIdle : Asked → Type 0
IsIdle a =
    (a.dirs ≡ []) × (a.system_prunes ≡ 0) × (a.images ≡ []) × (a.rootfs ≡ []) × (a.volumes ≡ [])

docker-IsIdle :
    (conn : Conn) (s : State) → IsIdle s.1 → IsIdle (docker_ran (docker_prune conn true) s).1
unfolding docker_ran docker_prune
docker-IsIdle conn s h = ground (arith, h)

containerd-IsIdle :
    (conn : Conn) (s : State)
    → IsIdle s.1
    → IsIdle (containerd_ran (prune_containerd conn true) s).1
unfolding containerd_ran
containerd-IsIdle conn s h = ground (arith, h, prune_containerd-dry conn)

rootfs-IsIdle :
    (conn : Conn) (s : State)
    → IsIdle s.1
    → IsIdle (rootfs_ran (reclaim_step conn.cancels.rootfs true (rootfs_prune conn.host true)) s).1
unfolding rootfs_ran
rootfs-IsIdle conn s h = ground (
  arith,
  h,
  reclaim_step-dry conn.cancels.rootfs (rootfs_prune conn.host true) (rootfs_prune-dry conn.host),
)

buildx-IsIdle :
    (conn : Conn) (s : State)
    → IsIdle s.1
    → IsIdle
        (buildx_ran
          (reclaim_step conn.cancels.buildx true (buildx_volume_prune conn.host true))
          s).1
unfolding buildx_ran
buildx-IsIdle conn s h = ground (
  arith,
  h,
  reclaim_step-dry conn.cancels.buildx (buildx_volume_prune conn.host true)
      (buildx_volume_prune-dry conn.host),
)

optional_steps-IsIdle :
    (conn : Conn) (cfg : CleanupConfig) (s : State)
    → cfg.dry_run ≡ true
    → IsIdle s.1
    → IsIdle (optional_steps conn cfg s).1
unfolding optional_steps
optional_steps-IsIdle conn cfg s dry h =
    let on = λ (P : Bool → Type 0) (p : P true). subst P (sym dry) p in
    let P = λ (t : State). IsIdle t.1 in
    let s1 = if cfg.docker_prune then docker_ran (docker_prune conn cfg.dry_run) s else s in
    let s2 =
      if cfg.containerd_prune then containerd_ran (prune_containerd conn cfg.dry_run) s1 else s1 in
    let s3 =
      if cfg.rootfs_prune
      then rootfs_ran
          (reclaim_step conn.cancels.rootfs cfg.dry_run (rootfs_prune conn.host cfg.dry_run)) s2
      else s2 in
    let h1 : P s1 =
      if_both P cfg.docker_prune
        (on (λ b. P (docker_ran (docker_prune conn b) s)) (docker-IsIdle conn s h)) h in
    let h2 : P s2 =
      if_both P cfg.containerd_prune
        (on (λ b. P (containerd_ran (prune_containerd conn b) s1)) (containerd-IsIdle conn s1 h1))
        h1 in
    let h3 : P s3 =
      if_both P cfg.rootfs_prune
        (on (λ b. P (rootfs_ran (reclaim_step conn.cancels.rootfs b (rootfs_prune conn.host b)) s2))
          (rootfs-IsIdle conn s2 h2))
        h2 in
    if_both P cfg.buildx_volume_prune
      (on
        (λ b.
          P (buildx_ran (reclaim_step conn.cancels.buildx b (buildx_volume_prune conn.host b)) s3))
        (buildx-IsIdle conn s3 h3))
      h3

scan-IsIdle :
    (conn : Conn) (cfg : CleanupConfig) (name : Text) (running : List Text) (now : ℕ)
    (entries : List DirEntry)
    → cfg.dry_run ≡ true
    → IsIdle
        (scan_step
          (sweep_data_dirs conn.remove_all entries running cfg now first_sweep)
          (no_result name, nothing_asked)).1
unfolding scan_step
scan-IsIdle conn cfg name running now entries dry =
    ground (arith, dry, sweep_data_dirs_exact conn.remove_all running cfg now entries)

nothing-IsIdle : IsIdle nothing_asked
nothing-IsIdle = (refl, refl, refl, refl, refl)

dry_if_ok : (b : Bool) → (b || false) ≡ true → b ≡ true
dry_if_ok b h = ground (arith, h)

listed-IsIdle :
    (conn : Conn) (name : Text) (running : List Text) (cfg : CleanupConfig) (now : ℕ)
    (q : Result (List DirEntry))
    → (cfg.dry_run || not (is_ok ((listed conn name running cfg now q).0))) ≡ true
    → IsIdle (listed conn name running cfg now q).1.1
unfolding listed
listed-IsIdle conn name running cfg now (err e) h = nothing-IsIdle
listed-IsIdle conn name running cfg now (ok entries) h =
    let dry = dry_if_ok cfg.dry_run h in
    optional_steps-IsIdle conn cfg
      (scan_step (sweep_data_dirs conn.remove_all entries running cfg now first_sweep)
        (no_result name, nothing_asked))
      dry (scan-IsIdle conn cfg name running now entries dry)

-- A dry run asks a node for no removal at all, and neither does a run that ends with an error.
pub cleanup_node_via_ssh-IsIdle :
    (name : Text) (cfg : CleanupConfig) (now : ℕ) (running : Result (List Text))
    (conn : Result Conn)
    → (cfg.dry_run || not (is_ok ((cleanup_node_via_ssh name cfg now running conn).0))) ≡ true
    → IsIdle (cleanup_node_via_ssh name cfg now running conn).1.1
unfolding cleanup_node_via_ssh after_running connected
cleanup_node_via_ssh-IsIdle name cfg now (err e) conn h = nothing-IsIdle
cleanup_node_via_ssh-IsIdle name cfg now (ok running) (err e) h = nothing-IsIdle
cleanup_node_via_ssh-IsIdle name cfg now (ok running) (ok conn) h =
    listed-IsIdle conn name running cfg now (list_data_dirs conn cfg.data_dir) h
