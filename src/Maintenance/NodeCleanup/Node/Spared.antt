-- ===== src/Maintenance/NodeCleanup/Node/Spared.antt =====
-- A run over a node leaves the data of its running jobs alone.
use nomad_temporal_jobs.Prelude.{
  ℕ, ◌≡◌, refl, sym, ap, ◌∙◌, Bool, true, false, ◌||◌, List, [], ◌∷◌, ◌++◌, any, arith,
}
use nomad_temporal_jobs.Prelude.Result.{Result, ok, err}
use nomad_temporal_jobs.Prelude.Text.{Text, text_eq, text_eq_iff, contains, trim_right}
use nomad_temporal_jobs.Nomad.Alloc.{AllocStub, running_job_ids}
use nomad_temporal_jobs.Nomad.Alloc.Running.{runs_job, running_job_ids_lem}
use nomad_temporal_jobs.Maintenance.NodeCleanup.{
  CleanupConfig, DirEntry, dir_path, strip_index, classify_entry, sweep_data_dirs, first_sweep,
}
use nomad_temporal_jobs.Maintenance.NodeCleanup.Exact.{
  orphan_paths, is_orphan_action, sweep_data_dirs_exact,
}
use nomad_temporal_jobs.Maintenance.NodeCleanup.Node.{Conn, list_data_dirs}
use nomad_temporal_jobs.Maintenance.NodeCleanup.Node.Run.{
  State, nothing_asked, no_result, scan_step, docker_ran, containerd_ran, rootfs_ran, buildx_ran,
  optional_steps, listed, connected, after_running, cleanup_node_via_ssh,
}

abbrev or_listed : List Text → Result (List Text) → List Text
or_listed d (ok a) = a
or_listed d (err e) = d

text_eq-append : (p s t : Text) → text_eq (p ++ s) (p ++ t) ≡ text_eq s t
unfolding text_eq
text_eq-append [] s t = refl
text_eq-append (x ∷ p) s t = ground (arith, text_eq-append p s t)

text_eq-dir_path :
    (cfg : CleanupConfig) (s t : Text) → text_eq (dir_path cfg s) (dir_path cfg t) ≡ text_eq s t
unfolding dir_path text_eq
text_eq-dir_path cfg s t = text_eq-append (trim_right b'/' cfg.data_dir) (b'/' ∷ s) (b'/' ∷ t)

-- A job of that name runs, or one of the name without the index.
abbrev pub is_in_use : List Text → Text → Bool
is_in_use running d = contains running d || contains running (strip_index d)

in_use-not_orphan :
    (running : List Text) (cfg : CleanupConfig) (now : ℕ) (e : DirEntry)
    → is_in_use running e.name ≡ true
    → is_orphan_action (classify_entry e running cfg now).0 ≡ false
unfolding classify_entry
in_use-not_orphan running cfg now e h = ground (arith, h)

orphan_paths-spare :
    (remove_all : Text → Result (Unit {0})) (running : List Text) (cfg : CleanupConfig) (now : ℕ)
    (d : Text)
    → is_in_use running d ≡ true
    → (es : List DirEntry)
    → contains (orphan_paths remove_all running cfg now es) (dir_path cfg d) ≡ false
unfolding contains
orphan_paths-spare remove_all running cfg now d h [] = refl
orphan_paths-spare remove_all running cfg now d h (e ∷ es) = ground (
  arith,
  orphan_paths-spare remove_all running cfg now d h es,
  h,
  in_use-not_orphan running cfg now e,
  text_eq-dir_path cfg e.name d,
  text_eq_iff e.name d,
)

optional_steps-dirs :
    (conn : Conn) (cfg : CleanupConfig) (s : State) → (optional_steps conn cfg s).1.dirs ≡ s.1.dirs
unfolding optional_steps docker_ran containerd_ran rootfs_ran buildx_ran
optional_steps-dirs conn cfg s = ground arith

listed-spare :
    (conn : Conn) (name : Text) (running : List Text) (cfg : CleanupConfig) (now : ℕ) (d : Text)
    (q : Result (List DirEntry))
    → is_in_use running d ≡ true
    → contains (listed conn name running cfg now q).1.1.dirs (dir_path cfg d) ≡ false
unfolding listed scan_step contains
listed-spare conn name running cfg now d (err e) h = refl
listed-spare conn name running cfg now d (ok es) h = ground (
  arith,
  optional_steps-dirs conn cfg (
      scan_step (sweep_data_dirs conn.remove_all es running cfg now first_sweep)
        (no_result name, nothing_asked)),
  sweep_data_dirs_exact conn.remove_all running cfg now es,
  orphan_paths-spare conn.remove_all running cfg now d h es,
)

spared :
    (name : Text) (cfg : CleanupConfig) (now : ℕ) (running : List Text) (conn : Result Conn)
    (d : Text)
    → is_in_use running d ≡ true
    → contains (cleanup_node_via_ssh name cfg now (ok running) conn).1.1.dirs (dir_path cfg d)
      ≡ false
unfolding cleanup_node_via_ssh after_running connected contains
spared name cfg now running (err e) d h = refl
spared name cfg now running (ok conn) d h =
    listed-spare conn name running cfg now d (list_data_dirs conn cfg.data_dir) h

ok_inj : {a b : List Text} → ok a ≡ ok b → a ≡ b
ok_inj {a = a} e = ap (or_listed a) e

-- Whatever the node answers, a run over it never asks to remove the data directory of a job of which
-- Nomad lists a running allocation there, nor that of the job's name with an index behind it.
pub cleanup_node_via_ssh_spares :
    (name : Text) (cfg : CleanupConfig) (now : ℕ) (allocs : List AllocStub) (conn : Result Conn)
    (d : Text)
    → (any (runs_job d) allocs || any (runs_job (strip_index d)) allocs) ≡ true
    → contains
        (cleanup_node_via_ssh name cfg now (running_job_ids (ok allocs)) conn).1.1.dirs
        (dir_path cfg d)
      ≡ false
cleanup_node_via_ssh_spares name cfg now allocs conn d h =
    let (running, e, here) = running_job_ids_lem allocs d in
    let (running', e', stripped) = running_job_ids_lem allocs (strip_index d) in
    let same : running' ≡ running = ok_inj (sym e' ∙ e) in
    ap (λ r. contains (cleanup_node_via_ssh name cfg now r conn).1.1.dirs (dir_path cfg d)) e
    ∙ spared name cfg now running conn d (ground (arith, h, here, stripped, same))
