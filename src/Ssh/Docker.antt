-- ===== src/Ssh/Docker.antt =====
-- The Docker daemon of a node, reached over SSH: `DockerSystemPrune` of shared/client/ssh/docker.go.
-- What the daemon answers to the four prunes is a parameter.
use nomad_temporal_jobs.Prelude.{ℕ, ◌+◌, ◌%◌, ◌^◌, List, [], ◌∷◌, ◌++◌}
use nomad_temporal_jobs.Prelude.Result.{Result, ok, err, context, ◌>>=◌}

pub data PruneStep : Type 0 where
  container_prune image_prune network_prune build_cache_prune : PruneStep

-- The warnings name the step that failed.
pub record SystemPrune : Type 0 where
  pub reclaimed : ℕ
  pub warnings : List PruneStep

-- The bytes that a prune reclaims; those of networks are not reported.
pub record Docker : Type 0 where
  pub new_client : Result (Unit {0})
  pub prune : PruneStep → Result ℕ
  pub prune_networks : Result (Unit {0})

unfoldable pub pruned : PruneStep → Result ℕ → SystemPrune → SystemPrune
pruned step (err e) r = record r { warnings = r.warnings ++ (step ∷ []) }
pruned step (ok n) r = record r { reclaimed = (r.reclaimed + n) % 2 ^ 64 }

networks_pruned : Result (Unit {0}) → SystemPrune → SystemPrune
networks_pruned (err e) r = record r { warnings = r.warnings ++ (network_prune ∷ []) }
networks_pruned (ok u) r = r

module _ (d : Docker) where
  unfoldable pub system_prune_all : SystemPrune
  unfolding pruned networks_pruned
  system_prune_all = pruned build_cache_prune (d.prune build_cache_prune) (
      networks_pruned d.prune_networks (
        pruned image_prune (d.prune image_prune) (
          pruned container_prune (d.prune container_prune)
            (record { reclaimed = 0; warnings = [] }))))

  unfoldable pub docker_system_prune : Result SystemPrune
  unfolding system_prune_all
  docker_system_prune = context "create docker client" d.new_client >>= λ u. ok system_prune_all
