-- ===== src/Maintenance/NodeCleanup/Node/Fleet.antt =====
-- The workflow `Cleanup` of maintenance/nodecleanup/workflow.go over all nodes. The fan-out leaves
-- each node's answer at its own index (see FanOut), so the results are a map over the nodes.
use nomad_temporal_jobs.Prelude.{
  ℕ, ◌+◌, ◌≡◌, ◌↔◌, refl, sym, subst, Bool, true, false, not, List, [], ◌∷◌, ◌++◌, map, keep, arith,
  if◌then◌else◌, append_assoc, append-nil, All, length,
}
use nomad_temporal_jobs.Prelude.Result.{Result, external, wrap, ok, err, is_ok, Result-cases}
use nomad_temporal_jobs.Prelude.Text.{Text, codes}
use nomad_temporal_jobs.Maintenance.NodeCleanup.{CleanupConfig, fill_defaults}
use nomad_temporal_jobs.Maintenance.NodeCleanup.Node.{CleanupResult}
use nomad_temporal_jobs.Maintenance.NodeCleanup.Node.Run.{no_result}

-- The result that stands for an activity that failed.
unfoldable pub node_outcome : Text → Result CleanupResult → CleanupResult
node_outcome name (ok r) = r
node_outcome name (err e) = record (no_result name) { errors = codes "activity failed" ∷ [] }

abbrev not_empty : List Text → Bool
not_empty [] = false
not_empty (e ∷ es) = true

has_errors : CleanupResult → Bool
has_errors r = not_empty r.errors

pub record Summary : Type 0 where
  pub failed_nodes : List Text
  pub total_orphaned : ℕ
  pub total_deleted : ℕ

unfoldable pub summarize : List CleanupResult → Summary → Summary
unfolding has_errors
summarize [] s = s
summarize (r ∷ rs) s = summarize rs (record {
  failed_nodes = if has_errors r then s.failed_nodes ++ (r.node_name ∷ []) else s.failed_nodes;
  total_orphaned = s.total_orphaned + r.orphaned;
  total_deleted = s.total_deleted + r.deleted;
})

abbrev pub no_summary : Summary
no_summary = record { failed_nodes = []; total_orphaned = 0; total_deleted = 0 }

verdict : List Text → Result (Unit {0})
verdict [] = ok tt
verdict (n ∷ ns) = err (external "cleanup failed")

-- The results, also beside an error.
unfoldable pub cleanup :
    (CleanupConfig → Text → Result CleanupResult)
    → CleanupConfig
    → Result (List Text)
    → Result (Unit {0}) × List CleanupResult
unfolding summarize verdict node_outcome
cleanup clean config (err e) = (err (wrap "failed to get Nomad nodes" e), [])
cleanup clean config (ok nodes) =
    let results = map (λ name. node_outcome name (clean (fill_defaults config) name)) nodes in
    (verdict (summarize results no_summary).failed_nodes, results)

failed_nodes-summarize :
    (rs : List CleanupResult) (s : Summary)
    → (summarize rs s).failed_nodes
      ≡ s.failed_nodes ++ map (λ (r : CleanupResult). r.node_name) (keep has_errors rs)
unfolding summarize
failed_nodes-summarize [] s = sym (append-nil s.failed_nodes)
failed_nodes-summarize (r ∷ rs) s = ground (
  arith,
  failed_nodes-summarize rs (record {
    failed_nodes = if has_errors r then s.failed_nodes ++ (r.node_name ∷ []) else s.failed_nodes;
    total_orphaned = s.total_orphaned + r.orphaned;
    total_deleted = s.total_deleted + r.deleted;
  }),
  append_assoc s.failed_nodes (r.node_name ∷ [])
      (map (λ (q : CleanupResult). q.node_name) (keep has_errors rs)),
)

-- The node's activity answered, and with no error in its result.
abbrev pub is_clean : Result CleanupResult → Bool
is_clean (err e) = false
is_clean (ok r) = not (not_empty r.errors)

module _ (clean : CleanupConfig → Text → Result CleanupResult) (config : CleanupConfig) where
  abbrev outcomes : List Text → List CleanupResult
  outcomes nodes = map (λ name. node_outcome name (clean (fill_defaults config) name)) nodes

  verdict_iff :
      (nodes : List Text)
      → (is_ok
            (verdict (map (λ (r : CleanupResult). r.node_name) (keep has_errors (outcomes nodes))))
          ≡ true)
        ↔ All (λ name. is_clean (clean (fill_defaults config) name) ≡ true) nodes
  unfolding verdict node_outcome has_errors
  verdict_iff [] = ground arith
  verdict_iff (name ∷ nodes) =
      ground (arith, verdict_iff nodes, Result-cases (clean (fill_defaults config) name))

  length-outcomes : (nodes : List Text) → length (outcomes nodes) ≡ length nodes
  length-outcomes [] = refl
  length-outcomes (name ∷ nodes) = omega (arith, length-outcomes nodes)

  -- A run over the listed nodes returns a result for each node in order, and it succeeds exactly if
  -- every node's activity, under the configuration with its defaults, answered without errors.
  pub cleanup_ok_iff :
      (nodes : List Text)
      → ((is_ok ((cleanup clean config (ok nodes)).0) ≡ true)
          ↔ All (λ name. is_clean (clean (fill_defaults config) name) ≡ true) nodes)
        × (length (cleanup clean config (ok nodes)).1 ≡ length nodes)
  unfolding cleanup
  cleanup_ok_iff nodes = (
    subst
        (λ names.
          (is_ok (verdict names) ≡ true)
          ↔ All (λ name. is_clean (clean (fill_defaults config) name) ≡ true) nodes)
        (sym (failed_nodes-summarize (outcomes nodes) no_summary)) (verdict_iff nodes),
    length-outcomes nodes,
  )
