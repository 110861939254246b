-- ===== src/Nomad/Nodes/Address.antt =====
-- Which nodes are found, and under which address.
use nomad_temporal_jobs.Prelude.{
  ℕ, ◌≡◌, refl, Bool, false, ◌&&◌, none, some, List, [], ◌∷◌, ◌++◌, keep, map, arith, if◌then◌else◌,
}
use nomad_temporal_jobs.Prelude.Result.{Result, ok, is_ok, Result-cases}
use nomad_temporal_jobs.Prelude.Text.{Text, Lacks, is_empty}
use nomad_temporal_jobs.Nomad.Alloc.{AllocStub, running_alloc_stubs}
use nomad_temporal_jobs.Nomad.Nodes.{
  Node, NodeStub, NodeInfo, before_last, node_ssh_address, node_info, ready_nodes,
  get_all_nomad_client_nodes, find_job_node, node_of_first,
}

before_last-none : (c : ℕ) (s : Text) → Lacks c s → before_last c s ≡ none
unfolding before_last
before_last-none c [] h = refl
before_last-none c (x ∷ s) h = ground (arith, h.0, before_last-none c s h.1)

before_last-append : (c : ℕ) (s t : Text) → Lacks c t → before_last c (s ++ (c ∷ t)) ≡ some s
unfolding before_last
before_last-append c [] t h = ground (arith, before_last-none c t h)
before_last-append c (x ∷ s) t h = ground (arith, before_last-append c s t h)

-- The address of a node is its network attribute; without one it is the host of its HTTP address,
-- whatever the host holds, or the whole of it if that has no port.
pub node_ssh_address_lem :
    (name ip host port : Text)
    → Lacks b':' port
    → (node_ssh_address
          (record { name = name; ip_attribute = ip; http_addr = host ++ (b':' ∷ port) })
        ≡ (if is_empty ip then host else ip))
      × (node_ssh_address (record { name = name; ip_attribute = ip; http_addr = port })
          ≡ (if is_empty ip then port else ip))
unfolding node_ssh_address
node_ssh_address_lem name ip host port h =
    ground (arith, before_last-append b':' host port h, before_last-none b':' port h)

-- the stub is of a ready node that can be read
module _ (info : Text → Result Node) where
  abbrev pub is_found : NodeStub → Bool
  is_found s = s.is_ready && is_ok (info s.id)

  ids-ready_nodes :
      (stubs : List NodeStub)
      → map (λ (n : NodeInfo). n.id) (map node_info (ready_nodes info stubs))
        ≡ map (λ (s : NodeStub). s.id) (keep is_found stubs)
  unfolding ready_nodes node_info
  ids-ready_nodes [] = refl
  ids-ready_nodes (s ∷ stubs) = ground (arith, ids-ready_nodes stubs, Result-cases (info s.id))

  -- The nodes found are exactly those that are ready and can be read, in the order of the listing.
  pub get_all_nomad_client_nodes-ids :
      (stubs : List NodeStub)
      → (found : List NodeInfo) × (get_all_nomad_client_nodes info (ok stubs) ≡ ok found)
        × (map (λ (n : NodeInfo). n.id) found ≡ map (λ (s : NodeStub). s.id) (keep is_found stubs))
  unfolding get_all_nomad_client_nodes
  get_all_nomad_client_nodes-ids stubs =
      (map node_info (ready_nodes info stubs), refl, ids-ready_nodes stubs)

  -- A job's node is found exactly if an allocation of it runs and the node of the first one that
  -- does can be read.
  pub find_job_node_ok :
      (allocs : List AllocStub)
      → is_ok (find_job_node info (ok allocs)) ≡ (elim (running_alloc_stubs allocs) as (λ l. Bool) [
        | [] ↦ false
        | al ∷ rest ↦ is_ok (info al.node_id)
      ])
  unfolding find_job_node
  find_job_node_ok allocs = first (running_alloc_stubs allocs)
    where
      first :
          (l : List AllocStub)
          → is_ok (node_of_first info l)
            ≡ (elim l as (λ l. Bool) [ [] ↦ false | al ∷ rest ↦ is_ok (info al.node_id) ])
      first [] = refl
      first (al ∷ rest) = ground (arith, Result-cases (info al.node_id))
