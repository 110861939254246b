-- ===== src/Nomad/Nodes.antt =====
-- The client nodes: `NodeSSHAddress`, `ClientNodes` and `FindJobNode` of
-- shared/client/nomad/nomad.go, with `GetAllNomadClientNodes` of
-- maintenance/nodecleanup/activities.go.
pub mod Address
use nomad_temporal_jobs.Prelude.{
  ℕ, ◌==◌, Bool, true, false, ◌&&◌, Option, none, some, List, [], ◌∷◌, map, if◌then◌else◌,
}
use nomad_temporal_jobs.Prelude.Result.{Result, external, ok, err, context, ◌>>=◌}
use nomad_temporal_jobs.Prelude.Text.{Text, codes, is_empty, has_prefix}
use nomad_temporal_jobs.Nomad.Alloc.{AllocStub, running_alloc_stubs}

-- A node of the API: `ip_attribute` is its attribute unique.network.ip-address, empty without one.
pub record Node : Type 0 where
  pub name : Text
  pub ip_attribute : Text
  pub http_addr : Text

-- what stands before the last separator, if there is one
unfoldable pub before_last : ℕ → Text → Option Text
before_last c [] = none
before_last c (x ∷ s) =
    let rest = before_last c s in
    elim rest [ some t ↦ some (x ∷ t) | none ↦ if x == c then some [] else none ]

abbrev or_text : Option Text → Text → Text
or_text none d = d
or_text (some s) d = s

unfoldable pub node_ssh_address : Node → Text
unfolding before_last
node_ssh_address node =
    if is_empty node.ip_attribute
    then or_text (before_last b':' node.http_addr) node.http_addr
    else node.ip_attribute

pub record NomadNode : Type 0 where
  pub id : Text
  pub name : Text
  pub address : Text
  pub http_addr : Text

pub record NodeStub : Type 0 where
  pub id : Text
  pub name : Text
  pub is_ready : Bool

-- `NodeInfo` of maintenance/internal/nodes/nodes.go
pub record NodeInfo : Type 0 where
  pub id : Text
  pub name : Text
  pub address : Text
  pub http_addr : Text
  pub is_oracle : Bool

unfoldable pub node_info : NomadNode → NodeInfo
node_info n = record {
  id = n.id;
  name = n.name;
  address = n.address;
  http_addr = n.http_addr;
  is_oracle = has_prefix n.name (codes "oracle");
}

module _ (info : Text → Result Node) where
  add_node : NodeStub → Result Node → List NomadNode → List NomadNode
  unfolding node_ssh_address
  add_node s (err e) rest = rest
  add_node s (ok node) rest =
      record {
        id = s.id;
        name = s.name;
        address = node_ssh_address node;
        http_addr = node.http_addr;
      }
      ∷ rest

  unfoldable pub ready_nodes : List NodeStub → List NomadNode
  unfolding add_node
  ready_nodes [] = []
  ready_nodes (s ∷ stubs) =
      let rest = ready_nodes stubs in if s.is_ready then add_node s (info s.id) rest else rest

  unfoldable pub client_nodes : Result (List NodeStub) → Result (List NomadNode)
  unfolding ready_nodes
  client_nodes listed = context "list nodes" listed >>= λ stubs. ok (ready_nodes stubs)

  -- `GetAllNomadClientNodes`
  unfoldable pub get_all_nomad_client_nodes : Result (List NodeStub) → Result (List NodeInfo)
  unfolding client_nodes node_info
  get_all_nomad_client_nodes listed = client_nodes listed >>= λ found. ok (map node_info found)

  -- The node of the first running allocation.
  unfoldable pub node_of_first : List AllocStub → Result NomadNode
  unfolding node_ssh_address
  node_of_first [] = err (external "no running allocation for job")
  node_of_first (al ∷ allocs) = context "get node info" (info al.node_id) >>= λ node. ok (record {
    id = al.node_id;
    name = node.name;
    address = node_ssh_address node;
    http_addr = node.http_addr;
  })

  unfoldable pub find_job_node : Result (List AllocStub) → Result NomadNode
  unfolding node_of_first running_alloc_stubs
  find_job_node listed =
      context "list allocs" listed >>= λ allocs. node_of_first (running_alloc_stubs allocs)
