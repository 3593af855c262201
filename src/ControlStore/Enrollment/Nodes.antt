-- ===== src/ControlStore/Enrollment/Nodes.antt =====
-- enrollment.go: the nodes that the control tower enrolled
use jolt.Rbac.Evaluate.Order.{text_le}
use jolt.Prelude.{
  String, Bool, true, false, not, List, [], ◌∷◌, ◌++◌, ◌==◌, any, contains, if◌then◌else◌, Result,
  ok, err,
}
use jolt.ControlStore.Entities.{ManagedNode, Db}
use jolt.ControlStore.Sql.{DbError, database, update_where}

is_node : String → ManagedNode → Bool
is_node id n = n.node_id == id

-- the columns that `ON CONFLICT(node_id) DO UPDATE` sets: all but the time of the enrollment
renewed_node : ManagedNode → ManagedNode → ManagedNode
renewed_node node old = record node { node_id = old.node_id; enrolled_at = old.enrolled_at }

upsert_node : ManagedNode → List ManagedNode → List ManagedNode
unfolding is_node renewed_node
upsert_node node ns =
    if any (is_node node.node_id) ns
    then update_where (is_node node.node_id) (renewed_node node) ns
    else ns ++ (node ∷ [])

-- `SaveManagedNode`, whose row names a node by a foreign key
unfoldable pub save_managed_node : ManagedNode → Bool → Db → Result DbError (Unit {0}) × Db
unfolding upsert_node
save_managed_node node true d = (err database, d)
save_managed_node node false d =
    if not (contains node.node_id d.nodes)
    then (err database, d)
    else (ok tt, record d { managed_nodes = upsert_node node d.managed_nodes })

-- `ORDER BY node_id`
insert_by_node : ManagedNode → List ManagedNode → List ManagedNode
insert_by_node n [] = n ∷ []
insert_by_node n (m ∷ ms) =
    let rest = insert_by_node n ms in if text_le n.node_id m.node_id then n ∷ m ∷ ms else m ∷ rest

by_node : List ManagedNode → List ManagedNode
unfolding insert_by_node
by_node [] = []
by_node (n ∷ ns) = insert_by_node n (by_node ns)

-- `ListManagedNodes`
unfoldable pub list_managed_nodes : Bool → Db → Result DbError (List ManagedNode)
unfolding by_node
list_managed_nodes true d = err database
list_managed_nodes false d = ok (by_node d.managed_nodes)
