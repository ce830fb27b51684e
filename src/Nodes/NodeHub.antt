-- ===== src/Nodes/NodeHub.antt =====
-- nodes/nodehub.go: the map of the other nodes by address.
use cbsignal_redis.Base.{
  ℕ, ◌+◌, ◌≡◌, inl, inr, true, Option, none, some, List, [], ◌∷◌, arith, if◌then◌else◌, Bool-cases,
  Option-cases, Bytes, str_eq_refl, eq_iff,
}
use cbsignal_redis.Dict.{lookup, insert, erase, lookup-insert, lookup-erase}
use cbsignal_redis.Nodes.Node.{new_node, Node}

pub record NodeHub : Type 0 where
  pub nodes : List (Bytes × Node)
  pub self_addr : Bytes

unfoldable pub new_node_hub : Bytes → NodeHub
new_node_hub self_addr = record { nodes = []; self_addr = self_addr }

-- Delete; what its SafeStop does to the node's aggregator is in Nodes/Aggregator/Stop.
unfoldable pub delete : Node → NodeHub → NodeHub
delete node n = record n { nodes = erase node.addr n.nodes }

unfoldable pub add : Bytes → Node → NodeHub → NodeHub
add addr node n = record n { nodes = insert addr node n.nodes }

unfoldable pub get_all : NodeHub → List (Bytes × Node)
get_all n = n.nodes

-- Clear; the nodes live on.
unfoldable pub clear : NodeHub → NodeHub
clear n = record n { nodes = [] }

-- Get behind the lock, when the first look found nothing: another goroutine may have added the node
-- in between. A new node starts its heartbeat.
unfoldable pub get_locked : Bytes → NodeHub → Option Node × NodeHub
get_locked addr n = elim (lookup addr n.nodes) [
  | some node ↦ (some node, n)
  | none ↦ (some (new_node addr), add addr (new_node addr) n)
]

-- Get; `n'` is the hub when the lock is taken.
unfoldable pub get : Bytes → NodeHub → NodeHub → Option Node × NodeHub
get addr n n' = elim (lookup addr n.nodes) [
  | none ↦ get_locked addr n'
  | some node ↦ if node.is_dead then (none, delete node n) else (some node, n)
]

-- The loops of GetTotalNumClient and GetNumNode.
unfoldable pub total_num_client : List (Bytes × Node) → ℕ
total_num_client [] = 0
total_num_client ((addr, node) ∷ nodes) = node.num_client + total_num_client nodes

unfoldable pub num_node : List (Bytes × Node) → ℕ
num_node [] = 0
num_node ((addr, node) ∷ nodes) = (if node.is_alive then 1 else 0) + num_node nodes

-- A hub whose nodes stand under their own addresses.
pub record IsValid (n : NodeHub) : Type 0 where
  pub own_addr : (a : Bytes) (node : Node) → lookup a n.nodes ≡ some node → node.addr ≡ a

get_locked-IsValid : (addr : Bytes) (n : NodeHub) → IsValid n → IsValid (get_locked addr n).1
unfolding get_locked add new_node
get_locked-IsValid addr n v = record {
  own_addr = λ a node h.
      ground
        (arith, h, v.own_addr a node, lookup-insert addr a (new_node addr) n.nodes, eq_iff addr a);
}

delete-IsValid : (node : Node) (n : NodeHub) → IsValid n → IsValid (delete node n)
unfolding delete
delete-IsValid node n v = record {
  own_addr = λ a x h. ground (arith, h, v.own_addr a x, lookup-erase node.addr a n.nodes);
}

-- Get keeps every node under its own address, also when others change the hub while it waits.
get-IsValid : (addr : Bytes) (n n' : NodeHub) → IsValid n → IsValid n' → IsValid (get addr n n').1
unfolding get delete
get-IsValid addr n n' v v' = elim (Option-cases (lookup addr n.nodes)) [
  | inl missing ↦ rw (missing, get) (get_locked-IsValid addr n' v')
  | inr (node, here) ↦ elim (Bool-cases node.is_dead) [
    | inl dead ↦ rw (here, get) (simp dead (delete-IsValid node n v))
    | inr alive ↦ rw (here, get) (simp alive v)
  ]
]

-- Called with no one else at work on a hub whose nodes stand under their own addresses, Get on a dead
-- node removes it and gives none, and the next Get makes a new node.
get-dead :
    (addr : Bytes) (node : Node) (n : NodeHub)
    → IsValid n
    → lookup addr n.nodes ≡ some node
    → node.is_dead ≡ true
    → let (r, n') = get addr n n in
      (r ≡ none) × (lookup addr n'.nodes ≡ none) × ((get addr n' n').0 ≡ some (new_node addr))
unfolding get get_locked delete add
get-dead addr node n v here dead = ground (
  arith,
  here,
  dead,
  v.own_addr addr node here,
  lookup-erase node.addr addr n.nodes,
  str_eq_refl addr,
)
