-- ===== src/Legacy/Connections.antt =====
-- The list of connections of the older server (network/tcp/tcp.c): a linked list through the
-- blocks. A walk takes the number of steps that it may make, and is a fault where they run out.
use lazy_tcp.Prelude.{ℕ, zero, suc, ◌+◌, Bool, false, true, Option, none, some, ◌==◌}
use lazy_tcp.Prelude.{if◌then◌else◌, Run, ok, fault, ◌>>=◌}
use lazy_tcp.Word.{u32, sub32}
use lazy_tcp.Legacy.Block.{
  Address, Nodes, TcbNode, TcpConnectionId, put_node, load_node, deref_node, free_node,
  tcp_compare_id,
}
pub mod Chain
pub mod Walks
pub mod Insert
pub mod Remove

pub record TcpServerInstance : Type 0 where
  pub nodes : Nodes
  pub head : Option Address
  pub size : ℕ

-- the two fields are set, the blocks are as they were
unfoldable pub tcp_init_server_instance : TcpServerInstance → TcpServerInstance
tcp_init_server_instance s = record s { size = 0; head = none }

-- The first loop of `tcp_insert_tcb`: whether the identity of `tcb` is in the list, and the block
-- before the one at which the loop ends.
unfoldable pub insert_walk :
    (steps : ℕ) → Nodes → (tcb search tail : Option Address) → Run (Bool × Option Address)
insert_walk steps h tcb none tail = ok (false, tail)
insert_walk zero h tcb (some p) tail = fault
insert_walk (suc steps) h tcb (some p) tail = do
  node ← load_node h p
  (_, new) ← deref_node h tcb
  if tcp_compare_id node.id new.id
      then ok (true, tail)
      else insert_walk steps h tcb node.next (some p)

-- `tcb` at the end of the list: behind the tail, or as the head of an empty list
unfoldable pub link : (tcb tail : Option Address) → TcpServerInstance → Run TcpServerInstance
link tcb tail s = elim s.head [
  | none ↦ ok (record s { head = tcb; size = u32 (s.size + 1) })
  | some _ ↦ do
    (q, last) ← deref_node s.nodes tail
    ok (record s {
      nodes = put_node s.nodes q (some (record last { next = tcb }));
      size = u32 (s.size + 1);
    })
]

unfoldable pub tcp_insert_tcb :
    (steps : ℕ) → (tcb : Option Address) → TcpServerInstance → Run TcpServerInstance
tcp_insert_tcb steps tcb s = do
  (found, tail) ← insert_walk steps s.nodes tcb s.head none
  if found then ok s else link tcb tail s

-- the loop of `tcp_get_state`
unfoldable pub search_walk :
    (steps : ℕ) → TcpConnectionId → Nodes → (search : Option Address) → Run (Option Address)
search_walk steps id h none = ok none
search_walk zero id h (some p) = fault
search_walk (suc steps) id h (some p) = do
  node ← load_node h p
  if tcp_compare_id node.id id then ok (some p) else search_walk steps id h node.next

unfoldable pub tcp_get_state :
    (steps : ℕ) → TcpConnectionId → TcpServerInstance → Run (Option Address)
tcp_get_state steps id s = search_walk steps id s.nodes s.head

abbrev pub points_to : Option Address → Address → Bool
points_to none p = false
points_to (some q) p = q == p

-- the loop of `tcp_remove_connection`: the block before `tcb`
unfoldable pub prev_walk :
    (steps : ℕ) → (tcb : Address) → Nodes → (prev : Option Address) → Run (Option Address)
prev_walk steps tcb h none = ok none
prev_walk zero tcb h (some p) = fault
prev_walk (suc steps) tcb h (some p) = do
  node ← load_node h p
  if points_to node.next tcb then ok (some p) else prev_walk steps tcb h node.next

-- `prev->next = tcb->next`, unless `prev` is NULL
unfoldable pub unlink : (tcb : Address) → (prev : Option Address) → Nodes → Run Nodes
unlink tcb none h = ok h
unlink tcb (some p) h = do
  node ← load_node h tcb
  before ← load_node h p
  ok (put_node h p (some (record before { next = node.next })))

unfoldable pub tcp_remove_connection :
    (steps : ℕ) → TcpServerInstance → (tcb : Address) → Run TcpServerInstance
tcp_remove_connection steps s tcb = do
  (head, unlinked) ← elim (points_to s.head tcb) [
    | true ↦ (do node ← load_node s.nodes tcb; ok (node.next, s.nodes))
    | false ↦ (do
      prev ← prev_walk steps tcb s.nodes s.head
      h ← unlink tcb prev s.nodes
      ok (s.head, h))
  ]
  freed ← free_node unlinked tcb
  ok (record s { nodes = freed; head = head; size = sub32 s.size 1 })
