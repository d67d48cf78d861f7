-- ===== src/Links/Root.antt =====
-- The queues of struct root in listnode.h. The node of an address has one link, and NULL is 0; the
-- root has the address of its m_head.
pub mod Queue
pub mod Fifo
pub mod Consume
use high_perf_server.Base.{ℕ, zero, suc, ◌+◌, ◌-◌, Bool, true, false, not, ◌==◌, if◌then◌else◌}
use high_perf_server.Links.{store}

-- struct node and struct root.
pub record Nodes : Type 0 where
  pub next : ℕ → ℕ
  pub tail : ℕ → ℕ
  pub count : ℕ → ℕ  -- `m_size`

unfoldable pub set_link : ℕ → ℕ → Nodes → Nodes
set_link a v m = record m { next = store m.next a v }

unfoldable pub set_tail : ℕ → ℕ → Nodes → Nodes
set_tail r v m = record m { tail = store m.tail r v }

unfoldable pub set_count : ℕ → ℕ → Nodes → Nodes
set_count r v m = record m { count = store m.count r v }

-- INIT_ROOT_NODE.
unfoldable pub init_root_node : ℕ → Nodes → Nodes
init_root_node node m = set_link node 0 m

unfoldable pub init_root : ℕ → Nodes → Nodes
init_root root m = set_count root 0 (set_tail root root (set_link root 0 m))

-- isRootEmpty.
unfoldable pub is_root_empty : ℕ → Nodes → Bool
is_root_empty root m = m.next root == 0

unfoldable pub push_node : ℕ → ℕ → Nodes → Nodes
push_node root node m =
    let m1 = init_root_node node m in
    let m2 = set_tail root node (set_link (m1.tail root) node m1) in
    set_count root (suc (m2.count root)) m2

-- The nodes of the root after its first node is taken.
unfoldable pub unlink_first : ℕ → ℕ → Nodes → Nodes
unlink_first root node m =
    if m.next node == 0
    then set_tail root root (set_link root 0 m)
    else set_link root (m.next node) m

-- popNode: the node, or NULL, and memory.
unfoldable pub pop_node : ℕ → Nodes → ℕ × Nodes
pop_node root m =
    if is_root_empty root m
    then (0, m)
    else (let node = m.next root in
        let m1 = unlink_first root node m in
        (node, init_root_node node (set_count root (m1.count root - 1) m1)))

unfoldable pub splice_root : ℕ → ℕ → Nodes → Nodes
splice_root from to m =
    if is_root_empty from m
    then m
    else (let m1 = set_link (m.tail to) (m.next from) m in
        let m2 = set_tail to (m1.tail from) m1 in
        init_root from (set_count to (m2.count to + m2.count from) m2))

unfoldable pub replace_root : ℕ → ℕ → Nodes → Nodes
replace_root from to m =
    init_root from
      (set_count to (m.count from) (set_tail to (m.tail from) (set_link to (m.next from) m)))

-- The loop of Pooler::consume (tasker.cpp) over the queue, on fuel: `done` says of each task whether it
-- leaves the queue. The result is memory and the last `prev`.
unfoldable pub consume_loop : ℕ → (ℕ → Bool) → ℕ → ℕ → ℕ → Nodes → ℕ × Nodes
consume_loop zero done root prev curr m = (prev, m)
consume_loop (suc fuel) done root prev curr m =
    let erase = done curr in
    let next = m.next curr in
    let erased = set_count root (m.count root - 1) (set_link prev next m) in
    let rest =
      consume_loop fuel done root (if erase then prev else curr) next
        (if erase then erased else m) in
    if curr == 0 then (prev, m) else rest

unfoldable pub consume_queue : ℕ → (ℕ → Bool) → ℕ → Nodes → Nodes
consume_queue fuel done root m =
    let (prev, m1) = consume_loop fuel done root root (m.next root) m in set_tail root prev m1
