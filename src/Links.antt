-- ===== src/Links.antt =====
-- The intrusive lists of listnode.h: the circular lists of list_head, and the queues of root.
-- Memory is a function of the addresses. A list_head has the address of its root node, a root has
-- that of its head node, and 0 is NULL.
pub mod Cells
pub mod Chain
mod Places
pub mod Insert
pub mod Remove
pub mod Splice
pub mod Walk
pub mod Root
pub mod Join
pub mod Replace
use high_perf_server.Base.{
  ℕ, zero, suc, ◌+◌, ◌-◌, Bool, true, false, not, List, [], ◌∷◌, ◌==◌, if◌then◌else◌,
}

-- list_node, and the m_size of list_head.
pub record Memory : Type 0 where
  pub prev : ℕ → ℕ
  pub next : ℕ → ℕ
  pub size : ℕ → ℕ

-- The function f with the value v at a.
unfoldable pub store : (ℕ → ℕ) → ℕ → ℕ → ℕ → ℕ
store f a v x = if x == a then v else f x

unfoldable pub set_prev : ℕ → ℕ → Memory → Memory
set_prev a v m = record m { prev = store m.prev a v }

unfoldable pub set_next : ℕ → ℕ → Memory → Memory
set_next a v m = record m { next = store m.next a v }

unfoldable pub set_size : ℕ → ℕ → Memory → Memory
set_size a v m = record m { size = store m.size a v }

unfoldable pub init_list_head : ℕ → Memory → Memory
init_list_head head m = set_size head 0 (set_next head head (set_prev head head m))

unfoldable pub init_list_node : ℕ → Memory → Memory
init_list_node h m = set_prev h h (set_next h h m)

unfoldable pub list_empty : ℕ → Memory → Bool
list_empty head m = m.next head == head

-- __list_add.
unfoldable pub list_add : ℕ → ℕ → ℕ → Memory → Memory
list_add added prev next m =
    set_prev next added (set_next prev added (set_next added next (set_prev added prev m)))

unfoldable pub list_add_front : ℕ → ℕ → Memory → Memory
list_add_front added head m =
    let m1 = list_add added head (m.next head) m in set_size head (suc (m1.size head)) m1

unfoldable pub list_add_back : ℕ → ℕ → Memory → Memory
list_add_back added head m =
    let m1 = list_add added (m.prev head) head m in set_size head (suc (m1.size head)) m1

-- __list_del.
unfoldable pub list_unlink : ℕ → Memory → Memory
list_unlink node m =
    let m1 = set_next (m.prev node) (m.next node) m in
    init_list_node node (set_prev (m1.next node) (m1.prev node) m1)

unfoldable pub list_del : ℕ → ℕ → Memory → Memory
list_del node head m =
    if m.next node == node
    then m
    else (let m1 = list_unlink node m in set_size head (m1.size head - 1) m1)

-- __list_splice.
unfoldable pub list_splice : ℕ → ℕ → ℕ → Memory → Memory
list_splice h prev next m =
    let m1 = set_next prev (m.next h) m in
    let m2 = set_prev (m1.next h) prev m1 in
    let m3 = set_prev next (m2.prev h) m2 in set_next (m3.prev h) next m3

-- The sizes of two lists after the splice, and the first of them empty.
unfoldable pub move_size : ℕ → ℕ → Memory → Memory
move_size from to m = init_list_head from (set_size to (m.size to + m.size from) m)

unfoldable pub list_splice_front : ℕ → ℕ → Memory → Memory
list_splice_front from to m =
    if list_empty from m then m else move_size from to (list_splice from to (m.next to) m)

unfoldable pub list_splice_back : ℕ → ℕ → Memory → Memory
list_splice_back from to m =
    if list_empty from m then m else move_size from to (list_splice from (m.prev to) to m)

-- The list `to` has to be empty.
unfoldable pub list_replace : ℕ → ℕ → Memory → Memory
list_replace from to m =
    if list_empty from m
    then m
    else (let m1 = set_next to (m.next from) m in
        let m2 = set_prev (m1.next to) to m1 in
        let m3 = set_prev to (m2.prev from) m2 in
        let m4 = set_next (m3.prev to) to m3 in init_list_head from (set_size to (m4.size from) m4))

-- list_for_each, on fuel: the nodes that the loop visits from `pos` on.
abbrev pub list_for_each : ℕ → ℕ → ℕ → Memory → List ℕ
list_for_each zero pos head m = []
list_for_each (suc fuel) pos head m =
    let rest = list_for_each fuel (m.next pos) head m in if pos == head then [] else pos ∷ rest

-- list_for_each_prev, on fuel.
abbrev pub list_for_each_prev : ℕ → ℕ → ℕ → Memory → List ℕ
list_for_each_prev zero pos head m = []
list_for_each_prev (suc fuel) pos head m =
    let rest = list_for_each_prev fuel (m.prev pos) head m in if pos == head then [] else pos ∷ rest
