-- ===== src/Tests/Linking.antt =====
-- Two lists and two roots of listnode.h.
use high_perf_server.Base.{◌≡◌, refl, [], ◌∷◌, ◌==◌, arith}
use high_perf_server.Links.{
  Memory, store, list_add_back, list_del, list_splice_back, list_for_each, list_for_each_prev,
}
use high_perf_server.Links.Chain.{IsList, Distinct}
use high_perf_server.Links.Insert.{list_add_back-IsList}
use high_perf_server.Links.Remove.{list_del-IsList}
use high_perf_server.Links.Join.{list_splice_back-IsList}
use high_perf_server.Links.Walk.{list_walks}
use high_perf_server.Links.Root.{
  Nodes, splice_root, consume_queue, push_node, replace_root, init_root, init_root_node, set_link,
  set_tail, set_count,
}
use high_perf_server.Links.Root.Queue.{IsQueue}
use high_perf_server.Links.Root.Fifo.{splice_root-IsQueue}
use high_perf_server.Links.Root.Consume.{consume_queue-IsQueue}

-- The list 1 holds 2 and 3, the list 5 holds 6.
abbrev two_lists : Memory
two_lists = record {
  next = store (store (store (store (store (λ x. x) 1 2) 2 3) 3 1) 5 6) 6 5;
  prev = store (store (store (store (store (λ x. x) 1 3) 2 1) 3 2) 5 6) 6 5;
  size = store (store (λ x. 0) 1 2) 5 1;
}

list_1 : IsList two_lists 1 (2 ∷ 3 ∷ [])
unfolding store
list_1 = (
  (
    ((refl, refl), ((refl, refl), ((refl, refl), tt))),
    ((omega arith, (omega arith, tt)), ((omega arith, tt), (tt, tt))),
  ),
  refl,
)

list_5 : IsList two_lists 5 (6 ∷ [])
unfolding store
list_5 = ((((refl, refl), ((refl, refl), tt)), ((omega arith, tt), (tt, tt))), refl)

list_add_back-IsList_example : IsList (list_add_back 4 1 two_lists) 1 (2 ∷ 3 ∷ 4 ∷ [])
list_add_back-IsList_example =
    list_add_back-IsList 4 1 (2 ∷ 3 ∷ []) two_lists list_1
      (omega arith, (omega arith, (omega arith, tt)))

list_del-IsList_example :
    IsList (list_del 2 1 two_lists) 1 (3 ∷ [])
    × (list_del 2 1 (list_del 2 1 two_lists) ≡ list_del 2 1 two_lists)
list_del-IsList_example = list_del-IsList 2 1 [] (3 ∷ []) two_lists list_1

apart : Distinct (1 ∷ 2 ∷ 3 ∷ 5 ∷ 6 ∷ [])
apart = (
  (omega arith, (omega arith, (omega arith, (omega arith, tt)))),
  (
    (omega arith, (omega arith, (omega arith, tt))),
    ((omega arith, (omega arith, tt)), ((omega arith, tt), (tt, tt))),
  ),
)

list_splice_back-IsList_example :
    IsList (list_splice_back 1 5 two_lists) 1 []
    × IsList (list_splice_back 1 5 two_lists) 5 (6 ∷ 2 ∷ 3 ∷ [])
list_splice_back-IsList_example =
    list_splice_back-IsList 1 (2 ∷ 3 ∷ []) 5 (6 ∷ []) two_lists list_1 list_5 apart

list_walks_example :
    (list_for_each 3 2 1 two_lists ≡ 2 ∷ 3 ∷ []) × (list_for_each_prev 3 3 1 two_lists ≡ 3 ∷ 2 ∷ [])
unfolding store
list_walks_example = list_walks 1 (2 ∷ 3 ∷ []) two_lists list_1

-- The root 1 holds 2 and 3, the root 5 holds 6.
abbrev two_roots : Nodes
two_roots = record {
  next = store (store (store (λ x. 0) 1 2) 2 3) 5 6;
  tail = store (store (λ x. x) 1 3) 5 6;
  count = store (store (λ x. 0) 1 2) 5 1;
}

root_1 : IsQueue two_roots 1 (2 ∷ 3 ∷ [])
unfolding store
root_1 = (
  (refl, (refl, refl)),
  refl,
  refl,
  ((omega arith, (omega arith, tt)), ((omega arith, tt), (tt, tt))),
  (omega arith, (omega arith, tt)),
)

root_5 : IsQueue two_roots 5 (6 ∷ [])
unfolding store
root_5 = ((refl, refl), refl, refl, ((omega arith, tt), (tt, tt)), (omega arith, tt))

splice_root-IsQueue_example :
    IsQueue (splice_root 1 5 two_roots) 1 []
    × IsQueue (splice_root 1 5 two_roots) 5 (6 ∷ 2 ∷ 3 ∷ [])
splice_root-IsQueue_example =
    splice_root-IsQueue 1 (2 ∷ 3 ∷ []) 5 (6 ∷ []) two_roots root_1 root_5 apart

-- The task 2 leaves the queue.
consume_queue-IsQueue_example : IsQueue (consume_queue 3 (λ x. x == 2) 1 two_roots) 1 (3 ∷ [])
unfolding store
consume_queue-IsQueue_example = consume_queue-IsQueue (λ x. x == 2) 1 (2 ∷ 3 ∷ []) two_roots root_1

-- After replaceRoot of an empty root 5, the root 1 has the head of 5 as its tail, and the next node that
-- is pushed to 1 lands in 5.
replaced_empty :
    let m = push_node 1 7 (replace_root 5 1 (init_root 5 (init_root 1 two_roots))) in
    (m.next 1 ≡ 0) × (m.next 5 ≡ 7)
unfolding push_node init_root_node replace_root init_root set_link set_tail set_count store
replaced_empty = (refl, refl)
