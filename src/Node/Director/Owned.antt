-- ===== src/Node/Director/Owned.antt =====
-- The sockets of the director (director.cpp) and its nodes.
use high_perf_server.Base.{
  ℕ, ◌+◌, ◌-◌, ◌≡◌, sym, ap, ◌∙◌, Bool, true, false, Option, none, some, List, [], ◌∷◌, length, ltb,
  if◌then◌else◌, arith,
}
use high_perf_server.Base.Int.{ℤ, pos, negsuc}
use high_perf_server.Sock.Calls.{
  Answers, Fds, Result, close_fd, accept_cli, creat_tcp_srv, conn_fast, conn_slow,
}
use high_perf_server.Sock.Calls.Leaks.{Keeps, is_error, descriptors-Keeps}
use high_perf_server.Node.Objects.{NodeType, node_sock, node_connector, node_listener, fd_normal}
use high_perf_server.Node.Build.{build_node}
use high_perf_server.Node.Epoll.{Flags, Incoming, no_event, all_events}
use high_perf_server.Node.Director.{
  Entry, Director, Round, creat_node, add_last_event, rd_event, wr_event, listen_at, add_listener,
  connect_at, add_connector, start_client, pull, close_all, del_at, del_node, accept_at,
  accept_loop, fd_connecting,
}
use high_perf_server.Node.Director.Counts.{
  count, numbers, node_numbers, count_of, count-snoc, register_last-numbers, count-close_fd, Split,
  pull-Split, free_node_closes, count-close_all, one,
}

-- Each open socket belongs to one node, and each node's descriptor is open.
abbrev pub Owned : Director → Type 0
Owned d = (n : ℕ) → count n (numbers d.fds) ≡ count n (node_numbers d.nodes)

-- A node with the descriptor that has just been opened.
made :
    (fd : ℕ) (type : NodeType) (status : ℕ) (fds : Fds) (d : Director)
    → Keeps d.fds (pos fd, fds)
    → Owned d
    → Owned (creat_node (pos fd) type status (record d { fds = fds }))
unfolding creat_node build_node
made fd type status fds d (f, e, _, h) owned n =
    let entry : Entry = record {
      base = record (build_node (pos fd) type) { status = status };
      flags = no_event;
    } in
    ap (λ s. count n (numbers s)) h
    ∙ ap (λ m. count n (m ∷ numbers d.fds)) e
    ∙ count_of n (pos fd) (numbers d.fds)
    ∙ ap (λ c. count n (fd ∷ []) + c) (owned n)
    ∙ sym (count-snoc n d.nodes entry)

registered :
    (ev : Flags) (ok_rd ok_wr : Bool) (d : Director)
    → Owned d
    → Owned (add_last_event ev ok_rd ok_wr d)
unfolding add_last_event
registered ev ok_rd ok_wr d owned n =
    owned n ∙ sym (ap (count n) (register_last-numbers ev ok_rd ok_wr d.nodes d.size))

opened :
    (fd : ℕ) (type : NodeType) (status : ℕ) (ev : Flags) (ok_rd ok_wr : Bool) (fds : Fds)
    (d : Director)
    → Keeps d.fds (pos fd, fds)
    → Owned d
    → Owned
        (add_last_event ev ok_rd ok_wr (creat_node (pos fd) type status (record d { fds = fds })))
opened fd type status ev ok_rd ok_wr fds d h owned =
    registered ev ok_rd ok_wr _ (made fd type status fds d h owned)

failed : (fds : Fds) (d : Director) → fds ≡ d.fds → Owned d → Owned (record d { fds = fds })
failed fds d h owned n = ap (λ s. count n (numbers s)) h ∙ owned n

listen-Owned :
    (ok : Bool) (r : Result) (d : Director) → Keeps d.fds r → Owned d → Owned ((listen_at ok r d).1)
listen-Owned ok (pos fd, fds) d h owned =
    opened fd node_listener fd_normal rd_event ok ok fds d h owned
listen-Owned ok (negsuc n, fds) d h owned = failed fds d h owned

connect-Owned :
    (ok : Bool) (ret pfd : ℤ) (fds : Fds) (d : Director)
    → Keeps d.fds (pfd, fds)
    → is_error ret ≡ is_error pfd
    → Owned d
    → Owned ((connect_at ok ret (record { ret = ret; pfd = pfd; fds = fds }) d).1)
connect-Owned ok (pos n) (pos fd) fds d h e owned =
    opened fd node_connector fd_connecting wr_event ok ok fds d h owned
connect-Owned ok (pos n) (negsuc fd) fds d h e owned = cc
connect-Owned ok (negsuc n) (pos fd) fds d h e owned = cc
connect-Owned ok (negsuc n) (negsuc fd) fds d h e owned = failed fds d h owned

del_at-Owned :
    (o : Option (Entry × List Entry)) (d : Director)
    → ((n : ℕ) → Split n d.nodes o)
    → Owned d
    → Owned (del_at o d)
del_at-Owned none d h owned n = owned n
del_at-Owned (some (e, rest)) d h owned n =
    ap (λ ns. count n (numbers (close_all ns d.fds))) (free_node_closes e.base)
    ∙ count-close_all n e.base.fd d.fds
    ∙ omega (arith, owned n, h n)

deleted : (i : ℕ) (d : Director) → Owned d → Owned (del_node i d)
unfolding del_node
deleted i d owned = del_at-Owned (pull i d.nodes) d (λ n. pull-Split n i d.nodes) owned

-- A connection above the capacity is closed again.
closed_again :
    (fd : ℕ) (fds : Fds) (d : Director)
    → Keeps d.fds (pos fd, fds)
    → Owned d
    → Owned (record d { fds = close_fd fd fds })
closed_again fd fds d (f, e, _, h) owned n =
    count-close_fd n fd fds
    ∙ ap (λ s. count n (numbers s) - one n fd) h
    ∙ ap (λ m. count n (m ∷ numbers d.fds) - one n fd) e
    ∙ ground (arith, owned n)

either : (b : Bool) (d d' : Director) → Owned d → Owned d' → Owned (if b then d else d')
either true d d' h h' = h
either false d d' h h' = h'

abbrev round : Bool → Director → Director → Bool × Director
round b d d' = if b then (true, d) else (true, d')

round-Owned : (b : Bool) (d d' : Director) → Owned d → Owned d' → Owned ((round b d d').1)
round-Owned true d d' h h' = h
round-Owned false d d' h h' = h'

accepted :
    (capacity : ℕ) (c : Incoming) (r : Result) (d : Director)
    → Keeps d.fds r
    → Owned d
    → Owned ((accept_at capacity c r d).1)
accepted capacity c (pos fd, fds) d h owned =
    let new = creat_node (pos fd) node_sock fd_normal (record d { fds = fds }) in
    let owned' = made fd node_sock fd_normal fds d h owned in
    round-Owned (ltb d.size capacity) _ _
      (either c.welcome _ _ (registered all_events c.ok_rd c.ok_wr new owned')
        (deleted (length d.nodes) new owned'))
      (closed_again fd fds d h owned)
accepted capacity c (negsuc n, fds) d h owned = failed fds d h owned

loop-Owned :
    (capacity : ℕ) (k : Answers) (rs : List Round) (d : Director)
    → k.set_flags ≡ true
    → Owned d
    → Owned (accept_loop capacity k rs d)
unfolding accept_loop
loop-Owned capacity k [] d flags owned = owned
loop-Owned capacity k (r ∷ rs) d flags owned =
    let answers = record k { accept = r.accepted } in
    let result = accept_cli answers d.fds in
    let (_, _, _, _, keeps, _, _) = descriptors-Keeps answers d.fds true flags in
    let owned' = accepted capacity r.incoming result d keeps owned in
    either ((accept_at capacity r.incoming result d).0) _ _
      (loop-Owned capacity k rs ((accept_at capacity r.incoming result d).1) flags owned') owned'

-- The sockets that are open are those of the nodes of the list: each belongs to one node, as often as
-- it is open. This is kept by a new listener, a new connector, a new client, the whole loop of a
-- listener that accepts connections within or above the capacity, welcome or not, and by the deletion
-- of any node of the list, whichever system call fails on the way. fcntl has to succeed. The
-- descriptors of the epoll sets and of the event and timer nodes are not covered.
pub director-Owned :
    (k : Answers) (ok : Bool) (capacity : ℕ) (rounds : List Round) (i : ℕ) (d : Director)
    → k.set_flags ≡ true
    → Owned d
    → Owned ((add_listener k ok d).1)
      × Owned ((add_connector k ok d).1)
      × Owned ((start_client k ok d).1)
      × Owned (accept_loop capacity k rounds d)
      × Owned (del_node i d)
unfolding add_listener add_connector start_client
director-Owned k ok capacity rounds i d flags owned =
    let (srv, _, fast, slow, _, _, _) = descriptors-Keeps k d.fds true flags in
    let a = conn_fast k d.fds in
    let b = conn_slow k d.fds in
    (
      listen-Owned ok (creat_tcp_srv k d.fds) d srv owned,
      connect-Owned ok a.ret a.pfd a.fds d (fast.0) (fast.1) owned,
      connect-Owned ok b.ret b.pfd b.fds d (slow.0) (slow.1) owned,
      loop-Owned capacity k rounds d flags owned,
      deleted i d owned,
    )
