-- ===== src/Node/Director.antt =====
-- How the director comes by its nodes and gives them up: creatNode, delNode, addListener and
-- addConnector of director.cpp, startClient of server.cpp, SockListener::accept of sockobj.cpp. What
-- the kernel answers, and the two calls of epoll_ctl, are arguments.
pub mod Counts
pub mod Owned
use high_perf_server.Base.{
  ℕ, zero, suc, Bool, true, false, Option, none, some, List, [], ◌∷◌, ◌++◌, length, ltb,
  if◌then◌else◌,
}
use high_perf_server.Base.Int.{ℤ, pos, negsuc}
use high_perf_server.Sock.Calls.{
  Answers, Fds, Result, Attempt, Accepted, close_fd, accept_cli, creat_tcp_srv, conn_fast,
  conn_slow,
}
use high_perf_server.Sock.Address.{build_param}
use high_perf_server.Node.Objects.{NodeType, node_sock, node_connector, node_listener, fd_normal}
use high_perf_server.Node.Build.{NodeBase, Freeing, build_node, free_node}
use high_perf_server.Node.Epoll.{Flags, Incoming, no_event, all_events, add_event}

abbrev pub fd_connecting : ℕ
fd_connecting = 1

-- A node, and its `m_ev_type`.
pub record Entry : Type 0 where
  pub base : NodeBase
  pub flags : Flags

pub record Director : Type 0 where
  -- The sockets that are open. The descriptors of the epoll sets, of the event node and of the timer
  -- node are not among them: they are made once, at the start, and their nodes stand in no list.
  pub fds : Fds
  pub nodes : List Entry  -- `m_node_que`
  pub size : ℕ  -- of the epoll sets

-- creatNode.
unfoldable pub creat_node : ℤ → NodeType → ℕ → Director → Director
creat_node fd type status d = record d {
  nodes =
      d.nodes
      ++ record { base = record (build_node fd type) { status = status }; flags = no_event } ∷ [];
}

-- addEvent of the node that has just been made.
abbrev pub register_last : Flags → Bool → Bool → List Entry → ℕ → List Entry × ℕ
register_last ev ok_rd ok_wr [] size = ([], size)
register_last ev ok_rd ok_wr (e ∷ []) size =
    let (size', flags) = add_event ev ok_rd ok_wr (size, e.flags) in
    (record { base = e.base; flags = flags } ∷ [], size')
register_last ev ok_rd ok_wr (e ∷ e' ∷ es) size =
    let (rest, size') = register_last ev ok_rd ok_wr (e' ∷ es) size in (e ∷ rest, size')

unfoldable pub add_last_event : Flags → Bool → Bool → Director → Director
add_last_event ev ok_rd ok_wr d =
    let (nodes, size) = register_last ev ok_rd ok_wr d.nodes d.size in
    record d { nodes = nodes; size = size }

abbrev pub rd_event : Flags
rd_event = record { rd = true; wr = false }

abbrev pub wr_event : Flags
wr_event = record { rd = false; wr = true }

-- addListener, with the value of creatTcpSrv.
abbrev pub listen_at : Bool → Result → Director → ℤ × Director
listen_at ok (pos fd, fds) d = (
  pos 0,
  add_last_event rd_event ok ok
      (creat_node (pos fd) node_listener fd_normal (record d { fds = fds })),
)
listen_at ok (negsuc n, fds) d = (negsuc 1, record d { fds = fds })

unfoldable pub add_listener : Answers → Bool → Director → ℤ × Director
add_listener k ok d = listen_at ok (creat_tcp_srv k d.fds) d

-- addConnector, with what connFast gives.
abbrev pub connect_at : Bool → ℤ → Attempt → Director → ℤ × Director
connect_at ok (pos n) a d = (
  pos 0,
  add_last_event wr_event ok ok
      (creat_node a.pfd node_connector fd_connecting (record d { fds = a.fds })),
)
connect_at ok (negsuc n) a d = (negsuc 0, record d { fds = a.fds })

unfoldable pub add_connector : Answers → Bool → Director → ℤ × Director
add_connector k ok d = let a = conn_fast k d.fds in connect_at ok a.ret a d

-- startClient does the same with connSlow.
unfoldable pub start_client : Answers → Bool → Director → ℤ × Director
start_client k ok d = let a = conn_slow k d.fds in connect_at ok a.ret a d

-- The same for a host and a port, or -1 for a bad address.
module _ (inet_pton : List ℕ → Option (List ℕ)) where
  abbrev pub with_param : List ℕ → ℤ → (Director → ℤ × Director) → Director → ℤ × Director
  with_param ip port next d = elim (build_param inet_pton ip port) [
    | none ↦ (negsuc 0, d)
    | some param ↦ next d
  ]

  unfoldable pub add_listener_at : List ℕ → ℤ → Answers → Bool → Director → ℤ × Director
  add_listener_at ip port k ok d = with_param ip port (add_listener k ok) d

  unfoldable pub add_connector_at : List ℕ → ℤ → Answers → Bool → Director → ℤ × Director
  add_connector_at ip port k ok d = with_param ip port (add_connector k ok) d

  unfoldable pub start_client_at : List ℕ → ℤ → Answers → Bool → Director → ℤ × Director
  start_client_at ip port k ok d = with_param ip port (start_client k ok) d

-- The node at a place of the list, and the list without it, as list_del leaves it.
abbrev pub pull : ℕ → List Entry → Option (Entry × List Entry)
pull i [] = none
pull zero (e ∷ es) = some (e, es)
pull (suc i) (e ∷ es) = elim (pull i es) [
  | none ↦ none
  | some (found, rest) ↦ some (found, e ∷ rest)
]

abbrev pub close_all : List ℕ → Fds → Fds
close_all [] fds = fds
close_all (n ∷ ns) fds = close_all ns (close_fd n fds)

abbrev pub held : NodeBase → Freeing
held n = record { node = n; freed = []; closed = []; blocks = [] }

abbrev pub del_at : Option (Entry × List Entry) → Director → Director
del_at none d = d
del_at (some (e, rest)) d = record d {
  fds = close_all (free_node (held e.base)).closed d.fds;
  nodes = rest;
}

-- delNode of the node at a place of the list: freeNode closes its descriptor.
unfoldable pub del_node : ℕ → Director → Director
del_node i d = del_at (pull i d.nodes) d

-- One round of SockListener::accept, with the value of acceptCli; `false` ends the loop. A connection
-- that `onAccepted` refuses has the last node.
abbrev pub accept_at : ℕ → Incoming → Result → Director → Bool × Director
accept_at capacity c (pos fd, fds) d =
    let made = creat_node (pos fd) node_sock fd_normal (record d { fds = fds }) in
    if ltb d.size capacity
    then (
      true,
      if c.welcome
          then add_last_event all_events c.ok_rd c.ok_wr made
          else del_node (length d.nodes) made,
    )
    else (true, record d { fds = close_fd fd fds })
accept_at capacity c (negsuc n, fds) d = (false, record d { fds = fds })

-- What accept(2) answers in a round, and what follows.
pub record Round : Type 0 where
  pub accepted : Accepted
  pub incoming : Incoming

unfoldable pub accept_loop : ℕ → Answers → List Round → Director → Director
accept_loop capacity k [] d = d
accept_loop capacity k (r ∷ rs) d =
    let (more, d') =
      accept_at capacity r.incoming (accept_cli (record k { accept = r.accepted }) d.fds) d in
    let rest = accept_loop capacity k rs d' in if more then rest else d'
