-- ===== src/Tests/Sockets.antt =====
-- Descriptors and addresses (sockutil.cpp).
use high_perf_server.Base.{ℕ, ◌<◌, ◌≡◌, refl, true, false, Option, some, List, [], ◌∷◌}
use high_perf_server.Base.Int.{pos}
use high_perf_server.Config.{Text}
use high_perf_server.Config.Global.{codes}
use high_perf_server.Node.Objects.{node_listener, fd_normal}
use high_perf_server.Node.Build.{NodeBase, build_node}
use high_perf_server.Node.Director.{
  Director, Round, add_listener, add_connector, start_client, accept_loop, del_node,
}
use high_perf_server.Node.Director.Owned.{Owned, director-Owned}
use high_perf_server.Sock.Address.{
  addr_of, creat_addr, parse_addr, creat_addr-parse_addr, last_colon,
}
use high_perf_server.Sock.Calls.{
  Answers, refused, taken, creat_tcp_srv, creat_tcp_cli, conn_fast, conn_slow, accept_cli,
  creat_timer_fd, creat_event_fd, timer_interval,
}
use high_perf_server.Sock.Calls.Leaks.{Keeps, KeepsTry, descriptors-Keeps}

-- A kernel in which the calls behind socket fail.
abbrev answers : Answers
answers = record {
  socket = some 7;
  bind = true;
  listen = false;
  connect = refused;
  set_flags = true;
  set_option = true;
  pending = false;
  accept = taken 8;
  timer = some 9;
  set_time = false;
  event = some 10;
}

descriptors-Keeps_example :
    Keeps [] (creat_tcp_srv answers [])
    × Keeps [] (creat_tcp_cli answers true [])
    × KeepsTry [] (conn_fast answers [])
    × KeepsTry [] (conn_slow answers [])
    × Keeps [] (accept_cli answers [])
    × Keeps [] (creat_timer_fd answers [])
    × Keeps [] (creat_event_fd answers [])
descriptors-Keeps_example = descriptors-Keeps answers [] true refl

-- A host that is written in one way only.
abbrev pton : Text → Option (List ℕ)
pton ip = some (127 ∷ 0 ∷ 0 ∷ 1 ∷ [])

abbrev ntop : List ℕ → Option Text
ntop a = some (codes "127.0.0.1")

creat_addr-parse_addr_example :
    (p : ℕ) × (pos 8080 ≡ pos p)
    × (0 < p)
    × (p < 65536)
    × (parse_addr ntop (addr_of 8080 (127 ∷ 0 ∷ 0 ∷ 1 ∷ [])) ≡ some (codes "127.0.0.1", p))
unfolding creat_addr
creat_addr-parse_addr_example =
    creat_addr-parse_addr pton ntop (codes "127.0.0.1") (pos 8080)
      (addr_of 8080 (127 ∷ 0 ∷ 0 ∷ 1 ∷ [])) (λ a e. refl) refl

one_and_a_half : timer_interval 1500 ≡ (1, 500000000)
unfolding timer_interval
one_and_a_half = refl

parts : last_colon (codes "::1:80") ≡ some (codes "::1", codes "80")
parts = refl

-- A director with one listener.
abbrev listener : NodeBase
listener = record (build_node (pos 7) node_listener) { status = fd_normal }

abbrev one_listener : Director
one_listener = record {
  fds = record { number = 7; non_block = true; reuse = true; no_timewait = false } ∷ [];
  nodes = record { base = listener; flags = record { rd = true; wr = false } } ∷ [];
  size = 1;
}

abbrev kernel : Answers
kernel = record answers { listen = true; socket = some 9 }

-- A connection that is welcome, and one that is not.
abbrev two_rounds : List Round
two_rounds =
    record { accepted = taken 11; incoming = record { welcome = true; ok_rd = true; ok_wr = true } }
    ∷ record {
      accepted = taken 12;
      incoming = record { welcome = false; ok_rd = true; ok_wr = true };
    }
    ∷ []

director-Owned_example :
    Owned ((add_listener kernel true one_listener).1)
    × Owned ((add_connector kernel true one_listener).1)
    × Owned ((start_client kernel true one_listener).1)
    × Owned (accept_loop 4 kernel two_rounds one_listener)
    × Owned (del_node 0 one_listener)
unfolding build_node
director-Owned_example = director-Owned kernel true 4 two_rounds 0 one_listener refl (λ n. refl)
