-- ===== src/Sock/Calls/Leaks.antt =====
-- No descriptor of sockutil.cpp is lost.
use high_perf_server.Base.{
  ℕ, ◌≡◌, refl, Bool, true, false, ◌&&◌, some, ◌∷◌, ==_self, Option-cases, Bool-cases, inl, inr,
}
use high_perf_server.Base.Int.{ℤ, pos, negsuc}
use high_perf_server.Sock.Calls.{
  Fd, Fds, Answers, Accepted, taken, none_waits, failed, Connected, at_once, in_progress, refused,
  fresh_fd, Result, set_non_block, set_reuse, set_no_timewait, close_hd, creat_tcp_srv, creat_sock,
  conn_cli, conn_addr, creat_tcp_cli, Attempt, conn_fast_sock, conn_fast, conn_slow_sock, conn_slow,
  accept_cli, creat_timer_fd, creat_event_fd,
}

-- A function that returns a descriptor has opened that one, which does not block, and nothing else;
-- one that returns an error has left what was open.
abbrev pub Keeps : Fds → Result → Type 0
Keeps s (pos fd, s') = (d : Fd) × (d.number ≡ fd) × (d.non_block ≡ true) × (s' ≡ d ∷ s)
Keeps s (negsuc n, s') = s' ≡ s

abbrev pub is_error : ℤ → Bool
is_error (pos n) = false
is_error (negsuc n) = true

-- The same of an attempt to connect, which returns an error exactly without a descriptor.
abbrev pub KeepsTry : Fds → Attempt → Type 0
KeepsTry s a = Keeps s (a.pfd, a.fds) × (is_error a.ret ≡ is_error a.pfd)

module _ (k : Answers) (s : Fds) (flags : k.set_flags ≡ true) where
  -- The descriptors of a server and of a connection.
  abbrev server_fd : ℕ → Fd
  server_fd fd = record { number = fd; non_block = true; reuse = k.set_option; no_timewait = false }

  abbrev client_fd : ℕ → Fd
  client_fd fd = record { number = fd; non_block = true; reuse = false; no_timewait = k.set_option }

  ready : (fd : ℕ) → set_non_block k fd (fresh_fd fd false ∷ s) ≡ fresh_fd fd true ∷ s
  unfolding set_non_block
  ready fd = rw (==_self fd, flags)

  server_ready :
      (fd : ℕ) → set_reuse k fd (set_non_block k fd (fresh_fd fd false ∷ s)) ≡ server_fd fd ∷ s
  unfolding set_reuse
  server_ready fd = rw (ready fd, ==_self fd)

  client_ready :
      (fd : ℕ)
      → set_no_timewait k fd (set_non_block k fd (fresh_fd fd false ∷ s)) ≡ client_fd fd ∷ s
  unfolding set_no_timewait
  client_ready fd = rw (ready fd, ==_self fd)

  -- A descriptor that has just been made is closed again.
  closed : (fd : ℕ) (d : Fd) → d.number ≡ fd → close_hd (pos fd) (d ∷ s) ≡ s
  unfolding close_hd
  closed fd d e = rw (e, ==_self fd)

  srv-Keeps : Keeps s (creat_tcp_srv k s)
  unfolding creat_tcp_srv
  srv-Keeps = elim (Option-cases k.socket) [
    | inl e ↦ rw (creat_tcp_srv, e) refl
    | inr (fd, e) ↦ elim (Bool-cases (k.bind && k.listen)) [
      | inl b ↦ rw (creat_tcp_srv, e, b, server_ready fd) (server_fd fd, refl, refl, refl)
      | inr b ↦ rw (creat_tcp_srv, e, b, server_ready fd, closed fd (server_fd fd) refl) refl
    ]
  ]

  cli_connects :
      (fd : ℕ)
      → k.socket ≡ some fd
      → (c : Connected) → k.connect ≡ c
      → Keeps s (creat_tcp_cli k true s)
  unfolding creat_tcp_cli conn_addr
  cli_connects fd e at_once c =
      rw (creat_tcp_cli, e, conn_addr, c, ready fd) (fresh_fd fd true, refl, refl, refl)
  cli_connects fd e in_progress c =
      rw (creat_tcp_cli, e, conn_addr, c, closed fd (fresh_fd fd false) refl) refl
  cli_connects fd e refused c =
      rw (creat_tcp_cli, e, conn_addr, c, closed fd (fresh_fd fd false) refl) refl

  cli-Keeps : (addr_ok : Bool) → Keeps s (creat_tcp_cli k addr_ok s)
  unfolding creat_tcp_cli
  cli-Keeps false = refl
  cli-Keeps true = elim (Option-cases k.socket) [
    | inl e ↦ rw (creat_tcp_cli, e) refl
    | inr (fd, e) ↦ cli_connects fd e k.connect refl
  ]

  fast_connects :
      (fd : ℕ)
      → (c : Connected) → k.connect ≡ c
      → KeepsTry s (conn_fast_sock k (pos fd, fresh_fd fd false ∷ s))
  unfolding conn_cli set_no_timewait set_non_block
  fast_connects fd at_once c =
      rw (conn_cli, c, client_ready fd) ((client_fd fd, refl, refl, refl), refl)
  fast_connects fd in_progress c =
      rw (conn_cli, c, client_ready fd) ((client_fd fd, refl, refl, refl), refl)
  fast_connects fd refused c =
      rw (conn_cli, c, client_ready fd, closed fd (client_fd fd) refl) (refl, refl)

  fast-Keeps : KeepsTry s (conn_fast k s)
  unfolding conn_fast creat_sock set_non_block conn_cli set_no_timewait
  fast-Keeps = elim (Option-cases k.socket) [
    | inl e ↦ rw (conn_fast, creat_sock, e) (refl, refl)
    | inr (fd, e) ↦ rw (conn_fast, creat_sock, e) (fast_connects fd k.connect refl)
  ]

  slow_connects :
      (fd : ℕ)
      → (c : Connected) → k.connect ≡ c
      → KeepsTry s (conn_slow_sock k (pos fd, fresh_fd fd false ∷ s))
  unfolding conn_cli set_no_timewait set_non_block
  slow_connects fd at_once c =
      rw (conn_cli, c, client_ready fd) ((client_fd fd, refl, refl, refl), refl)
  slow_connects fd in_progress c = rw (conn_cli, c, closed fd (fresh_fd fd false) refl) (refl, refl)
  slow_connects fd refused c = rw (conn_cli, c, closed fd (fresh_fd fd false) refl) (refl, refl)

  slow-Keeps : KeepsTry s (conn_slow k s)
  unfolding conn_slow creat_sock conn_cli set_non_block set_no_timewait
  slow-Keeps = elim (Option-cases k.socket) [
    | inl e ↦ rw (conn_slow, creat_sock, e) (refl, refl)
    | inr (fd, e) ↦ rw (conn_slow, creat_sock, e) (slow_connects fd k.connect refl)
  ]

  accept-Keeps : (a : Accepted) → k.accept ≡ a → Keeps s (accept_cli k s)
  unfolding accept_cli
  accept-Keeps (taken fd) e = rw (accept_cli, e, client_ready fd) (client_fd fd, refl, refl, refl)
  accept-Keeps none_waits e = rw (accept_cli, e) refl
  accept-Keeps failed e = rw (accept_cli, e) refl

  timer-Keeps : Keeps s (creat_timer_fd k s)
  unfolding creat_timer_fd
  timer-Keeps = elim (Option-cases k.timer) [
    | inl e ↦ rw (creat_timer_fd, e) refl
    | inr (fd, e) ↦ elim (Bool-cases k.set_time) [
      | inl b ↦ rw (creat_timer_fd, e, b) (fresh_fd fd true, refl, refl, refl)
      | inr b ↦ rw (creat_timer_fd, e, b, ==_self fd) refl
    ]
  ]

  event-Keeps : Keeps s (creat_event_fd k s)
  unfolding creat_event_fd
  event-Keeps = elim (Option-cases k.event) [
    | inl e ↦ rw (creat_event_fd, e) refl
    | inr (fd, e) ↦ rw (creat_event_fd, e) (fresh_fd fd true, refl, refl, refl)
  ]

-- Each function that makes a descriptor returns one that it has opened, set not to block, and leaves
-- open nothing else; where it returns an error, whichever call has failed, it has closed what it had
-- opened. It holds if fcntl succeeds, whose value the functions do not look at.
pub descriptors-Keeps :
    (k : Answers) (s : Fds) (addr_ok : Bool)
    → k.set_flags ≡ true
    → Keeps s (creat_tcp_srv k s)
      × Keeps s (creat_tcp_cli k addr_ok s)
      × KeepsTry s (conn_fast k s)
      × KeepsTry s (conn_slow k s)
      × Keeps s (accept_cli k s)
      × Keeps s (creat_timer_fd k s)
      × Keeps s (creat_event_fd k s)
descriptors-Keeps k s addr_ok flags = (
  srv-Keeps k s flags,
  cli-Keeps k s flags addr_ok,
  fast-Keeps k s flags,
  slow-Keeps k s flags,
  accept-Keeps k s flags k.accept refl,
  timer-Keeps k s flags,
  event-Keeps k s flags,
)
