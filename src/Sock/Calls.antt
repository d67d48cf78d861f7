-- ===== src/Sock/Calls.antt =====
-- The descriptors that sockutil.cpp makes and closes. What the system calls answer is a record of
-- values, one for each call that a function makes; the state is the list of the open descriptors.
pub mod Leaks
use high_perf_server.Base.{
  ℕ, ◌+◌, ◌-◌, ◌*◌, ◌/◌, ◌%◌, ◌^◌, Bool, true, false, not, ◌&&◌, ◌||◌, Option, none, some, List, [],
  ◌∷◌, ◌==◌, ltb, leb, if◌then◌else◌, take,
}
use high_perf_server.Base.Int.{ℤ, pos, negsuc, leb_ℤ, ltb_ℤ}

-- An open descriptor, and what has been set on it.
pub record Fd : Type 0 where
  pub number : ℕ
  pub non_block : Bool
  pub reuse : Bool
  pub no_timewait : Bool

abbrev pub Fds : Type 0
Fds = List Fd

-- The value of a call that makes a descriptor: its number, or -1.
abbrev pub Made : Type 0
Made = Option ℕ

-- What connect(2) answers.
pub data Connected : Type 0 where
  at_once in_progress refused : Connected

-- What accept(2) answers: a descriptor, EAGAIN or EINTR, or another error.
pub data Accepted : Type 0 where
  taken : ℕ → Accepted
  none_waits failed : Accepted

-- The answers: a test is whether the call gives 0.
pub record Answers : Type 0 where
  pub socket : Made
  pub bind : Bool
  pub listen : Bool
  pub connect : Connected
  pub set_flags : Bool  -- fcntl with F_SETFL
  pub set_option : Bool  -- setsockopt
  pub pending : Bool  -- getsockopt with SO_ERROR gives 0, and the error 0
  pub accept : Accepted
  pub timer : Made
  pub set_time : Bool
  pub event : Made

-- close(2): the descriptor is not open any more.
abbrev pub close_fd : ℕ → Fds → Fds
close_fd n [] = []
close_fd n (fd ∷ fds) = if fd.number == n then fds else fd ∷ close_fd n fds

-- The descriptor n changes.
abbrev pub on_fd : ℕ → (Fd → Fd) → Fds → Fds
on_fd n f [] = []
on_fd n f (fd ∷ fds) = if fd.number == n then f fd ∷ fds else fd ∷ on_fd n f fds

abbrev pub fresh_fd : ℕ → Bool → Fd
fresh_fd n non_block = record {
  number = n;
  non_block = non_block;
  reuse = false;
  no_timewait = false;
}

-- A function that returns a descriptor or an error, and the state.
abbrev pub Result : Type 0
Result = ℤ × Fds

unfoldable pub set_non_block : Answers → ℕ → Fds → Fds
set_non_block k fd s = on_fd fd (λ d. record d { non_block = d.non_block || k.set_flags }) s

unfoldable pub set_reuse : Answers → ℕ → Fds → Fds
set_reuse k fd s = on_fd fd (λ d. record d { reuse = d.reuse || k.set_option }) s

unfoldable pub set_no_timewait : Answers → ℕ → Fds → Fds
set_no_timewait k fd s = on_fd fd (λ d. record d { no_timewait = d.no_timewait || k.set_option }) s

-- closeHd. The descriptors of the functions below are not negative.
unfoldable pub close_hd : ℤ → Fds → Fds
close_hd (pos fd) s = close_fd fd s
close_hd (negsuc n) s = s

-- creatTcpSrv.
unfoldable pub creat_tcp_srv : Answers → Fds → Result
creat_tcp_srv k s = elim k.socket [
  | none ↦ (negsuc 0, s)
  | some fd ↦
      let s1 = set_reuse k fd (set_non_block k fd (fresh_fd fd false ∷ s)) in
      if k.bind && k.listen then (pos fd, s1) else (negsuc 0, close_hd (pos fd) s1)
]

unfoldable pub creat_sock : Answers → Fds → Result
creat_sock k s = elim k.socket [ none ↦ (negsuc 0, s) | some fd ↦ (pos fd, fresh_fd fd false ∷ s) ]

-- connCli: 0, 1 while it is in progress, or -1.
unfoldable pub conn_cli : Answers → ℤ
conn_cli k = elim k.connect [ at_once ↦ pos 0 | in_progress ↦ pos 1 | refused ↦ negsuc 0 ]

-- connAddr: 0 or -1.
unfoldable pub conn_addr : Answers → ℤ
conn_addr k = elim k.connect [ at_once ↦ pos 0 | in_progress ↦ negsuc 0 | refused ↦ negsuc 0 ]

unfoldable pub chk_conn_status : Answers → ℤ
chk_conn_status k = if k.pending then pos 0 else negsuc 0

-- creatTcpCli, where creatAddr has given `addr_ok`.
unfoldable pub creat_tcp_cli : Answers → Bool → Fds → Result
creat_tcp_cli k addr_ok s = if not addr_ok then (negsuc 0, s) else elim k.socket [
  | none ↦ (negsuc 0, s)
  | some fd ↦
      let s1 = fresh_fd fd false ∷ s in
      elim (conn_addr k) [
        | pos n ↦ (pos fd, set_non_block k fd s1)
        | negsuc n ↦ (negsuc 0, close_hd (pos fd) s1)
      ]
]

-- What connFast and connSlow return: the value, `*pfd` and the state.
pub record Attempt : Type 0 where
  pub ret : ℤ
  pub pfd : ℤ
  pub fds : Fds

abbrev pub no_sock : Fds → Attempt
no_sock s = record { ret = negsuc 0; pfd = negsuc 0; fds = s }

abbrev pub is_zero : ℤ → Bool
is_zero (pos n) = n == 0
is_zero (negsuc n) = false

-- The rest of connFast, with the value of creatSock.
abbrev pub conn_fast_sock : Answers → Result → Attempt
conn_fast_sock k (negsuc n, s) = no_sock s
conn_fast_sock k (pos fd, s) =
    let s1 = set_no_timewait k fd (set_non_block k fd s) in
    elim (conn_cli k) [
      | pos ret ↦ record { ret = pos ret; pfd = pos fd; fds = s1 }
      | negsuc n ↦ no_sock (close_hd (pos fd) s1)
    ]

unfoldable pub conn_fast : Answers → Fds → Attempt
conn_fast k s = conn_fast_sock k (creat_sock k s)

-- The rest of connSlow. A connection in progress is given up.
abbrev pub conn_slow_sock : Answers → Result → Attempt
conn_slow_sock k (negsuc n, s) = no_sock s
conn_slow_sock k (pos fd, s) =
    if is_zero (conn_cli k)
    then record { ret = pos 0; pfd = pos fd; fds = set_no_timewait k fd (set_non_block k fd s) }
    else no_sock (close_hd (pos fd) s)

unfoldable pub conn_slow : Answers → Fds → Attempt
conn_slow k s = conn_slow_sock k (creat_sock k s)

-- acceptCli: a descriptor, -2 where none waits, or -1.
unfoldable pub accept_cli : Answers → Fds → Result
accept_cli k s = elim k.accept [
  | taken fd ↦ (pos fd, set_no_timewait k fd (set_non_block k fd (fresh_fd fd false ∷ s)))
  | none_waits ↦ (negsuc 1, s)
  | failed ↦ (negsuc 0, s)
]

-- The interval of creatTimerFd: seconds and nanoseconds.
unfoldable pub timer_interval : ℕ → ℕ × ℕ
timer_interval ms = if leb 1000 ms then (ms / 1000, (ms % 1000) * 1000000) else (0, ms * 1000000)

-- creatTimerFd. The descriptor is made with TFD_NONBLOCK.
unfoldable pub creat_timer_fd : Answers → Fds → Result
creat_timer_fd k s = elim k.timer [
  | none ↦ (negsuc 0, s)
  | some fd ↦
      let s1 = fresh_fd fd true ∷ s in
      if k.set_time then (pos fd, s1) else (negsuc 0, close_fd fd s1)
]

-- creatEventFd. The descriptor is made with EFD_NONBLOCK.
unfoldable pub creat_event_fd : Answers → Fds → Result
creat_event_fd k s = elim k.event [
  | none ↦ (negsuc 0, s)
  | some fd ↦ (pos fd, fresh_fd fd true ∷ s)
]
