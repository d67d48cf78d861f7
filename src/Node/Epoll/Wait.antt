-- ===== src/Node/Epoll/Wait.antt =====
-- waitEvent and waitWr of sockepoll.cpp, with readFd, writeFd and failFd: what the director does with
-- the nodes that epoll_wait gives. The second set is itself a node of the first one.
use high_perf_server.Base.{ℕ, Bool, true, false, not, ◌&&◌, ◌||◌, List, [], ◌∷◌, ◌++◌}
use high_perf_server.Base.Int.{ℤ, pos, negsuc}

-- An entry of `m_evs`: its node, whether that is the second set (ENUM_NODE_EPOLL_WR), whether EPOLLIN
-- (EPOLLOUT in the second set) is there, and whether any of the error flags is.
pub record Ready : Type 0 where
  pub node : ℕ
  pub is_epoll_wr : Bool
  pub able : Bool
  pub broken : Bool

-- What epoll_wait answers.
pub data Polled : Type 0 where
  entries : List Ready → Polled
  timed_out interrupted failed : Polled

-- readFd and writeFd give the node's task an event; failFd sets its errors and closes it.
pub data Wake : Type 0 where
  reads : ℕ → Wake
  writes : ℕ → Wake
  fails : ℕ → Wake

abbrev pub when : Bool → Wake → List Wake
when true w = w ∷ []
when false w = []

-- One round of the loop of waitEvent, and of waitWr.
unfoldable pub read_entry : Ready → List Wake
read_entry r =
    when (r.able && not r.is_epoll_wr) (reads r.node)
    ++ when (r.broken && not r.is_epoll_wr) (fails r.node)

unfoldable pub write_entry : Ready → List Wake
write_entry r = when r.able (writes r.node) ++ when r.broken (fails r.node)

-- The loops; the first one says whether the second set has to be asked.
abbrev pub read_entries : Bool → List Ready → Bool × List Wake
read_entries need_wr [] = (need_wr, [])
read_entries need_wr (r ∷ rs) =
    let (need, wakes) = read_entries (need_wr || (r.is_epoll_wr && (r.able || r.broken))) rs in
    (need, read_entry r ++ wakes)

abbrev pub write_entries : List Ready → List Wake
write_entries [] = []
write_entries (r ∷ rs) = write_entry r ++ write_entries rs

unfoldable pub wait_wr : Polled → ℤ × List Wake
wait_wr (entries rs) = (pos 0, write_entries rs)
wait_wr timed_out = (pos 0, [])
wait_wr interrupted = (pos 0, [])
wait_wr failed = (negsuc 0, [])

-- The rest of waitEvent, behind its loop.
abbrev pub behind_loop : Polled → Bool × List Wake → ℤ × List Wake
behind_loop wr (true, wakes) = let (ret, more) = wait_wr wr in (ret, wakes ++ more)
behind_loop wr (false, wakes) = (pos 0, wakes)

unfoldable pub wait_event : Polled → Polled → ℤ × List Wake
wait_event (entries rs) wr = behind_loop wr (read_entries false rs)
wait_event timed_out wr = (pos 0, [])
wait_event interrupted wr = (pos 0, [])
wait_event failed wr = (negsuc 0, [])
