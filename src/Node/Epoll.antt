-- ===== src/Node/Epoll.antt =====
-- The registration of nodes (addEvent and delEvent of sockepoll.cpp) and the connections that a
-- listener takes (SockListener::accept of sockobj.cpp). What epoll_ctl and the call-back answer are
-- arguments. `size` is `m_size`, which is above 0 where it is counted down (see Count).
pub mod Count
pub mod Wait
pub mod Due
use high_perf_server.Base.{
  ℕ, suc, ◌+◌, ◌-◌, Bool, true, false, not, ◌&&◌, ◌||◌, List, [], ◌∷◌, ltb, if◌then◌else◌,
}

-- `m_ev_type` of a node, or a request: EVENT_TYPE_RD and EVENT_TYPE_WR.
pub record Flags : Type 0 where
  pub rd : Bool
  pub wr : Bool

abbrev pub no_event : Flags
no_event = record { rd = false; wr = false }

abbrev pub all_events : Flags
all_events = record { rd = true; wr = true }

abbrev pub is_registered : Flags → Bool
is_registered f = f.rd || f.wr

-- A node is counted when its first flag is set, and no longer when its last one is reset.
abbrev pub count_in : ℕ → Flags → ℕ
count_in size f = if is_registered f then size else suc size

abbrev pub count_out : ℕ → Flags → ℕ
count_out size f = if is_registered f then size else size - 1

unfoldable pub add_rd : Flags → Bool → ℕ × Flags → ℕ × Flags
add_rd ev ok (size, f) =
    if ev.rd && not f.rd && ok then (count_in size f, record f { rd = true }) else (size, f)

unfoldable pub add_wr : Flags → Bool → ℕ × Flags → ℕ × Flags
add_wr ev ok (size, f) =
    if ev.wr && not f.wr && ok then (count_in size f, record f { wr = true }) else (size, f)

unfoldable pub add_event : Flags → Bool → Bool → ℕ × Flags → ℕ × Flags
add_event ev ok_rd ok_wr s = add_wr ev ok_wr (add_rd ev ok_rd s)

unfoldable pub del_rd : Flags → ℕ × Flags → ℕ × Flags
del_rd ev (size, f) =
    if ev.rd && f.rd
    then (count_out size (record f { rd = false }), record f { rd = false })
    else (size, f)

unfoldable pub del_wr : Flags → ℕ × Flags → ℕ × Flags
del_wr ev (size, f) =
    if ev.wr && f.wr
    then (count_out size (record f { wr = false }), record f { wr = false })
    else (size, f)

unfoldable pub del_event : Flags → ℕ × Flags → ℕ × Flags
del_event ev s = del_wr ev (del_rd ev s)

-- A connection that accept(2) gives: what `onAccepted` and the two calls of epoll_ctl answer.
pub record Incoming : Type 0 where
  pub welcome : Bool
  pub ok_rd : Bool
  pub ok_wr : Bool

-- The nodes of the connections, and the counts of the loop.
pub record Listener : Type 0 where
  pub size : ℕ
  pub nodes : List Flags
  pub ok : ℕ
  pub fail : ℕ

-- One round of the loop: a node that is refused is deleted, and above the capacity the connection is
-- closed.
unfoldable pub accept_one : ℕ → Incoming → Listener → Listener
accept_one capacity c s =
    if ltb s.size capacity
    then (if c.welcome
        then (let (size, f) = add_event all_events c.ok_rd c.ok_wr (s.size, no_event) in
            record s { size = size; nodes = f ∷ s.nodes; ok = suc s.ok })
        else record s { fail = suc s.fail })
    else record s { fail = suc s.fail }

unfoldable pub accept : ℕ → List Incoming → Listener → Listener
accept capacity [] s = s
accept capacity (c ∷ cs) s = accept capacity cs (accept_one capacity c s)
