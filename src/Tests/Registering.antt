-- ===== src/Tests/Registering.antt =====
-- Nodes that are registered and connections that are taken (sockepoll.cpp, sockobj.cpp).
use high_perf_server.Base.{◌≡◌, true, false, List, [], ◌∷◌, arith}
use high_perf_server.Base.{inl, inr, refl, ◌≡◌}
use high_perf_server.Node.Epoll.Wait.{
  Ready, entries, reads, writes, fails, read_entry, write_entry, wait_wr, wait_event,
}
use high_perf_server.Node.Epoll.Due.{Member, due_write, wait_event-Due}
use high_perf_server.Node.Epoll.{no_event, all_events, del_event, Incoming, Listener, accept}
use high_perf_server.Node.Epoll.Count.{
  Counts, Call, adds, dels, calls, size_is_kept, IsBounded, accept-IsBounded,
}

-- Both events are added, but the second one fails; then the first is deleted, and all are added.
abbrev history : List Call
history =
    adds all_events true false
    ∷ dels (record { rd = true; wr = false })
    ∷ adds all_events true true
    ∷ []

size_is_kept_example :
    Counts 4 (calls history (4, no_event))
    × ((del_event all_events (calls history (4, no_event))).0 ≡ 4)
size_is_kept_example = size_is_kept 4 history (4, no_event) (omega arith)

-- Three connections where there is room for one: one is refused, one taken and one closed.
abbrev three : List Incoming
three =
    record { welcome = false; ok_rd = true; ok_wr = true }
    ∷ record { welcome = true; ok_rd = true; ok_wr = true }
    ∷ record { welcome = true; ok_rd = true; ok_wr = true }
    ∷ []

abbrev listening : Listener
listening = record { size = 3; nodes = []; ok = 0; fail = 0 }

accept-IsBounded_example : IsBounded 4 3 3 (accept 4 three listening)
accept-IsBounded_example = accept-IsBounded 4 3 0 three listening (record {
  bound = omega arith;
  counted = omega arith;
  total = omega arith;
  one_each = omega arith;
})

-- A node that can be read, the second set, and a node in it that can be written.
abbrev readable : Ready
readable = record { node = 1; is_epoll_wr = false; able = true; broken = false }

abbrev second_set : Ready
second_set = record { node = 0; is_epoll_wr = true; able = true; broken = false }

abbrev writeable : Ready
writeable = record { node = 5; is_epoll_wr = false; able = true; broken = true }

wait_event-Due_example :
    Member
      (writes 5)
      ((wait_event (entries (readable ∷ second_set ∷ [])) (entries (writeable ∷ []))).1)
wait_event-Due_example =
    wait_event-Due (readable ∷ second_set ∷ []) (writeable ∷ []) (writes 5)
      (due_write second_set writeable (inr (inl refl)) refl refl (inl refl) refl)

three_wakes :
    (wait_event (entries (readable ∷ second_set ∷ [])) (entries (writeable ∷ []))).1
    ≡ reads 1 ∷ writes 5 ∷ fails 5 ∷ []
unfolding wait_event read_entry wait_wr write_entry
three_wakes = refl
