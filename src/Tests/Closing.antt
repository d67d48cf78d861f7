-- ===== src/Tests/Closing.antt =====
-- A node that is closed twice (director.cpp), up to the end of its reader.
use high_perf_server.Base.{◌≤◌, ◌≡◌, refl, true, false, [], ◌∷◌, arith}
use high_perf_server.Node.Close.{
  alive, ended, stop, Node, sound, push_stop, notify_stop, close, proc_stop_msg, deal_cmd, end_rd,
  closes, deals, ends_rd, open_node, Reach, start, later,
}
use high_perf_server.Node.Close.Order.{IsOrdered, closes_in_order}
use high_perf_server.Node.Close.Ends.{Ends, closing_ends}

abbrev closing : Node
closing = deal_cmd (stop 5) (record (open_node 2) { cmds = stop 5 ∷ [] })

abbrev rd_gone : Node
rd_gone = end_rd sound closing

rd_gone-Reach : Reach true rd_gone
unfolding close notify_stop push_stop deal_cmd proc_stop_msg
rd_gone-Reach =
    later
      (later
        (later (later (start 2 (omega arith)) (closes sound (λ e. refl)))
          (closes sound (λ e. refl)))
        (deals (stop 5) (stop 5 ∷ []) refl (λ e. cc)))
      (ends_rd sound (λ e. refl) refl)

closes_in_order_example : IsOrdered rd_gone
closes_in_order_example = closes_in_order rd_gone-Reach

rd_gone_late : 5 ≤ rd_gone.status
unfolding end_rd notify_stop push_stop deal_cmd proc_stop_msg
rd_gone_late = omega arith

closing_ends_example : Ends rd_gone
closing_ends_example = closing_ends rd_gone-Reach rd_gone_late

-- The reader has ended, but its message was not made: no stop message is left, and the sender's task
-- has not been asked to end.
abbrev stuck : Node
stuck = end_rd (record { created = false; locked = true }) (record closing { cmds = [] })

nothing_follows : (stuck.cmds ≡ []) × (stuck.rd ≡ ended) × (stuck.wr ≡ alive)
unfolding end_rd notify_stop deal_cmd proc_stop_msg
nothing_follows = (refl, refl, refl)
