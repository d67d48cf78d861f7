-- ===== src/Tests/Writing.antt =====
-- Runs of the writer (sockobj.cpp, sender.cpp), and its theorems at concrete queues.
use high_perf_server.Base.{
  ℕ, ◌≡◌, refl, min, true, false, some, List, [], ◌∷◌, ◌++◌, map, concat, length, arith,
}
use high_perf_server.Msg.Cache.{remain, buffer, skip}
use high_perf_server.Msg.Reader.Cuts.{delivered}
use high_perf_server.Sock.Read.{Served, serve, new_conn, eagain}
use high_perf_server.Sock.Write.{
  taken, refused, Kernel, send_vec, vec_of, gather, prune, sent_vec, send_que, write_node,
  proc_node_que, push_write, WriteSide, WriteDone, Act, pushed, run_sender, act, acts,
}
use high_perf_server.Sock.Write.Bytes.{IsReady}
use high_perf_server.Sock.Write.Order.{Takes}
use high_perf_server.Sock.Write.Flow.{
  backlog, payloads, IsSound, Runs, proc_node_que-Runs, acts_order,
}
use high_perf_server.Sock.Transfer.{messages, new_side, transfer}
use high_perf_server.Tests.Reading.{
  sevens, sevens-Allocates, blank, hello, hello-IsMessage, at_once, at_once-stream, at_once-fails,
}

-- A kernel that takes `n` bytes at most, and one that takes none.
abbrev pub up_to : ℕ → Kernel
up_to n vec = taken (min n (length (concat vec)))

up_to-Takes : (n : ℕ) → Takes (up_to n)
up_to-Takes n vec m e = let same : min n (length (concat vec)) ≡ m = cc e in omega (arith, same)

abbrev busy : Kernel
busy vec = refused eagain

busy-Takes : Takes busy
busy-Takes vec m e = absurd cc

pub ready : IsReady (delivered hello)
ready = record { ordered = omega arith; within = omega arith }

abbrev two_queued : WriteSide
two_queued = record {
  wr_que = delivered hello ∷ [];
  wr_que_tmp = delivered hello ∷ [];
  wr_err = false;
}

proc_node_que-Runs_example :
    (d : WriteDone) × (proc_node_que true (up_to 30) two_queued ≡ some d) × Runs two_queued d
proc_node_que-Runs_example =
    proc_node_que-Runs true (up_to 30) two_queued (up_to-Takes 30)
      (record { que = (ready, tt); tmp = (ready, tt) })

-- A message is sent in two parts, with another one pushed between them.
abbrev steps : List Act
steps =
    pushed true (delivered hello)
    ∷ run_sender true (up_to 7)
    ∷ run_sender true busy
    ∷ pushed true (delivered hello)
    ∷ run_sender true (up_to 100)
    ∷ []

abbrev drained : WriteSide
drained = record { wr_que = []; wr_que_tmp = []; wr_err = false }

steps_run : acts steps new_side ≡ some (drained, hello ++ hello)
unfolding acts act push_write proc_node_que write_node send_que sent_vec send_vec gather prune
    vec_of remain buffer skip
steps_run = refl

acts_order_example :
    (t : WriteSide) × (out : List ℕ) × (acts steps new_side ≡ some (t, out))
    × IsSound t
    × (out ++ backlog t ≡ backlog new_side ++ payloads steps)
acts_order_example =
    acts_order steps new_side (ready, (up_to-Takes 7, (busy-Takes, (ready, (up_to-Takes 100, tt)))))
      (record { que = tt; tmp = tt })

transfer_example :
    (s : Served) × (serve sevens (new_conn blank) at_once ≡ some s)
    × (s.sent ≡ map delivered (messages steps))
    × (s.conn.rd_err ≡ false)
transfer_example =
    transfer steps drained (hello ++ hello) sevens blank at_once
      (ready, (up_to-Takes 7, (busy-Takes, (ready, (up_to-Takes 100, tt)))))
      (hello-IsMessage, (hello-IsMessage, tt)) steps_run refl sevens-Allocates refl at_once-stream
      at_once-fails
