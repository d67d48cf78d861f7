-- ===== src/Tests/Objects.antt =====
-- Nodes of the object centre (objcenter.cpp).
use high_perf_server.Base.{ℕ, ◌≡◌, refl, true, false, some, [], ◌∷◌}
use high_perf_server.Base.Int.{pos}
use high_perf_server.Msg.Reader.Cuts.{delivered}
use high_perf_server.Node.Build.{NodeBase, build_node}
use high_perf_server.Node.Close.{fd_closing}
use high_perf_server.Node.Objects.{
  node_sock, node_connector, Msg, Base, write_node, proc_msg, proc_cmd, proc_connect, fd_normal,
}
use high_perf_server.Sock.Write.{WriteSide}
use high_perf_server.Tests.Reading.{hello}
use high_perf_server.Tests.Writing.{up_to, ready}
use high_perf_server.Node.Objects.Release.{released, WriteReleases, messages_released}

abbrev full : NodeBase
full = record (build_node (pos 4) node_connector) {
  cmd_que = delivered (1 ∷ []) ∷ [];
  wr_que_tmp = delivered (2 ∷ []) ∷ [];
  rcv_dummy = some (delivered (3 ∷ []));
}

-- notify: a message with a body of the type MsgNotify.
abbrev notify_msg : ℕ → ℕ → Msg
notify_msg cmd value = record { cmd = cmd; value = value; is_serv = false; ip = []; port = 0 }

-- A connection with two messages to send, of which the kernel takes 30 bytes.
abbrev conn : Base
conn = record { node_type = node_sock; fd_status = fd_normal; wr_err = false; wr_que = [] }

abbrev side : WriteSide
side = record { wr_que = delivered hello ∷ delivered hello ∷ []; wr_que_tmp = []; wr_err = false }

messages_released_example :
    (released ((proc_msg (pos 0) conn (notify_msg 2 1)).1) ≡ notify_msg 2 1 ∷ [])
    × (released ((proc_cmd true conn (notify_msg 2 1)).1) ≡ notify_msg 2 1 ∷ [])
    × WriteReleases side conn (write_node (up_to 30) side (pos 0) conn)
messages_released_example =
    messages_released (up_to 30) side (pos 0) (pos 0) true conn (notify_msg 2 1)
      (ready, (ready, tt))

-- A connector that is being closed is set back to normal by a late message of its success.
late_success :
    (proc_connect true
      (record { node_type = node_connector; fd_status = fd_closing; wr_err = true; wr_que = [] })
      (notify_msg 101 0)).0.fd_status
    ≡ fd_normal
unfolding proc_connect
late_success = refl
