-- ===== src/Node/Build/Freed.antt =====
-- What freeNode of objcenter.cpp gives back.
use high_perf_server.Base.{ℕ, ◌≡◌, Bool, true, false, Option, none, some, List, [], ◌∷◌, ◌++◌}
use high_perf_server.Base.Int.{negsuc}
use high_perf_server.Msg.Cache.{Cache}
use high_perf_server.Node.Build.{NodeBase, Freeing, Block, base_block, sock_block, fd_end}

abbrev pub dummies : Option Cache → List Cache
dummies none = []
dummies (some msg) = msg ∷ []

-- The messages of the queues of a node.
abbrev pub queued : NodeBase → List Cache
queued n =
    n.cmd_que ++ (n.cmd_que_tmp ++ (n.deal_que ++ (n.deal_que_tmp ++ (n.wr_que ++ n.wr_que_tmp))))

-- Nothing is left in a node.
pub record IsEmpty (n : NodeBase) : Type 0 where
  pub no_fd : n.fd ≡ negsuc 0
  pub at_end : n.status ≡ fd_end
  pub no_msg : queued n ≡ []
  pub no_dummy : n.rcv_dummy ≡ none

-- The node without its messages and its descriptor.
abbrev pub emptied : NodeBase → NodeBase
emptied n = record n {
  fd = negsuc 0;
  status = fd_end;
  cmd_que = [];
  cmd_que_tmp = [];
  deal_que = [];
  deal_que_tmp = [];
  wr_que = [];
  wr_que_tmp = [];
}

-- What the finishing of the node n leaves and gives back.
abbrev pub Result : NodeBase → ℕ → Freeing → Type 0
Result n fd r =
    (r.freed ≡ dummies n.rcv_dummy ++ queued n)
    × (r.closed ≡ fd ∷ [])
    × IsEmpty r.node
    × (r.blocks ≡ [])

-- The memory of a node, by whether it is a SockNode.
abbrev pub block_of : Bool → Block
block_of true = sock_block
block_of false = base_block

abbrev pub held : NodeBase → Freeing
held n = record { node = n; freed = []; closed = []; blocks = [] }

-- All that the freeing of the node n gives back.
abbrev pub Given : NodeBase → ℕ → Block → Freeing → Type 0
Given n fd b r =
    (r.freed ≡ dummies n.rcv_dummy ++ queued n)
    × (r.closed ≡ fd ∷ [])
    × (r.blocks ≡ b ∷ [])
    × IsEmpty r.node
