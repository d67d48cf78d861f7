-- ===== src/Node/Build.antt =====
-- The making and the freeing of a node: buildNode, freeNode and what they call in objcenter.cpp. The
-- state is the node; what is freed and closed comes back as lists.
pub mod Freed
use high_perf_server.Base.{
  ℕ, Bool, true, false, ◌||◌, Option, none, some, List, [], ◌∷◌, ◌++◌, if◌then◌else◌,
}
use high_perf_server.Base.Int.{ℤ, pos, negsuc}
use high_perf_server.Msg.Cache.{Cache}
use high_perf_server.Node.Objects.{
  NodeType, node_sock, node_connector, node_event, node_timer, node_listener, no_obj,
}

abbrev pub fd_init : ℕ
fd_init = 0

abbrev pub fd_end : ℕ
fd_end = 10

-- NodeBase, and the partial message `m_rcv_dummy` of its SockBase.
pub record NodeBase : Type 0 where
  pub fd : ℤ
  pub status : ℕ
  pub node_type : NodeType
  pub cmd_que : List Cache
  pub cmd_que_tmp : List Cache
  pub deal_que : List Cache
  pub deal_que_tmp : List Cache
  pub wr_que : List Cache
  pub wr_que_tmp : List Cache
  pub rcv_dummy : Option Cache

-- What I_FREE gives back: a NodeBase, or a SockNode, which holds one.
pub data Block : Type 0 where
  base_block sock_block : Block

-- The node, the messages that have been freed, the descriptors that have been closed, and the memory
-- of nodes that has been freed. `node` is what the memory holds, which is not to be read any more when
-- its block has been freed.
pub record Freeing : Type 0 where
  pub node : NodeBase
  pub freed : List Cache
  pub closed : List ℕ
  pub blocks : List Block

abbrev pub has_sock : NodeType → Bool
has_sock node_sock = true
has_sock node_connector = true
has_sock node_event = false
has_sock node_timer = false
has_sock node_listener = false
has_sock no_obj = false

-- resetBase, with the fields that buildBase and buildSock set.
unfoldable pub build_node : ℤ → NodeType → NodeBase
build_node fd type = record {
  fd = fd;
  status = fd_init;
  node_type = type;
  cmd_que = [];
  cmd_que_tmp = [];
  deal_que = [];
  deal_que_tmp = [];
  wr_que = [];
  wr_que_tmp = [];
  rcv_dummy = none;
}

-- freeMsgQue: the queue afterwards, and what it frees, behind what has been freed.
unfoldable pub free_msg_que : List Cache → List Cache → List Cache × List Cache
free_msg_que [] freed = ([], freed)
free_msg_que (msg ∷ list) freed = free_msg_que list (freed ++ msg ∷ [])

-- finishBase, where the node has the descriptor fd.
unfoldable pub finish_queues : ℕ → Freeing → Freeing
finish_queues fd s =
    let n = s.node in
    let (q1, f1) = free_msg_que n.cmd_que s.freed in
    let (q2, f2) = free_msg_que n.cmd_que_tmp f1 in
    let (q3, f3) = free_msg_que n.deal_que f2 in
    let (q4, f4) = free_msg_que n.deal_que_tmp f3 in
    let (q5, f5) = free_msg_que n.wr_que f4 in
    let (q6, f6) = free_msg_que n.wr_que_tmp f5 in
    record {
      node = record n {
        fd = negsuc 0;
        status = fd_end;
        cmd_que = q1;
        cmd_que_tmp = q2;
        deal_que = q3;
        deal_que_tmp = q4;
        wr_que = q5;
        wr_que_tmp = q6;
      };
      freed = f6;
      closed = s.closed ++ fd ∷ [];
      blocks = s.blocks;
    }

abbrev pub finish_at : ℤ → Freeing → Freeing
finish_at (pos fd) s = finish_queues fd s
finish_at (negsuc n) s = s

unfoldable pub finish_base : Freeing → Freeing
finish_base s = finish_at s.node.fd s

abbrev pub free_dummy_at : Option Cache → Freeing → Freeing
free_dummy_at none s = s
free_dummy_at (some msg) s = record {
  node = record s.node { rcv_dummy = none };
  freed = s.freed ++ msg ∷ [];
  closed = s.closed;
  blocks = s.blocks;
}

-- I_FREE
abbrev pub free_block : Block → Freeing → Freeing
free_block b s = record s { blocks = s.blocks ++ b ∷ [] }

unfoldable pub free_base : Freeing → Freeing
free_base s = free_block base_block (finish_base s)

unfoldable pub free_sock : Freeing → Freeing
free_sock s = free_block sock_block (finish_base (free_dummy_at s.node.rcv_dummy s))

abbrev pub free_node_at : Bool → Freeing → Freeing
free_node_at true s = free_sock s
free_node_at false s = free_base s

unfoldable pub free_node : Freeing → Freeing
free_node s = free_node_at (has_sock s.node.node_type) s
