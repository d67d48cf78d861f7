-- ===== src/Node/Deal.antt =====
-- The messages for the threads of a node (pushMsg, pushWrite, pushDeal and pushCmd of director.cpp) and
-- the dealer's work on them (procNodeQue of dealer.cpp, dealMsg of director.cpp). Whether a lock is
-- taken is an argument; `proc` says whether `procMsg` of the node's object fails on a message, after
-- those that it has been given.
pub mod Fifo
use high_perf_server.Base.{ℕ, suc, Bool, true, false, List, [], ◌∷◌, ◌++◌, if◌then◌else◌}
use high_perf_server.Base.Int.{ℤ, pos, negsuc}
use high_perf_server.Msg.Cache.{Cache}

-- enum EnumThreadType of globaltype.h.
pub data Thread : Type 0 where
  thread_director thread_read thread_write thread_dealer : Thread

pub record Queues : Type 0 where
  pub wr_que_tmp : List Cache
  pub deal_que_tmp : List Cache
  pub cmd_que_tmp : List Cache
  pub refused : List Cache  -- freed by a push that fails

abbrev pub refuse : Cache → Queues → Queues × ℤ
refuse msg q = (record q { refused = q.refused ++ msg ∷ [] }, negsuc 0)

unfoldable pub push_write : Bool → Cache → Queues → Queues × ℤ
push_write locked msg q =
    if locked then (record q { wr_que_tmp = q.wr_que_tmp ++ msg ∷ [] }, pos 0) else refuse msg q

unfoldable pub push_deal : Bool → Cache → Queues → Queues × ℤ
push_deal locked msg q =
    if locked then (record q { deal_que_tmp = q.deal_que_tmp ++ msg ∷ [] }, pos 0) else refuse msg q

unfoldable pub push_cmd : Bool → Cache → Queues → Queues × ℤ
push_cmd locked msg q =
    if locked then (record q { cmd_que_tmp = q.cmd_que_tmp ++ msg ∷ [] }, pos 0) else refuse msg q

unfoldable pub push_msg : Thread → Bool → Cache → Queues → Queues × ℤ
push_msg thread_write locked msg q = push_write locked msg q
push_msg thread_dealer locked msg q = push_deal locked msg q
push_msg thread_director locked msg q = push_cmd locked msg q
push_msg thread_read locked msg q = refuse msg q

pub record Dealing : Type 0 where
  pub queues : Queues
  pub deal_que : List Cache
  pub deal_err : Bool
  pub given : List Cache  -- to `procMsg`, in order
  pub freed : List Cache  -- by `dealMsg`
  pub closes : ℕ  -- calls of `close`

abbrev pub Proc : Type 0
Proc = List Cache → Cache → Bool

unfoldable pub deal_msg : Proc → Cache → Dealing → Dealing
deal_msg proc msg s =
    if s.deal_err
    then record s { freed = s.freed ++ msg ∷ [] }
    else if proc s.given msg
    then record s { given = s.given ++ msg ∷ []; deal_err = true; closes = suc s.closes }
    else record s { given = s.given ++ msg ∷ [] }

-- The loop of `procNodeQue`.
unfoldable pub deal_all : Proc → List Cache → Dealing → Dealing
deal_all proc [] s = s
deal_all proc (msg ∷ list) s = deal_all proc list (deal_msg proc msg (record s { deal_que = list }))

abbrev pub splice : Dealing → Dealing
splice s = record s {
  deal_que = s.deal_que ++ s.queues.deal_que_tmp;
  queues = record s.queues { deal_que_tmp = [] };
}

unfoldable pub proc_deal_que : Bool → Proc → Dealing → Dealing
proc_deal_que locked proc s = let t = if locked then splice s else s in deal_all proc t.deal_que t

-- What befalls the node: pushes for any thread, and runs of the dealer.
pub data Move : Type 0 where
  pushes : Thread → Bool → Cache → Move
  runs : Bool → Move

unfoldable pub move : Proc → Move → Dealing → Dealing
move proc (pushes thread locked msg) s = record s {
  queues = (push_msg thread locked msg s.queues).0;
}
move proc (runs locked) s = proc_deal_que locked proc s

unfoldable pub moves : Proc → List Move → Dealing → Dealing
moves proc [] s = s
moves proc (m ∷ ms) s = moves proc ms (move proc m s)

abbrev pub new_dealing : Dealing
new_dealing = record {
  queues = record { wr_que_tmp = []; deal_que_tmp = []; cmd_que_tmp = []; refused = [] };
  deal_que = [];
  deal_err = false;
  given = [];
  freed = [];
  closes = 0;
}
