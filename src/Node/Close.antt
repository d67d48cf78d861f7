-- ===== src/Node/Close.antt =====
-- How a node is closed: close, notify, dealCmd, procStopMsg and procTaskEnd of director.cpp, with
-- procTaskEnd of receiver.cpp, sender.cpp and dealer.cpp. The four tasks of the node are ended one
-- after the other, each by a message of the one before it. The command queue is the list of the
-- messages that the director has not dealt with, those of `m_cmd_que_tmp` behind those of `m_cmd_que`.
pub mod Chain
pub mod Notices
pub mod Invariant
pub mod Order
pub mod Ends
use high_perf_server.Base.{
  ℕ, zero, suc, ◌<◌, ◌≡◌, ◌≢◌, Bool, true, false, List, [], ◌∷◌, ◌++◌, ltb, ◌==◌, if◌then◌else◌,
}

-- enum EnumFdStatus of datatype.h.
abbrev pub fd_closing : ℕ
fd_closing = 5

abbrev pub fd_close_rd : ℕ
fd_close_rd = 6

abbrev pub fd_close_wr : ℕ
fd_close_wr = 7

abbrev pub fd_close_dealer : ℕ
fd_close_dealer = 8

abbrev pub fd_close_director : ℕ
fd_close_director = 9

-- A task: its end has not been asked for, is on its way, or has been processed.
pub data Life : Type 0 where
  alive asked ended : Life

-- endTask. The end of a task is processed once, however often it is asked for.
abbrev pub end_task : Life → Life
end_task alive = asked
end_task asked = asked
end_task ended = ended

-- A message for the director: ENUM_MSG_SYSTEM_STOP with its status, or any other.
pub data Cmd : Type 0 where
  stop : ℕ → Cmd
  command : ℕ → Cmd

pub record Node : Type 0 where
  pub status : ℕ  -- `m_fd_status`
  pub cmds : List Cmd
  pub rd : Life
  pub wr : Life
  pub deal : Life
  pub director : Life
  pub registered : Bool  -- in the epoll sets
  pub eofs : ℕ  -- calls of `eof`

-- pushCmd of a stop message: `locked` is what lock(base) gives. A message that is not queued is freed.
unfoldable pub push_stop : Bool → ℕ → Node → Node
push_stop locked status s = if locked then record s { cmds = s.cmds ++ stop status ∷ [] } else s

-- What notify gets: whether MsgCenter::creatMsg gives a message, and whether the node is locked.
pub record Notice : Type 0 where
  pub created : Bool
  pub locked : Bool

abbrev pub sound : Notice
sound = record { created = true; locked = true }

-- notify to the director, for a stop message. It returns nothing, so the caller cannot tell whether the
-- message is on its way.
unfoldable pub notify_stop : Notice → ℕ → Node → Node
notify_stop k status s = if k.created then push_stop k.locked status s else s

unfoldable pub close : Notice → Node → Node
close k s = notify_stop k fd_closing s

unfoldable pub proc_stop_msg : ℕ → Node → Node
proc_stop_msg status s =
    if status == fd_closing
    then (if ltb s.status status
        then record s { status = fd_closing; registered = false; rd = end_task s.rd }
        else s)
    else if status == fd_close_rd
    then record s { status = status; wr = end_task s.wr }
    else if status == fd_close_wr
    then record s { status = status; deal = end_task s.deal }
    else if status == fd_close_dealer
    then record s { status = status; director = end_task s.director }
    else s

-- A command that is no stop goes to `procCmd` of the node's object (Node.Objects). It changes the status
-- of a connector that gets its connection, and of no other node; that change is left out.
unfoldable pub deal_cmd : Cmd → Node → Node
deal_cmd (stop status) s = proc_stop_msg status s
deal_cmd (command cmd) s = s

-- procTaskEnd of the receiver, the sender, the dealer and the director.
unfoldable pub end_rd : Notice → Node → Node
end_rd k s = notify_stop k fd_close_rd (record s { rd = ended })

unfoldable pub end_wr : Notice → Node → Node
end_wr k s = notify_stop k fd_close_wr (record s { wr = ended })

unfoldable pub end_deal : Notice → Node → Node
end_deal k s = notify_stop k fd_close_dealer (record s { deal = ended })

unfoldable pub end_director : Node → Node
end_director s = record s { director = ended; status = fd_close_director; eofs = suc s.eofs }

-- A step in which all the messages of `notify` get through, if `sure` is true.
abbrev pub Holds : Bool → Notice → Type 0
Holds sure k = sure ≡ true → k ≡ sound

pub data Step (sure : Bool) (s : Node) : Node → Type 0 where
  closes : (k : Notice) → Holds sure k → Step sure s (close k s)
  commands : (cmd : ℕ) → Step sure s (record s { cmds = s.cmds ++ command cmd ∷ [] })
  deals :
      (c : Cmd) (rest : List Cmd)
      → s.cmds ≡ c ∷ rest
      → s.director ≢ ended
      → Step sure s (deal_cmd c (record s { cmds = rest }))
  ends_rd : (k : Notice) → Holds sure k → s.rd ≡ asked → Step sure s (end_rd k s)
  ends_wr : (k : Notice) → Holds sure k → s.wr ≡ asked → Step sure s (end_wr k s)
  ends_deal : (k : Notice) → Holds sure k → s.deal ≡ asked → Step sure s (end_deal k s)
  ends_director : s.director ≡ asked → Step sure s (end_director s)

-- A node that is in use, and has any status before the closing.
abbrev pub open_node : ℕ → Node
open_node status = record {
  status = status;
  cmds = [];
  rd = alive;
  wr = alive;
  deal = alive;
  director = alive;
  registered = true;
  eofs = 0;
}

-- The states of a node, where `notify` may fail at any step, or not at all if `sure` is true.
pub data Reach (sure : Bool) : Node → Type 0 where
  start : (status : ℕ) → status < fd_closing → Reach sure (open_node status)
  later : {s t : Node} → Reach sure s → Step sure s t → Reach sure t
