-- ===== src/Node/Objects.antt =====
-- The objects that a node's work goes to by its type: ObjCenter of objcenter.cpp, TimerObj and EventObj
-- of timerobj.cpp, SockConnector and SockListener of sockobj.cpp. What they call of the director and
-- of the program's call-backs is a list of acts. The reading of a connection stands in Sock,
-- and so does its writing, which is called here; the values that come from outside are arguments.
pub mod Release
use high_perf_server.Base.{
  ℕ, ◌%◌, ◌^◌, Bool, true, false, Option, none, some, List, [], ◌∷◌, ◌++◌, ◌==◌, if◌then◌else◌,
}
use high_perf_server.Base.Int.{ℤ, pos, negsuc}
use high_perf_server.Events.{bit_event_norm, bit_event_error}
use high_perf_server.Node.Deal.{Thread, thread_director, thread_read, thread_write, thread_dealer}
use high_perf_server.Base.Partial.{◌>>=◌}
use high_perf_server.Node.Epoll.{Flags}
use high_perf_server.Sock.Write.{Kernel, WriteSide, WriteDone, comm_write_node}

-- enum EnumNodeType, as far as there is an object; `no_obj` is any other type.
pub data NodeType : Type 0 where
  node_sock node_connector node_event node_timer node_listener no_obj : NodeType

-- enum EnumMsgCmd.
abbrev pub msg_tick_timer : ℕ
msg_tick_timer = 2

abbrev pub msg_add_address : ℕ
msg_add_address = 3

abbrev pub msg_connect_status : ℕ
msg_connect_status = 101

abbrev pub msg_listener_accept : ℕ
msg_listener_accept = 102

abbrev pub fd_normal : ℕ
fd_normal = 2

-- A message: its command and the fields of the bodies MsgNotify and MsgSockAddr that are read.
pub record Msg : Type 0 where
  pub cmd : ℕ
  pub value : ℕ  -- `m_data`
  pub is_serv : Bool
  pub ip : List ℕ
  pub port : ℕ

-- The fields of NodeBase that the objects use.
pub record Base : Type 0 where
  pub node_type : NodeType
  pub fd_status : ℕ
  pub wr_err : Bool
  pub wr_que : List Msg

-- What is called: notify, procTick, freeMsg, the call-backs, and operations of the director.
pub data Act : Type 0 where
  notifies : Thread → ℕ → ℕ → Act
  ticks : Thread → ℕ → Act
  frees : Msg → Act
  processes : Msg → Act
  accepts : Act
  adds_listener : List ℕ → ℕ → Act
  adds_connector : List ℕ → ℕ → Act
  adds_event : Flags → Act
  calls_connected : Act
  calls_fail_connect : Act
  calls_closed : Act
  shuts_down : Act
  closes : Act
  deletes : Act
  stops : Act

-- What `readNode` and `writeNode` return and leave.
pub record Done : Type 0 where
  pub event : ℕ
  pub base : Base
  pub acts : List Act

abbrev pub free_all : List Msg → List Act
free_all [] = []
free_all (msg ∷ msgs) = frees msg ∷ free_all msgs

-- TimerObj::procTickTimer.
unfoldable pub proc_tick_timer : Thread → Msg → List Act
proc_tick_timer type msg =
    if msg.cmd == msg_tick_timer
    then ticks type (msg.value % 2 ^ 32) ∷ frees msg ∷ []
    else frees msg ∷ []

abbrev pub tick_all : List Msg → List Act
tick_all [] = []
tick_all (msg ∷ msgs) = proc_tick_timer thread_write msg ++ tick_all msgs

-- TimerObj::readNode, with the count that readEvent gives.
unfoldable pub timer_read_node : Option ℕ → Base → Done
timer_read_node none base = record { event = bit_event_norm; base = base; acts = [] }
timer_read_node (some cnt) base = record {
  event = bit_event_norm;
  base = base;
  acts =
      notifies thread_director msg_tick_timer cnt
      ∷ notifies thread_write msg_tick_timer cnt
      ∷ notifies thread_dealer msg_tick_timer cnt
      ∷ ticks thread_read cnt
      ∷ [];
}

-- TimerObj::writeNode.
unfoldable pub timer_write_node : Base → Done
timer_write_node base = record {
  event = bit_event_norm;
  base = record base { wr_que = [] };
  acts = tick_all base.wr_que;
}

-- EventObj::writeNode and SockListener::writeNode.
unfoldable pub drop_write_node : Base → Done
drop_write_node base = record {
  event = bit_event_norm;
  base = record base { wr_que = [] };
  acts = free_all base.wr_que;
}

-- EventObj::procAddress and procCmd.
unfoldable pub proc_address : Msg → List Act
proc_address msg =
    (if msg.is_serv then adds_listener msg.ip msg.port else adds_connector msg.ip msg.port)
    ∷ frees msg
    ∷ []

unfoldable pub event_proc_cmd : Msg → List Act
event_proc_cmd msg = if msg.cmd == msg_add_address then proc_address msg else frees msg ∷ []

-- SockConnector::writeNode, with the value of chkConnStatus.
unfoldable pub connector_write_node : ℤ → Base → Done
connector_write_node (pos n) base = record {
  event = bit_event_norm;
  base = base;
  acts = notifies thread_director msg_connect_status 0 ∷ [];
}
connector_write_node (negsuc n) base = record {
  event = bit_event_error;
  base = record base { wr_err = true };
  acts = notifies thread_director msg_connect_status 1 ∷ [];
}

-- SockConnector::procConnect, with whether the call-back onConnected gives 0.
unfoldable pub proc_connect : Bool → Base → Msg → Base × List Act
proc_connect welcome base msg =
    if msg.value == 0
    then (
      record base { fd_status = fd_normal; node_type = node_sock },
      calls_connected
          ∷ (if welcome then adds_event (record { rd = true; wr = false }) else closes)
          ∷ frees msg
          ∷ [],
    )
    else (base, calls_fail_connect ∷ closes ∷ frees msg ∷ [])

-- SockConnector::procCmd.
unfoldable pub connector_proc_cmd : Bool → Base → Msg → Base × List Act
connector_proc_cmd welcome base msg =
    if msg.cmd == msg_connect_status then proc_connect welcome base msg else (base, frees msg ∷ [])

-- SockListener::procCmd; `accept` frees the message.
unfoldable pub listener_proc_cmd : Msg → List Act
listener_proc_cmd msg =
    if msg.cmd == msg_listener_accept then accepts ∷ frees msg ∷ [] else frees msg ∷ []

-- ObjCenter::readNode, where a connection returns the event `comm`.
unfoldable pub read_node : ℕ → Option ℕ → Base → Done
read_node comm cnt base = elim base.node_type [
  | node_sock ↦ record { event = comm; base = base; acts = [] }
  | node_connector ↦ record { event = bit_event_norm; base = base; acts = [] }
  | node_event ↦ record { event = bit_event_norm; base = base; acts = [] }
  | node_timer ↦ timer_read_node cnt base
  | node_listener ↦ record {
    event = bit_event_norm;
    base = base;
    acts = notifies thread_director msg_listener_accept 0 ∷ [];
  }
  | no_obj ↦ record { event = bit_event_error; base = base; acts = [] }
]

-- What writeNode leads to: a connection's queue holds messages as bytes, which the message writer
-- sends, the queue of another object messages that it reads.
pub data Outcome : Type 0 where
  connection : WriteDone → Outcome
  object : Done → Outcome

-- ObjCenter::writeNode of the node `base`, which is `side` if it is a connection. `status` is what
-- chkConnStatus gives.
unfoldable pub write_node : Kernel → WriteSide → ℤ → Base → Option Outcome
write_node kernel side status base = elim base.node_type [
  | node_sock ↦ comm_write_node kernel side >>= (λ d. some (connection d))
  | node_connector ↦ some (object (connector_write_node status base))
  | node_event ↦ some (object (drop_write_node base))
  | node_timer ↦ some (object (timer_write_node base))
  | node_listener ↦ some (object (drop_write_node base))
  | no_obj ↦ some (object (record { event = bit_event_error; base = base; acts = [] }))
]

-- ObjCenter::procMsg, where the call-back `process` returns `ret`.
unfoldable pub proc_msg : ℤ → Base → Msg → ℤ × List Act
proc_msg ret base msg = elim base.node_type [
  | node_sock ↦ (ret, processes msg ∷ [])
  | node_connector ↦ (pos 0, frees msg ∷ [])
  | node_event ↦ (pos 0, frees msg ∷ [])
  | node_timer ↦ (pos 0, proc_tick_timer thread_dealer msg)
  | node_listener ↦ (pos 0, frees msg ∷ [])
  | no_obj ↦ (negsuc 0, frees msg ∷ [])
]

-- ObjCenter::procCmd.
unfoldable pub proc_cmd : Bool → Base → Msg → Base × List Act
proc_cmd welcome base msg = elim base.node_type [
  | node_sock ↦ (base, frees msg ∷ [])
  | node_connector ↦ connector_proc_cmd welcome base msg
  | node_event ↦ (base, event_proc_cmd msg)
  | node_timer ↦ (base, proc_tick_timer thread_director msg)
  | node_listener ↦ (base, listener_proc_cmd msg)
  | no_obj ↦ (base, frees msg ∷ [])
]

-- ObjCenter::eof.
unfoldable pub obj_eof : Base → List Act
obj_eof base = elim base.node_type [
  | node_sock ↦ calls_closed ∷ shuts_down ∷ deletes ∷ []
  | node_connector ↦ deletes ∷ []
  | node_event ↦ stops ∷ []
  | node_timer ↦ stops ∷ []
  | node_listener ↦ deletes ∷ []
  | no_obj ↦ []
]
