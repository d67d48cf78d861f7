-- ===== src/Sock/Write.antt =====
-- Writing to a socket: sendVec of sockutil.cpp, MsgWriter and SockCommObj::writeNode of sockobj.cpp,
-- Director::writeNode and pushWrite of director.cpp, Sender::procNodeQue of sender.cpp. What the
-- kernel answers, and whether a lock is taken, are arguments. `none` is undefined behaviour: a vector
-- that leaves its buffer.
pub mod Bytes
pub mod Order
pub mod Freed
pub mod Flow
use mathlib.Core.Option
use high_perf_server.Base.{
  ℕ, suc, ◌+◌, ◌-◌, Bool, true, false, ◌&&◌, Option, none, some, List, [], ◌∷◌, ◌++◌, length, take,
  concat, ltb, leb, if◌then◌else◌,
}
use high_perf_server.Base.Int.{ℤ, pos, negsuc, leb_ℤ, pos_part, neg_part}
use high_perf_server.Base.Partial.{◌>>=◌}
use high_perf_server.Events.{bit_event_norm, bit_event_write, bit_event_in, bit_event_error}
use high_perf_server.Msg.Cache.{Cache, remain, buffer, skip}
use high_perf_server.Sock.Read.{Errno, eagain}

abbrev pub def_vec_size : ℕ
def_vec_size = 100

abbrev pub def_tcp_send_buf_size : ℕ
def_tcp_send_buf_size = 0x100000

-- What sendmsg(2) does with the bytes that it is offered: it takes the first of them, or fails.
pub data Send : Type 0 where
  taken : ℕ → Send
  refused : Errno → Send

-- The value of sendVec: above 0, 0 and -1.
pub data SendLen : Type 0 where
  wrote : ℕ → SendLen
  would_block broken_pipe : SendLen

unfoldable pub send_vec : Send → SendLen
send_vec (taken n) = if ltb 0 n then wrote n else would_block
send_vec (refused eagain) = would_block
send_vec (refused e) = broken_pipe

-- One entry of `m_vec`, for what `remain` gives.
abbrev pub vec_of_len : ℤ → Cache → Option (List ℕ)
vec_of_len (pos n) msg = if leb n (length (buffer msg)) then some (take n (buffer msg)) else none
vec_of_len (negsuc n) msg = none

unfoldable pub vec_of : Cache → Option (List ℕ)
vec_of msg = vec_of_len (remain msg) msg

-- The first loop of `sendQue`.
unfoldable pub gather : ℕ → ℕ → List Cache → Option (List (List ℕ))
gather cnt total [] = some []
gather cnt total (msg ∷ list) =
    if ltb cnt def_vec_size && ltb total def_tcp_send_buf_size
    then vec_of msg >>= (λ v. Option.map (◌∷◌ v) (gather (suc cnt) (total + length v) list))
    else some []

-- The queue that is left, and whether it is empty.
unfoldable pub prune : List Cache → ℕ → List Cache × Bool
prune [] maxlen = ([], true)
prune (msg ∷ list) maxlen =
    let rest = prune list (maxlen - pos_part (remain msg) + neg_part (remain msg)) in
    if leb_ℤ (remain msg) (pos maxlen) then rest else (skip msg maxlen ∷ list, false)

-- The messages that `prune` frees.
unfoldable pub pruned_msgs : List Cache → ℕ → List Cache
pruned_msgs [] maxlen = []
pruned_msgs (msg ∷ list) maxlen =
    let rest = pruned_msgs list (maxlen - pos_part (remain msg) + neg_part (remain msg)) in
    if leb_ℤ (remain msg) (pos maxlen) then msg ∷ rest else []

-- The value of MsgWriter::write: 0, 2, 1 and -1.
pub data WriteRet : Type 0 where
  all_sent has_more blocked write_error : WriteRet

-- What a call of `sendQue` leaves: the queue, the messages that are freed, the bytes that the kernel
-- took, and its value.
pub record Written : Type 0 where
  pub que : List Cache
  pub freed : List Cache
  pub out : List ℕ
  pub ret : WriteRet

-- The kernel, as a function of what it is offered.
abbrev pub Kernel : Type 0
Kernel = List (List ℕ) → Send

unfoldable pub sent_vec : List Cache → List (List ℕ) → SendLen → Written
sent_vec list vec (wrote n) =
    let (list', done) = prune list n in
    record {
      que = list';
      freed = pruned_msgs list n;
      out = take n (concat vec);
      ret = if done then all_sent else has_more;
    }
sent_vec list vec would_block = record { que = list; freed = []; out = []; ret = blocked }
sent_vec list vec broken_pipe = record { que = list; freed = []; out = []; ret = write_error }

unfoldable pub send_que : Kernel → List Cache → Option Written
send_que kernel [] = some (record { que = []; freed = []; out = []; ret = all_sent })
send_que kernel (msg ∷ list) =
    gather 0 0 (msg ∷ list) >>= (λ vec. some (sent_vec (msg ∷ list) vec (send_vec (kernel vec))))

-- The fields of NodeBase that writing changes.
pub record WriteSide : Type 0 where
  pub wr_que : List Cache
  pub wr_que_tmp : List Cache
  pub wr_err : Bool

pub record WriteDone : Type 0 where
  pub side : WriteSide
  pub freed : List Cache
  pub out : List ℕ
  pub closes : Bool
  pub event : ℕ

abbrev pub event_of : WriteRet → ℕ
event_of all_sent = bit_event_norm
event_of blocked = bit_event_write
event_of has_more = bit_event_in
event_of write_error = bit_event_error

abbrev pub is_write_error : WriteRet → Bool
is_write_error write_error = true
is_write_error ret = false

-- What SockCommObj::writeNode does behind MsgWriter::write.
abbrev pub write_event : WriteSide → Written → WriteDone
write_event s w = record {
  side = record s { wr_que = w.que; wr_err = if is_write_error w.ret then true else s.wr_err };
  freed = w.freed;
  out = w.out;
  closes = is_write_error w.ret;
  event = event_of w.ret;
}

-- SockCommObj::writeNode
abbrev pub comm_write_node : Kernel → WriteSide → Option WriteDone
comm_write_node kernel s = send_que kernel s.wr_que >>= (λ w. some (write_event s w))

-- Director::writeNode
unfoldable pub write_node : Kernel → WriteSide → Option WriteDone
write_node kernel s =
    if s.wr_err
    then some (record { side = s; freed = []; out = []; closes = true; event = bit_event_error })
    else comm_write_node kernel s

-- Sender::procNodeQue; `locked` is whether the lock of the node is taken.
unfoldable pub proc_node_que : Bool → Kernel → WriteSide → Option WriteDone
proc_node_que locked kernel s =
    let s' =
      if locked then record s { wr_que = s.wr_que ++ s.wr_que_tmp; wr_que_tmp = [] } else s in
    write_node kernel s'

-- Director::pushWrite, but for the task that it adds; a message is freed if the lock fails.
unfoldable pub push_write : Bool → Cache → WriteSide → WriteSide
push_write locked msg s = if locked then record s { wr_que_tmp = s.wr_que_tmp ++ msg ∷ [] } else s

-- What befalls the node: messages that are pushed, and runs of the sender.
pub data Act : Type 0 where
  pushed : Bool → Cache → Act
  run_sender : Bool → Kernel → Act

unfoldable pub act : Act → WriteSide → Option (WriteSide × List ℕ)
act (pushed locked msg) s = some (push_write locked msg s, [])
act (run_sender locked kernel) s = proc_node_que locked kernel s >>= (λ d. some (d.side, d.out))

unfoldable pub acts : List Act → WriteSide → Option (WriteSide × List ℕ)
acts [] s = some (s, [])
acts (a ∷ rest) s = act a s >>= (λ (t, out). acts rest t >>= (λ (u, more). some (u, out ++ more)))
