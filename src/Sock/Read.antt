-- ===== src/Sock/Read.antt =====
-- Reading from a socket: recvTcp of sockutil.cpp, MsgReader::read and SockCommObj::readNode of
-- sockobj.cpp, Director::readNode of director.cpp. What the kernel answers is an argument.
use mathlib.Core.Option
use high_perf_server.Base.{
  ℕ, Bool, true, false, Option, none, some, List, [], ◌∷◌, ◌++◌, length, ltb, if◌then◌else◌,
}
use high_perf_server.Base.Partial.{◌>>=◌}
use high_perf_server.Events.{bit_event_norm, bit_event_in, bit_event_error}
use high_perf_server.Msg.Cache.{Cache, Alloc}
use high_perf_server.Msg.Reader.Codes.{Code, ok, bad_header, no_memory}
use high_perf_server.Msg.Reader.{SockBase, parse}

pub data Errno : Type 0 where
  eagain eintr other : Errno

-- What recv(2) does: it puts bytes into the buffer (none at the end of the stream), or fails.
pub data Recv : Type 0 where
  received : List ℕ → Recv
  failed : Errno → Recv

-- The value of recvTcp: above 0 with the bytes, 0, -2 and -1.
pub data RecvLen : Type 0 where
  got : List ℕ → RecvLen
  nothing eof broken : RecvLen

abbrev pub is_transient : Errno → Bool
is_transient eagain = true
is_transient eintr = true
is_transient other = false

unfoldable pub recv_tcp : Recv → RecvLen
recv_tcp (received buf) = if ltb 0 (length buf) then got buf else eof
recv_tcp (failed e) = if is_transient e then nothing else broken

-- The value of MsgReader::read: 1, 0 and -1.
pub data ReadRet : Type 0 where
  more empty error : ReadRet

abbrev pub read_ret : Code → ReadRet
read_ret ok = more
read_ret bad_header = error
read_ret no_memory = error

unfoldable pub read : Alloc → Recv → SockBase → Option (SockBase × List Cache × ReadRet)
read alloc r sock = elim (recv_tcp r) [
  | got buf ↦ parse alloc sock buf >>= (λ p. some (p.sock, p.sent, read_ret p.code))
  | nothing ↦ some (sock, [], empty)
  | eof ↦ some (sock, [], error)
  | broken ↦ some (sock, [], error)
]

-- The fields of NodeBase and SockBase that reading changes.
pub record Conn : Type 0 where
  pub sock : SockBase
  pub rd_err : Bool

-- What a call of `readNode` leaves: the connection, the messages for the dealer, whether the node is
-- told to close, and the event that it returns.
pub record ReadDone : Type 0 where
  pub conn : Conn
  pub sent : List Cache
  pub closes : Bool
  pub event : ℕ

-- SockCommObj::readNode
abbrev pub read_event : Conn → SockBase × List Cache × ReadRet → ReadDone
read_event c (sock, sent, empty) = record {
  conn = record c { sock = sock };
  sent = sent;
  closes = false;
  event = bit_event_norm;
}
read_event c (sock, sent, more) = record {
  conn = record c { sock = sock };
  sent = sent;
  closes = false;
  event = bit_event_in;
}
read_event c (sock, sent, error) = record {
  conn = record { sock = sock; rd_err = true };
  sent = sent;
  closes = true;
  event = bit_event_error;
}

unfoldable pub comm_read_node : Alloc → Recv → Conn → Option ReadDone
comm_read_node alloc r c = read alloc r c.sock >>= (λ t. some (read_event c t))

-- Director::readNode: a node that has failed is not read again.
unfoldable pub read_node : Alloc → Recv → Conn → Option ReadDone
read_node alloc r c =
    if c.rd_err
    then some (record { conn = c; sent = []; closes = true; event = bit_event_error })
    else comm_read_node alloc r c

-- The calls of `readNode` on one node, one behind the other.
pub record Served : Type 0 where
  pub conn : Conn
  pub sent : List Cache

abbrev pub served_first : List Cache → Served → Served
served_first sent s = record s { sent = sent ++ s.sent }

unfoldable pub serve : Alloc → Conn → List Recv → Option Served
serve alloc c [] = some (record { conn = c; sent = [] })
serve alloc c (r ∷ rs) =
    read_node alloc r c >>= (λ d. Option.map (served_first d.sent) (serve alloc d.conn rs))

-- A new node, as `buildSock` makes it.
abbrev pub new_conn : List ℕ → Conn
new_conn hdr = record {
  sock = record { rcv_dummy = none; rdlen = 0; hdr_buf = hdr };
  rd_err = false;
}
