-- ===== src/Lib.antt =====
-- high_perf_server: a message server that spreads the work on its connections over a receiver, a
-- sender, a dealer and a director thread. This library models its core.
--
-- The program. Each connection is a node with one task for each thread. A task has a word of events
-- (BitDoor, src/tasker.cpp); a thread that has work for another one checks an event in and, if it is
-- the one that has to, pushes the task to the other thread's pool (Pooler). That thread runs its
-- tasks until they are released. The receiver runs readNode, which reads what the kernel has and
-- cuts it into messages (MsgReader, src/sockobj.cpp), in buffers of CacheCenter (src/msgcenter.cpp).
--
-- The model.
--   Base, with Tests, Lists, Int, Partial and Bits: Boolean tests, lists, integers, undefined
--     behaviour as `none`, and the bits of a word, over the native numbers.
--   Events: enum BIT_EVENT_TYPE of src/tasker.h.
--   Msg.Cache: CacheCenter. A buffer is its bytes with a capacity, a position and a size. What
--     `new` gives is a parameter, `Alloc`: any bytes of the length asked for, or nothing.
--   Msg.Header: struct MsgHdr of src/msgtype.h as 20 bytes, chkHeader, MsgCenter::creat.
--   Msg.Reader: parse, parseHeader, parseBody, parseNextBody and dispatch, which share the socket's
--     partial header and partial message. The loop of parseNextBody has as much fuel as bytes are
--     left and one more: each round takes a byte away at least. Spec says what a stream is to be cut
--     into; State, Cuts, Rounds, Loop, Body and Refines have the proofs.
--   Sock.Read: recvTcp (src/sockutil.cpp), MsgReader::read, SockCommObj::readNode and
--     Director::readNode, called again and again on a list of answers of the kernel, which are
--     arguments. Sock.Stream and Sock.Delivery: the byte stream of these answers and what the dealer
--     gets of it.
--   Sock.Write: sendVec (src/sockutil.cpp), MsgWriter and SockCommObj::writeNode (src/sockobj.cpp),
--     Director::writeNode and pushWrite (src/director.cpp), Sender::procNodeQue (src/sender.cpp). The
--     kernel is a function of what it is offered, which takes no more than that. Bytes, Order and Flow
--     are about what is sent, Freed about the messages that are freed; Sock.Transfer joins the writer to a reader at the other end.
--   Task.Atomic: BitTool. The compare-exchange loop runs on the list of the values that the word has
--     at its attempts, whatever other threads do; add_bit is the same as one step.
--   Task.Door: BitDoor on words of 32 bits. Words and Laws: its operations bit by bit.
--   Task.Pooler and Task.Shared: Pooler::add, __add, __splice, consume and doTask, for one task as a
--     step relation: any number of producers and the worker interleave, each step is one access to
--     shared memory or one section under the pool's lock, and the result of procTask is left open.
--     Shapes says what the word, the queues and the worker's place are together; Arrived, CheckIn, Visits,
--     Invariant, Arrivals and Lost are about what each step makes of it.
--   Task.Binary and Task.Wakeup: BinaryDoor, Tasker::run, resume and stopRun, with the eventfd of
--     EventWaiter (src/taskpool.cpp), as a step relation on one worker and any number of producers.
--     Invariant and Waking are about wake-ups. The mutex and signal waiters are not modelled.
--   Node.Close: close, procStopMsg and procTaskEnd of src/director.cpp, with procTaskEnd of the other
--     threads (src/receiver.cpp, src/sender.cpp, src/dealer.cpp), as a step relation on one node. The
--     life of a task is its word of Task.Door, as far as its end goes. Chain, Invariant and Order are
--     about the order, Ends about the end, Notices about stop messages that are sent or lost.
--   Node.Deal: pushMsg and what it calls, and dealMsg (src/director.cpp), procNodeQue of the dealer
--     (src/dealer.cpp). procMsg is a parameter that may depend on what it was given before. Fifo is
--     about the order.
--   Node.Epoll: addEvent and delEvent (src/sockepoll.cpp) and the loop of SockListener::accept
--     (src/sockobj.cpp). Count is about the size. Node.Epoll.Wait: waitEvent and waitWr on any answers of
--     epoll_wait, with Due about the entries.
--   Sock.Calls: the functions of src/sockutil.cpp that make descriptors, on any answers of the kernel,
--     with the open descriptors as state; Leaks is about what stays open. Sock.Address: its addresses,
--     with inet_pton and inet_ntop as parameters, and Parser::parseAddr of src/config.cpp.
--   Node.Objects: ObjCenter (src/objcenter.cpp), TimerObj and EventObj (src/timerobj.cpp), SockConnector
--     and the command of SockListener (src/sockobj.cpp), as functions from a node and a message to a
--     list of acts. Release is about the messages. Node.Build: buildNode and freeNode
--     (src/objcenter.cpp), with Freed about what is given back. Node.Director: creatNode,
--     delNode, addListener and addConnector (src/director.cpp), startClient (src/server.cpp) and the loop of
--     SockListener::accept on the list of the nodes, with Counts and
--     Owned about the sockets.
--   Timer: TickTimer (src/ticktimer.cpp), the slots as functions from their numbers to lists, the
--     ticks and expiries modulo 2 ^ 32. doTimeout is a parameter. Wheel says where a timer stands,
--     Turn and Firing are about when it is taken out.
--   Links: the circular lists of src/listnode.h, memory being a function of the addresses. Cells, Chain
--     and Places are about links in memory, Insert, Remove, Splice, Join and Replace about the operations, and
--     Walk about the loops over a list, on fuel: one step for each node and one more is enough.
--     Links.Root: struct root, in the same way, with the loop of Pooler::consume over it, on fuel. Queue,
--     Fifo and Consume have the proofs.
--   Config: Parser of src/config.cpp, the file being its bytes. Text has the string functions, Pattern
--     the regular expression of getKeyVal, as a function; Cutting, Matching, Lines, Accepted and Roundtrip are
--     about what is parsed. Config.Global: analyseGlobal and init, with Complete about what they accept.
--   Tests: runs of the model, and the theorems at concrete values.
--
-- Not modelled: the system calls themselves, threads and signals, logging, and
-- the parts of the director and of epoll that no file above names, and the
-- ordered lists of src/listnode.h, which nothing uses.
pub mod Base
pub mod Config
pub mod Events
pub mod Msg
pub mod Links
pub mod Node
pub mod Sock
pub mod Task
pub mod Tests
pub mod Timer
