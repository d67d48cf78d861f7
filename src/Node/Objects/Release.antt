-- ===== src/Node/Objects/Release.antt =====
-- No message that goes to an object (objcenter.cpp) is lost or freed twice.
use high_perf_server.Base.{
  All, some, none, Option, ℕ, ◌≡◌, refl, ap, ◌∙◌, Bool, true, false, List, [], ◌∷◌, ◌++◌,
  append-nil, ◌%◌, ◌^◌, ◌==◌, if◌then◌else◌, Bool-cases, inl, inr,
}
use high_perf_server.Base.Partial.{◌>>=◌}
use high_perf_server.Sock.Write.{Kernel, WriteSide, comm_write_node}
use high_perf_server.Sock.Write.Bytes.{IsReady}
use high_perf_server.Sock.Write.Freed.{Freed, comm_write_node-Freed}
use high_perf_server.Base.Int.{ℤ, pos, negsuc}
use high_perf_server.Node.Deal.{Thread, thread_director, thread_write, thread_dealer}
use high_perf_server.Node.Objects.{
  NodeType, node_sock, node_connector, node_event, node_timer, node_listener, no_obj, Msg, Base,
  Act, notifies, ticks, frees, processes, accepts, adds_listener, adds_connector, adds_event,
  calls_connected, calls_fail_connect, calls_closed, shuts_down, closes, deletes, stops, free_all,
  tick_all, proc_tick_timer, timer_write_node, drop_write_node, proc_address, event_proc_cmd,
  connector_write_node, proc_connect, connector_proc_cmd, listener_proc_cmd, write_node, Outcome,
  connection, object, proc_msg, proc_cmd, msg_tick_timer, msg_add_address, msg_connect_status,
  msg_listener_accept,
}

-- The messages that are given up: freed, or handed to the program's call-back.
abbrev pub released : List Act → List Msg
released [] = []
released (notifies t c d ∷ acts) = released acts
released (ticks t n ∷ acts) = released acts
released (frees msg ∷ acts) = msg ∷ released acts
released (processes msg ∷ acts) = msg ∷ released acts
released (accepts ∷ acts) = released acts
released (adds_listener ip port ∷ acts) = released acts
released (adds_connector ip port ∷ acts) = released acts
released (adds_event ev ∷ acts) = released acts
released (calls_connected ∷ acts) = released acts
released (calls_fail_connect ∷ acts) = released acts
released (calls_closed ∷ acts) = released acts
released (shuts_down ∷ acts) = released acts
released (closes ∷ acts) = released acts
released (deletes ∷ acts) = released acts
released (stops ∷ acts) = released acts

tick_timer_releases : (t : Thread) (msg : Msg) → released (proc_tick_timer t msg) ≡ msg ∷ []
unfolding proc_tick_timer
tick_timer_releases t msg = elim (Bool-cases (msg.cmd == msg_tick_timer)) [
  | inl e ↦ rw (proc_tick_timer, e)
  | inr e ↦ rw (proc_tick_timer, e)
]

free_all_releases : (msgs : List Msg) → released (free_all msgs) ≡ msgs
free_all_releases [] = refl
free_all_releases (msg ∷ msgs) = ap (λ ms. msg ∷ ms) (free_all_releases msgs)

tick_step :
    (b : Bool) (n : ℕ) (msg : Msg) (acts : List Act)
    → released ((if b then ticks thread_write n ∷ frees msg ∷ [] else frees msg ∷ []) ++ acts)
      ≡ msg ∷ released acts
tick_step true n msg acts = refl
tick_step false n msg acts = refl

tick_all_releases : (msgs : List Msg) → released (tick_all msgs) ≡ msgs
unfolding proc_tick_timer
tick_all_releases [] = refl
tick_all_releases (msg ∷ msgs) =
    tick_step (msg.cmd == msg_tick_timer) (msg.value % 2 ^ 32) msg (tick_all msgs)
    ∙ ap (λ ms. msg ∷ ms) (tick_all_releases msgs)

connect_releases :
    (welcome : Bool) (base : Base) (msg : Msg)
    → released ((proc_connect welcome base msg).1) ≡ msg ∷ []
unfolding proc_connect
connect_releases true base msg = elim (Bool-cases (msg.value == 0)) [
  | inl e ↦ rw (proc_connect, e)
  | inr e ↦ rw (proc_connect, e)
]
connect_releases false base msg = elim (Bool-cases (msg.value == 0)) [
  | inl e ↦ rw (proc_connect, e)
  | inr e ↦ rw (proc_connect, e)
]

connector_releases :
    (welcome : Bool) (base : Base) (msg : Msg)
    → released ((connector_proc_cmd welcome base msg).1) ≡ msg ∷ []
unfolding connector_proc_cmd
connector_releases welcome base msg = elim (Bool-cases (msg.cmd == msg_connect_status)) [
  | inl e ↦ rw (connector_proc_cmd, e) (connect_releases welcome base msg)
  | inr e ↦ rw (connector_proc_cmd, e)
]

address_releases : (msg : Msg) → released (proc_address msg) ≡ msg ∷ []
unfolding proc_address
address_releases msg = elim (Bool-cases msg.is_serv) [
  | inl e ↦ rw (proc_address, e)
  | inr e ↦ rw (proc_address, e)
]

event_releases : (msg : Msg) → released (event_proc_cmd msg) ≡ msg ∷ []
unfolding event_proc_cmd
event_releases msg = elim (Bool-cases (msg.cmd == msg_add_address)) [
  | inl e ↦ rw (event_proc_cmd, e) (address_releases msg)
  | inr e ↦ rw (event_proc_cmd, e)
]

listener_releases : (msg : Msg) → released (listener_proc_cmd msg) ≡ msg ∷ []
unfolding listener_proc_cmd
listener_releases msg = elim (Bool-cases (msg.cmd == msg_listener_accept)) [
  | inl e ↦ rw (listener_proc_cmd, e)
  | inr e ↦ rw (listener_proc_cmd, e)
]

cmd_releases :
    (welcome : Bool) (base : Base) (msg : Msg) (t : NodeType)
    → base.node_type ≡ t
    → released ((proc_cmd welcome base msg).1) ≡ msg ∷ []
unfolding proc_cmd
cmd_releases welcome base msg node_sock e = rw (proc_cmd, e)
cmd_releases welcome base msg node_connector e =
    rw (proc_cmd, e) (connector_releases welcome base msg)
cmd_releases welcome base msg node_event e = rw (proc_cmd, e) (event_releases msg)
cmd_releases welcome base msg node_timer e =
    rw (proc_cmd, e) (tick_timer_releases thread_director msg)
cmd_releases welcome base msg node_listener e = rw (proc_cmd, e) (listener_releases msg)
cmd_releases welcome base msg no_obj e = rw (proc_cmd, e)

msg_releases :
    (ret : ℤ) (base : Base) (msg : Msg) (t : NodeType)
    → base.node_type ≡ t
    → released ((proc_msg ret base msg).1) ≡ msg ∷ []
unfolding proc_msg
msg_releases ret base msg node_sock e = rw (proc_msg, e)
msg_releases ret base msg node_connector e = rw (proc_msg, e)
msg_releases ret base msg node_event e = rw (proc_msg, e)
msg_releases ret base msg node_timer e = rw (proc_msg, e) (tick_timer_releases thread_dealer msg)
msg_releases ret base msg node_listener e = rw (proc_msg, e)
msg_releases ret base msg no_obj e = rw (proc_msg, e)

connector_writes :
    (status : ℤ) (base : Base)
    → released (connector_write_node status base).acts
        ++ (connector_write_node status base).base.wr_que
      ≡ base.wr_que
unfolding connector_write_node
connector_writes (pos n) base = refl
connector_writes (negsuc n) base = refl

drop_writes :
    (base : Base)
    → released (drop_write_node base).acts ++ (drop_write_node base).base.wr_que ≡ base.wr_que
unfolding drop_write_node
drop_writes base = append-nil (released (free_all base.wr_que)) ∙ free_all_releases base.wr_que

timer_writes :
    (base : Base)
    → released (timer_write_node base).acts ++ (timer_write_node base).base.wr_que ≡ base.wr_que
unfolding timer_write_node
timer_writes base = append-nil (released (tick_all base.wr_que)) ∙ tick_all_releases base.wr_que

-- What the writing of a node makes of its queue.
abbrev pub WriteReleases : WriteSide → Base → Option Outcome → Type 0
WriteReleases side base none = ⊥
WriteReleases side base (some (connection d)) = Freed side.wr_que d.freed d.side.wr_que
WriteReleases side base (some (object d)) = released d.acts ++ d.base.wr_que ≡ base.wr_que

conn_writes :
    (kernel : Kernel) (side : WriteSide) (base : Base)
    → All IsReady side.wr_que
    → WriteReleases side base (comm_write_node kernel side >>= (λ d. some (connection d)))
conn_writes kernel side base v = let (d, e, f) = comm_write_node-Freed kernel side v in rw e f

write_releases :
    (kernel : Kernel) (side : WriteSide) (status : ℤ) (base : Base) (t : NodeType)
    → base.node_type ≡ t
    → All IsReady side.wr_que
    → WriteReleases side base (write_node kernel side status base)
unfolding write_node
write_releases kernel side status base node_sock e v =
    rw (write_node, e) (conn_writes kernel side base v)
write_releases kernel side status base node_connector e v =
    rw (write_node, e) (connector_writes status base)
write_releases kernel side status base node_event e v = rw (write_node, e) (drop_writes base)
write_releases kernel side status base node_timer e v = rw (write_node, e) (timer_writes base)
write_releases kernel side status base node_listener e v = rw (write_node, e) (drop_writes base)
write_releases kernel side status base no_obj e v = rw (write_node, e) refl

-- Whatever the type of a node, procMsg and procCmd give up the message that they get, once, and no
-- other; writeNode gives up each message of the queue once, in its order, or leaves it there. Of a
-- connection, whose messages have their positions within their bytes, it frees the first messages of
-- the queue, each once, and leaves the others in their order, the first of them cut at its front, or
-- whole; it has no undefined behaviour, whatever the kernel answers.
pub messages_released :
    (kernel : Kernel) (side : WriteSide) (ret status : ℤ) (welcome : Bool) (base : Base) (msg : Msg)
    → All IsReady side.wr_que
    → (released ((proc_msg ret base msg).1) ≡ msg ∷ [])
      × (released ((proc_cmd welcome base msg).1) ≡ msg ∷ [])
      × WriteReleases side base (write_node kernel side status base)
messages_released kernel side ret status welcome base msg v = (
  msg_releases ret base msg base.node_type refl,
  cmd_releases welcome base msg base.node_type refl,
  write_releases kernel side status base base.node_type refl v,
)
