-- ===== src/Sock/Write/Flow.antt =====
-- What a connection sends of what is pushed (writeNode and pushWrite of director.cpp, procNodeQue of
-- sender.cpp, called in any order).
use high_perf_server.Base.{
  ℕ, ◌<◌, ◌≡◌, refl, sym, ap, ◌∙◌, inl, inr, Bool, true, false, some, List, [], ◌∷◌, ◌++◌, map,
  arith, length, concat, All, if◌then◌else◌, Bool-cases, append_assoc, append-nil, concat-append,
  map-append,
}
use high_perf_server.Events.{bit_event_norm, bit_event_in, bit_event_write, bit_event_error}
use high_perf_server.Msg.Cache.{Cache}
use high_perf_server.Sock.Write.{
  WriteRet, all_sent, has_more, blocked, write_error, Written, Kernel, WriteSide, WriteDone,
  event_of, is_write_error, write_event, write_node, proc_node_que, push_write, Act, pushed,
  run_sender, act, acts,
}
use high_perf_server.Sock.Write.Bytes.{payload, waiting, IsReady}
use high_perf_server.Sock.Write.Order.{Takes, Sends, send_que-Sends}

-- What one run of the sender is to leave, from the side `s`: the bytes of both queues.
abbrev pub backlog : WriteSide → List ℕ
backlog s = waiting s.wr_que ++ waiting s.wr_que_tmp

pub record IsSound (s : WriteSide) : Type 0 where
  pub que : All IsReady s.wr_que
  pub tmp : All IsReady s.wr_que_tmp

All-append : (xs ys : List Cache) → All IsReady xs → All IsReady ys → All IsReady (xs ++ ys)
All-append [] ys v w = w
All-append (x ∷ xs) ys (a, v) w = (a, All-append xs ys v w)

waiting-append : (xs ys : List Cache) → waiting (xs ++ ys) ≡ waiting xs ++ waiting ys
waiting-append xs ys =
    ap concat (map-append payload xs ys) ∙ concat-append (map payload xs) (map payload ys)

-- The event that a run of the sender returns tells what is left.
pub record Runs (s : WriteSide) (d : WriteDone) : Type 0 where
  pub sound : IsSound d.side
  pub kept : d.out ++ backlog d.side ≡ backlog s
  pub all : d.event ≡ bit_event_norm → d.side.wr_que ≡ []
  pub more : d.event ≡ bit_event_in → 0 < length d.out
  pub stuck : d.event ≡ bit_event_write → (d.out ≡ []) × (d.side.wr_err ≡ false)
  pub error : d.event ≡ bit_event_error → d.side.wr_err ≡ true

write_event-Runs :
    (s : WriteSide) (w : Written)
    → IsSound s
    → s.wr_err ≡ false
    → Sends s.wr_que w
    → Runs s (write_event s w)
write_event-Runs s w v e h = record {
  sound = record { que = h.ready; tmp = v.tmp };
  kept =
      sym (append_assoc w.out (waiting w.que) (waiting s.wr_que_tmp))
      ∙ ap (λ b. b ++ waiting s.wr_que_tmp) h.kept;
  all = λ f. h.all (norm w.ret f);
  more = λ f. (h.more (has w.ret f)).1;
  stuck = λ f. let g = stop w.ret f in ((h.same (inl g)).0, rw (g, e));
  error = λ f. fail w.ret f;
}
  where
    norm : (r : WriteRet) → event_of r ≡ bit_event_norm → r ≡ all_sent
    norm all_sent f = refl
    norm has_more f = absurd (omega (arith, f))
    norm blocked f = absurd (omega (arith, f))
    norm write_error f = absurd (omega (arith, f))

    has : (r : WriteRet) → event_of r ≡ bit_event_in → r ≡ has_more
    has has_more f = refl
    has all_sent f = absurd (omega (arith, f))
    has blocked f = absurd (omega (arith, f))
    has write_error f = absurd (omega (arith, f))

    stop : (r : WriteRet) → event_of r ≡ bit_event_write → r ≡ blocked
    stop blocked f = refl
    stop all_sent f = absurd (omega (arith, f))
    stop has_more f = absurd (omega (arith, f))
    stop write_error f = absurd (omega (arith, f))

    fail :
        (r : WriteRet)
        → event_of r ≡ bit_event_error
        → (if is_write_error r then true else s.wr_err) ≡ true
    fail write_error f = refl
    fail all_sent f = absurd (omega (arith, f))
    fail has_more f = absurd (omega (arith, f))
    fail blocked f = absurd (omega (arith, f))

write_node-Runs :
    (kernel : Kernel) (s : WriteSide)
    → Takes kernel
    → IsSound s
    → (d : WriteDone) × (write_node kernel s ≡ some d) × Runs s d
write_node-Runs kernel s t v = elim (Bool-cases s.wr_err) [
  | inl failed ↦ (
    record { side = s; freed = []; out = []; closes = true; event = bit_event_error },
    unfold write_node in (rw failed),
    record {
      sound = v;
      kept = refl;
      all = λ f. absurd (omega (arith, f));
      more = λ f. absurd (omega (arith, f));
      stuck = λ f. absurd (omega (arith, f));
      error = λ _. failed;
    },
  )
  | inr going ↦
      let (w, e, h) = send_que-Sends kernel s.wr_que t v.que in
      (write_event s w, unfold write_node in (rw (going, e)), write_event-Runs s w v going h)
]

abbrev joined : WriteSide → WriteSide
joined s = record s { wr_que = s.wr_que ++ s.wr_que_tmp; wr_que_tmp = [] }

-- Every run of the sender on sound queues, with a kernel that takes no more than it is offered,
-- returns without undefined behaviour. The bytes that the kernel took and those that are left are,
-- in this order, the bytes that waited. If the run returns NORM the queue is empty, with IN bytes
-- were taken, with WRITE none were and there is no error, and with ERROR the node is marked.
pub proc_node_que-Runs :
    (locked : Bool) (kernel : Kernel) (s : WriteSide)
    → Takes kernel
    → IsSound s
    → (d : WriteDone) × (proc_node_que locked kernel s ≡ some d) × Runs s d
unfolding proc_node_que
proc_node_que-Runs false kernel s t v = write_node-Runs kernel s t v
proc_node_que-Runs true kernel s t v =
    let (d, e, h) = write_node-Runs kernel (joined s) t joined-IsSound in
    (
      d,
      e,
      record {
        sound = h.sound;
        kept =
            h.kept ∙ append-nil (waiting (joined s).wr_que) ∙ waiting-append s.wr_que s.wr_que_tmp;
        all = h.all;
        more = h.more;
        stuck = h.stuck;
        error = h.error;
      },
    )
  where
    joined-IsSound : IsSound (joined s)
    joined-IsSound = record { que = All-append s.wr_que s.wr_que_tmp v.que v.tmp; tmp = tt }

-- The bytes that are pushed.
abbrev pub payloads : List Act → List ℕ
payloads [] = []
payloads (pushed true msg ∷ rest) = payload msg ++ payloads rest
payloads (pushed false msg ∷ rest) = payloads rest
payloads (run_sender locked kernel ∷ rest) = payloads rest

abbrev pub IsFair : Act → Type 0
IsFair (pushed locked msg) = IsReady msg
IsFair (run_sender locked kernel) = Takes kernel

act_lem :
    (a : Act) (s : WriteSide)
    → IsFair a
    → IsSound s
    → (t : WriteSide) × (out : List ℕ) × (act a s ≡ some (t, out))
      × IsSound t
      × (out ++ backlog t ≡ backlog s ++ payloads (a ∷ []))
unfolding act push_write
act_lem (pushed true msg) s f v = (
  _,
  [],
  refl,
  record { que = v.que; tmp = All-append s.wr_que_tmp (msg ∷ []) v.tmp (f, tt) },
  ap (λ b. waiting s.wr_que ++ b) (waiting-append s.wr_que_tmp (msg ∷ []))
      ∙ sym (append_assoc (waiting s.wr_que) (waiting s.wr_que_tmp) (payload msg ++ [])),
)
act_lem (pushed false msg) s f v = (s, [], refl, v, sym (append-nil (backlog s)))
act_lem (run_sender locked kernel) s f v =
    let (d, e, h) = proc_node_que-Runs locked kernel s f v in
    (d.side, d.out, rw e, h.sound, h.kept ∙ sym (append-nil (backlog s)))

payloads_cons :
    (a : Act) (rest : List Act) → payloads (a ∷ rest) ≡ payloads (a ∷ []) ++ payloads rest
payloads_cons (pushed true msg) rest = ap (λ b. b ++ payloads rest) (sym (append-nil (payload msg)))
payloads_cons (pushed false msg) rest = refl
payloads_cons (run_sender locked kernel) rest = refl

-- However messages are pushed and the sender is run, and however much the kernels take each time,
-- the bytes that were sent and then those that still wait are the bytes that waited at first and
-- then those that were pushed, in order: none is lost, none is sent twice.
pub acts_order :
    (steps : List Act) (s : WriteSide)
    → All IsFair steps
    → IsSound s
    → (t : WriteSide) × (out : List ℕ) × (acts steps s ≡ some (t, out))
      × IsSound t
      × (out ++ backlog t ≡ backlog s ++ payloads steps)
unfolding acts
acts_order [] s f v = (s, [], refl, v, sym (append-nil (backlog s)))
acts_order (a ∷ rest) s (f, fs) v =
    let (t, out, e, w, k) = act_lem a s f v in
    let (u, more, e', w', k') = acts_order rest t fs w in
    (
      u,
      out ++ more,
      rw (e, e'),
      w',
      append_assoc out more (backlog u)
          ∙ ap (λ b. out ++ b) k'
          ∙ sym (append_assoc out (backlog t) (payloads rest))
          ∙ ap (λ b. b ++ payloads rest) k
          ∙ append_assoc (backlog s) (payloads (a ∷ [])) (payloads rest)
          ∙ ap (λ b. backlog s ++ b) (sym (payloads_cons a rest)),
    )
