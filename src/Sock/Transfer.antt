-- ===== src/Sock/Transfer.antt =====
-- From one server to another: the writer of a connection (writeNode of director.cpp) and the reader
-- at its other end (readNode).
use high_perf_server.Base.{
  ℕ, ◌≡◌, refl, sym, ap, ◌∙◌, true, false, some, List, [], ◌∷◌, ◌++◌, map, length, concat, All,
  append-nil,
}
use high_perf_server.Msg.Cache.{Alloc}
use high_perf_server.Msg.Reader.Spec.{IsMessage}
use high_perf_server.Msg.Reader.State.{Allocates}
use high_perf_server.Msg.Reader.Cuts.{delivered}
use high_perf_server.Sock.Read.{Recv, Served, serve, new_conn}
use high_perf_server.Sock.Stream.{stream, fails}
use high_perf_server.Sock.Delivery.{serve_messages}
use high_perf_server.Sock.Write.{WriteSide, Act, pushed, run_sender, acts}
use high_perf_server.Sock.Write.Bytes.{payload}
use high_perf_server.Sock.Write.Flow.{backlog, payloads, IsFair, acts_order}

-- The messages that were pushed, as bytes.
abbrev pub messages : List Act → List (List ℕ)
messages [] = []
messages (pushed true msg ∷ rest) = payload msg ∷ messages rest
messages (pushed false msg ∷ rest) = messages rest
messages (run_sender locked kernel ∷ rest) = messages rest

payloads-messages : (steps : List Act) → payloads steps ≡ concat (messages steps)
payloads-messages [] = refl
payloads-messages (pushed true msg ∷ rest) = ap (λ b. payload msg ++ b) (payloads-messages rest)
payloads-messages (pushed false msg ∷ rest) = payloads-messages rest
payloads-messages (run_sender locked kernel ∷ rest) = payloads-messages rest

abbrev pub new_side : WriteSide
new_side = record { wr_que = []; wr_que_tmp = []; wr_err = false }

-- All the bytes that a new connection sent, when nothing waits any more.
whole_output :
    (steps : List Act) (t : WriteSide) (out : List ℕ)
    → All IsFair steps
    → acts steps new_side ≡ some (t, out)
    → backlog t ≡ []
    → out ≡ concat (messages steps)
whole_output steps t out f e h =
    let (u, out', e', v, k) = acts_order steps new_side f (record { que = tt; tmp = tt }) in
    let same : (u, out') ≡ (t, out) = cc (sym e' ∙ e) in
    sym (append-nil out)
    ∙ ap (λ b. out ++ b) (sym h)
    ∙ sym (ap (λ (p : WriteSide × List ℕ). p.1 ++ backlog p.0) same)
    ∙ k
    ∙ payloads-messages steps

-- If good messages are pushed on a new connection, the sender runs until nothing waits, and the new
-- connection at the other end reads the bytes that were sent, in any pieces, with no failure, and with allocations that succeed, then
-- exactly these messages are given to the dealer there, in order.
pub transfer :
    (steps : List Act) (t : WriteSide) (out : List ℕ) (alloc : Alloc) (hdr : List ℕ)
    (rs : List Recv)
    → All IsFair steps
    → All IsMessage (messages steps)
    → acts steps new_side ≡ some (t, out)
    → backlog t ≡ []
    → Allocates alloc
    → length hdr ≡ 20
    → stream rs ≡ out
    → fails rs ≡ false
    → (s : Served) × (serve alloc (new_conn hdr) rs ≡ some s)
      × (s.sent ≡ map delivered (messages steps))
      × (s.conn.rd_err ≡ false)
transfer steps t out alloc hdr rs f g e h a room same fine =
    serve_messages alloc a hdr room rs (messages steps) g (same ∙ whole_output steps t out f e h)
      fine
