-- ===== src/Sock/Write/Freed.antt =====
-- The messages that the writer frees (prune of sockobj.cpp).
use high_perf_server.Base.{
  ℕ, ◌+◌, ◌-◌, ◌≡◌, refl, ap, some, List, [], ◌∷◌, ◌++◌, All, Bool-cases, inl, inr,
}
use high_perf_server.Base.Int.{pos, leb_ℤ, pos_part, neg_part}
use high_perf_server.Msg.Cache.{Cache, remain, skip}
use high_perf_server.Sock.Write.{
  SendLen, wrote, would_block, broken_pipe, prune, pruned_msgs, Written, Kernel, WriteSide,
  WriteDone, sent_vec, send_que, send_vec, write_event, comm_write_node,
}
use high_perf_server.Sock.Write.Bytes.{IsReady, gather_lem}

-- What stays in a queue: all of it, or all of it with the first message cut at its front.
pub data Rest : List Cache → List Cache → Type 0 where
  whole : {q : List Cache} → Rest q q
  cut : {msg : Cache} {q : List Cache} (n : ℕ) → Rest (msg ∷ q) (skip msg n ∷ q)

-- The first messages of the queue are freed, each once, and the others stay.
abbrev pub Freed : List Cache → List Cache → List Cache → Type 0
Freed q freed rest = (left : List Cache) × (q ≡ freed ++ left) × Rest left rest

prune-Freed : (q : List Cache) (n : ℕ) → Freed q (pruned_msgs q n) (prune q n).0
unfolding prune pruned_msgs
prune-Freed [] n = ([], refl, whole)
prune-Freed (msg ∷ q) n =
    let m = n - pos_part (remain msg) + neg_part (remain msg) in
    let (left, e, r) = prune-Freed q m in
    elim (Bool-cases (leb_ℤ (remain msg) (pos n))) [
      | inl sent ↦ rw sent (left, ap (λ ms. msg ∷ ms) e, r)
      | inr part ↦ rw part (msg ∷ q, refl, cut n)
    ]

sent_vec-Freed :
    (q : List Cache) (vec : List (List ℕ)) (l : SendLen)
    → Freed q (sent_vec q vec l).freed (sent_vec q vec l).que
unfolding sent_vec
sent_vec-Freed q vec (wrote n) = prune-Freed q n
sent_vec-Freed q vec would_block = (q, refl, whole)
sent_vec-Freed q vec broken_pipe = (q, refl, whole)

send_que-Freed :
    (kernel : Kernel) (q : List Cache)
    → All IsReady q
    → (w : Written) × (send_que kernel q ≡ some w) × Freed q w.freed w.que
unfolding send_que
send_que-Freed kernel [] v = (_, refl, ([], refl, whole))
send_que-Freed kernel (c ∷ q) v =
    let (vec, e, _) = gather_lem 0 0 (c ∷ q) v in
    (
      sent_vec (c ∷ q) vec (send_vec (kernel vec)),
      rw e,
      sent_vec-Freed (c ∷ q) vec (send_vec (kernel vec)),
    )

pub comm_write_node-Freed :
    (kernel : Kernel) (s : WriteSide)
    → All IsReady s.wr_que
    → (d : WriteDone) × (comm_write_node kernel s ≡ some d) × Freed s.wr_que d.freed d.side.wr_que
comm_write_node-Freed kernel s v =
    let (w, e, f) = send_que-Freed kernel s.wr_que v in (write_event s w, rw e, f)
