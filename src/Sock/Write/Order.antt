-- ===== src/Sock/Write/Order.antt =====
-- What one call of sendQue (sockobj.cpp) sends.
use high_perf_server.Base.{
  ℕ, ◌≤◌, ◌<◌, ◌≡◌, ◌≢◌, refl, sym, ap, ap₂, ◌∙◌, ◌⊎◌, Bool, true, false, some, List, [], ◌∷◌, ◌++◌,
  arith, length, take, concat, All, if◌then◌else◌, length-append, length-take, take-append-drop,
  take-append_le,
}
use high_perf_server.Msg.Cache.{Cache}
use high_perf_server.Sock.Read.{eagain, eintr, other}
use high_perf_server.Sock.Write.{
  Send, taken, refused, SendLen, wrote, would_block, broken_pipe, send_vec, prune, pruned_msgs,
  all_sent, has_more, blocked, write_error, Written, Kernel, sent_vec, send_que,
}
use high_perf_server.Sock.Write.Bytes.{waiting, IsReady, gather_lem, Pruned, prune-Pruned}

-- What sendmsg(2) documents: it takes no more than it is offered.
abbrev pub Takes : Kernel → Type 0
Takes kernel = (vec : List (List ℕ)) (n : ℕ) → kernel vec ≡ taken n → n ≤ length (concat vec)

-- What a call of `sendQue` on the queue `q` is to leave.
pub record Sends (q : List Cache) (w : Written) : Type 0 where
  pub ready : All IsReady w.que
  pub kept : w.out ++ waiting w.que ≡ waiting q
  pub all : w.ret ≡ all_sent → w.que ≡ []
  pub more : w.ret ≡ has_more → (w.que ≢ []) × (0 < length w.out)
  pub same : (w.ret ≡ blocked) ⊎ (w.ret ≡ write_error) → (w.out ≡ []) × (w.que ≡ q)

send_vec-wrote : (s : Send) (n : ℕ) → send_vec s ≡ wrote n → (s ≡ taken n) × (0 < n)
unfolding send_vec
send_vec-wrote (taken n) m e = ground arith
send_vec-wrote (refused eagain) m e = absurd cc
send_vec-wrote (refused eintr) m e = absurd cc
send_vec-wrote (refused other) m e = absurd cc

-- The kernel has taken `n` bytes.
module _ (q : List Cache) (vec : List (List ℕ)) (n : ℕ) (v : All IsReady q) where
  front :
      (rest : List ℕ)
      → waiting q ≡ concat vec ++ rest
      → n ≤ length (concat vec)
      → take n (concat vec) ≡ take n (waiting q)
  front rest e h = sym (ap (take n) e ∙ take-append_le n (concat vec) rest h)

  wrote-Sends :
      (rest : List ℕ) (freed : List Cache) (r : List Cache × Bool)
      → waiting q ≡ concat vec ++ rest
      → 0 < n
      → n ≤ length (concat vec)
      → Pruned q n r
      → Sends q (record {
        que = r.0;
        freed = freed;
        out = take n (concat vec);
        ret = if r.1 then all_sent else has_more;
      })
  wrote-Sends rest freed (left, true) e p h w = record {
    ready = w.ready;
    kept = ap₂ ◌++◌ (front rest e h) w.kept ∙ take-append-drop n (waiting q);
    all = λ _. w.done refl;
    more = λ f. absurd cc;
    same = λ f. absurd (ground (arith, f));
  }
  wrote-Sends rest freed (left, false) e p h w = record {
    ready = w.ready;
    kept = ap₂ ◌++◌ (front rest e h) w.kept ∙ take-append-drop n (waiting q);
    all = λ f. absurd cc;
    more = λ _. (w.more refl, omega (arith, length-take n (concat vec), p, h));
    same = λ f. absurd (ground (arith, f));
  }

sent_vec-Sends :
    (q : List Cache) (vec : List (List ℕ)) (rest : List ℕ) (l : SendLen)
    → All IsReady q
    → waiting q ≡ concat vec ++ rest
    → ((n : ℕ) → l ≡ wrote n → (0 < n) × (n ≤ length (concat vec)))
    → Sends q (sent_vec q vec l)
unfolding sent_vec
sent_vec-Sends q vec rest (wrote n) v e h =
    let (p, k) = h n refl in
    wrote-Sends q vec n v rest (pruned_msgs q n) (prune q n) e p k
      (prune-Pruned q n v (omega (arith, ap length e, length-append (concat vec) rest, k)))
sent_vec-Sends q vec rest would_block v e h = record {
  ready = v;
  kept = refl;
  all = λ f. absurd cc;
  more = λ f. absurd cc;
  same = λ _. (refl, refl);
}
sent_vec-Sends q vec rest broken_pipe v e h = record {
  ready = v;
  kept = refl;
  all = λ f. absurd cc;
  more = λ f. absurd cc;
  same = λ _. (refl, refl);
}

pub send_que-Sends :
    (kernel : Kernel) (q : List Cache)
    → Takes kernel
    → All IsReady q
    → (w : Written) × (send_que kernel q ≡ some w) × Sends q w
unfolding send_que
send_que-Sends kernel [] t v = (
  _,
  refl,
  record {
    ready = tt;
    kept = refl;
    all = λ _. refl;
    more = λ f. absurd cc;
    same = λ f. absurd (ground (arith, f));
  },
)
send_que-Sends kernel (c ∷ q) t v =
    let (vec, e, (rest, f)) = gather_lem 0 0 (c ∷ q) v in
    (
      sent_vec (c ∷ q) vec (send_vec (kernel vec)),
      rw e,
      sent_vec-Sends (c ∷ q) vec rest (send_vec (kernel vec)) v f
          (λ n g. let (s, p) = send_vec-wrote (kernel vec) n g in (p, t vec n s)),
    )
