-- ===== src/Sock/Write/Bytes.antt =====
-- The bytes that wait in a queue of messages, and what `gather` and `prune` (sendQue and prune of
-- sockobj.cpp) make of them.
use high_perf_server.Base.{
  ℕ, suc, ◌+◌, ◌-◌, ◌≤◌, ◌<◌, ◌≡◌, ◌≢◌, refl, sym, ap, ◌∙◌, Bool, true, false, ◌&&◌, some, List, [],
  ◌∷◌, ◌++◌, map, arith, length, take, drop, concat, All, ltb, inl, inr, le→leb, if◌then◌else◌,
  Bool-cases, dec_lt, append_assoc, length-append, length-take, length-drop, drop-append, drop_all,
  drop-drop, drop-take, take_cong, drop_cong, drop-append_le,
}
use high_perf_server.Base.Int.{ℤ, pos, leb_ℤ, pos_part, neg_part, le→leb_pos, lt→leb_pos}
use high_perf_server.Msg.Cache.{Cache, remain, buffer, skip}
use high_perf_server.Sock.Write.{
  vec_of, vec_of_len, gather, prune, def_vec_size, def_tcp_send_buf_size,
}

-- The bytes of a message that are still to be sent.
abbrev pub payload : Cache → List ℕ
payload c = take (c.size - c.pos) (drop c.pos c.bytes)

abbrev pub waiting : List Cache → List ℕ
waiting q = concat (map payload q)

-- A message whose position and size are within its bytes.
pub record IsReady (c : Cache) : Type 0 where
  pub ordered : c.pos ≤ c.size
  pub within : c.size ≤ length c.bytes

module _ (c : Cache) (v : IsReady c) where
  pub remain_ready : remain c ≡ pos (c.size - c.pos)
  unfolding remain
  remain_ready = rw (le→leb c.pos c.size v.ordered)

  pub length-payload : length (payload c) ≡ c.size - c.pos
  length-payload = omega (
    arith,
    length-take (c.size - c.pos) (drop c.pos c.bytes),
    length-drop c.pos c.bytes,
    v.within,
    v.ordered,
  )

  pub vec_of_ready : vec_of c ≡ some (payload c)
  unfolding vec_of buffer
  vec_of_ready =
      ap (λ r. vec_of_len r c) remain_ready
      ∙ rw (le→leb (c.size - c.pos) (length (drop c.pos c.bytes)) fits)
    where
      fits : c.size - c.pos ≤ length (drop c.pos c.bytes)
      fits = omega (arith, length-drop c.pos c.bytes, v.within, v.ordered)

-- A run of messages is offered that starts at the front of the queue.
pub gather_lem :
    (cnt total : ℕ) (q : List Cache)
    → All IsReady q
    → (vec : List (List ℕ)) × (gather cnt total q ≡ some vec)
      × ((rest : List ℕ) × (waiting q ≡ concat vec ++ rest))
unfolding gather
gather_lem cnt total [] v = ([], refl, ([], refl))
gather_lem cnt total (c ∷ q) (r, v) =
    elim (Bool-cases (ltb cnt def_vec_size && ltb total def_tcp_send_buf_size)) [
      | inl room ↦
          let (vec, e, (rest, f)) = gather_lem (suc cnt) (total + length (payload c)) q v in
          (
            payload c ∷ vec,
            rw (room, vec_of_ready c r, e),
            (rest, rw f (sym (append_assoc (payload c) (concat vec) rest))),
          )
      | inr full ↦ ([], rw full, (waiting (c ∷ q), refl))
    ]

-- A message that is sent in part.
module _ (c : Cache) (n : ℕ) (v : IsReady c) (h : n < c.size - c.pos) where
  pub skip-IsReady : IsReady (skip c n)
  unfolding skip
  skip-IsReady = record { ordered = omega (arith, v.ordered); within = v.within }

  pub payload-skip : payload (skip c n) ≡ drop n (payload c)
  unfolding skip
  payload-skip =
      take_cong (drop (c.pos + n) c.bytes) (omega arith)
      ∙ ap (take (c.size - c.pos - n)) (sym (drop-drop n c.pos c.bytes))
      ∙ sym (drop-take n (c.size - c.pos) (drop c.pos c.bytes))

abbrev pruned : List Cache → Cache → ℕ → ℤ → List Cache × Bool
pruned q c n r =
    if leb_ℤ r (pos n) then prune q (n - pos_part r + neg_part r) else (skip c n ∷ q, false)

module _ (c : Cache) (q : List Cache) (n : ℕ) (v : IsReady c) where
  prune_ready : prune (c ∷ q) n ≡ pruned q c n (pos (c.size - c.pos))
  unfolding prune
  prune_ready = ap (pruned q c n) (remain_ready c v)

  -- A message is sent to its end, or in part.
  prune_whole : c.size - c.pos ≤ n → prune (c ∷ q) n ≡ prune q (n - (c.size - c.pos))
  prune_whole h = prune_ready ∙ rw (le→leb_pos (c.size - c.pos) n h) (ap (prune q) (omega arith))

  prune_part : n < c.size - c.pos → prune (c ∷ q) n ≡ (skip c n ∷ q, false)
  prune_part h = prune_ready ∙ rw (lt→leb_pos (c.size - c.pos) n h)

-- What `prune` is to leave.
pub record Pruned (q : List Cache) (n : ℕ) (r : List Cache × Bool) : Type 0 where
  pub ready : All IsReady r.0
  pub kept : waiting r.0 ≡ drop n (waiting q)
  pub done : r.1 ≡ true → r.0 ≡ []
  pub more : r.1 ≡ false → r.0 ≢ []

Pruned-whole :
    (c : Cache) (q : List Cache) (n : ℕ) (r : List Cache × Bool)
    → IsReady c
    → c.size - c.pos ≤ n
    → Pruned q (n - (c.size - c.pos)) r
    → Pruned (c ∷ q) n r
Pruned-whole c q n r v h w = record {
  ready = w.ready;
  kept =
      w.kept
      ∙ sym (
          drop-append n (payload c) (waiting q)
          ∙ rw (drop_all n (payload c) short)
              (drop_cong (waiting q) (omega (arith, length-payload c v))));
  done = w.done;
  more = w.more;
}
  where
    short : length (payload c) ≤ n
    short = omega (arith, length-payload c v)

Pruned-part :
    (c : Cache) (q : List Cache) (n : ℕ)
    → IsReady c
    → All IsReady q
    → n < c.size - c.pos
    → Pruned (c ∷ q) n (skip c n ∷ q, false)
Pruned-part c q n v vs h = record {
  ready = (skip-IsReady c n v h, vs);
  kept =
      ap (λ p. p ++ waiting q) (payload-skip c n v h)
      ∙ sym (drop-append_le n (payload c) (waiting q) (omega (arith, length-payload c v)));
  done = λ e. absurd cc;
  more = λ _ e. cc;
}

-- The bytes that were sent are gone from the queue, and no others.
pub prune-Pruned :
    (q : List Cache) (n : ℕ) → All IsReady q → n ≤ length (waiting q) → Pruned q n (prune q n)
unfolding prune
prune-Pruned [] n v h = record {
  ready = tt;
  kept = sym (drop_all n [] (omega arith));
  done = λ _. refl;
  more = λ e _. absurd cc;
}
prune-Pruned (c ∷ q) n (v, vs) h = elim (dec_lt n (c.size - c.pos)) [
  | yes p ↦ rw (prune_part c q n v p) (Pruned-part c q n v vs p)
  | no p ↦ rw (prune_whole c q n v (omega (arith, p))) (
      Pruned-whole c q n (prune q (n - (c.size - c.pos))) v (omega (arith, p)) (
        prune-Pruned q (n - (c.size - c.pos)) vs
          (omega (arith, h, length-append (payload c) (waiting q), length-payload c v))))
]
