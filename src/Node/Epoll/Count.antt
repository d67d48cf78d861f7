-- ===== src/Node/Epoll/Count.antt =====
-- The size that SockEpoll keeps (sockepoll.cpp), and what a listener (sockobj.cpp) makes of it.
use high_perf_server.Base.{
  ℕ, suc, ◌+◌, ◌≤◌, ◌<◌, ◌≡◌, ap, ◌∙◌, inl, inr, Bool, true, false, ◌&&◌, List, [], ◌∷◌, arith,
  length, ltb, if◌then◌else◌, Bool-cases,
}
use high_perf_server.Node.Epoll.{
  Flags, no_event, all_events, is_registered, add_rd, add_wr, add_event, del_rd, del_wr, del_event,
  Incoming, Listener, accept_one, accept,
}

-- What a node counts.
abbrev pub weight : Flags → ℕ
weight f = if is_registered f then 1 else 0

-- The size is that of `others` other nodes and this one.
abbrev pub Counts : ℕ → ℕ × Flags → Type 0
Counts others s = s.0 ≡ others + weight s.1

add_rd-Counts :
    (n : ℕ) (ev : Flags) (ok : Bool) (s : ℕ × Flags) → Counts n s → Counts n (add_rd ev ok s)
unfolding add_rd
add_rd-Counts n ev ok (size, f) h = ground (arith, h)

add_wr-Counts :
    (n : ℕ) (ev : Flags) (ok : Bool) (s : ℕ × Flags) → Counts n s → Counts n (add_wr ev ok s)
unfolding add_wr
add_wr-Counts n ev ok (size, f) h = ground (arith, h)

add_event-Counts :
    (n : ℕ) (ev : Flags) (ok_rd ok_wr : Bool) (s : ℕ × Flags)
    → Counts n s
    → Counts n (add_event ev ok_rd ok_wr s)
unfolding add_event
add_event-Counts n ev ok_rd ok_wr s h =
    add_wr-Counts n ev ok_wr (add_rd ev ok_rd s) (add_rd-Counts n ev ok_rd s h)

del_rd-Counts : (n : ℕ) (ev : Flags) (s : ℕ × Flags) → Counts n s → Counts n (del_rd ev s)
unfolding del_rd
del_rd-Counts n ev (size, f) h = ground (arith, h)

del_wr-Counts : (n : ℕ) (ev : Flags) (s : ℕ × Flags) → Counts n s → Counts n (del_wr ev s)
unfolding del_wr
del_wr-Counts n ev (size, f) h = ground (arith, h)

del_event-Counts : (n : ℕ) (ev : Flags) (s : ℕ × Flags) → Counts n s → Counts n (del_event ev s)
unfolding del_event
del_event-Counts n ev s h = del_wr-Counts n ev (del_rd ev s) (del_rd-Counts n ev s h)

-- Calls of `addEvent` and `delEvent` on one node.
pub data Call : Type 0 where
  adds : Flags → Bool → Bool → Call
  dels : Flags → Call

abbrev pub calls : List Call → ℕ × Flags → ℕ × Flags
calls [] s = s
calls (adds ev ok_rd ok_wr ∷ cs) s = calls cs (add_event ev ok_rd ok_wr s)
calls (dels ev ∷ cs) s = calls cs (del_event ev s)

calls-Counts : (n : ℕ) (cs : List Call) (s : ℕ × Flags) → Counts n s → Counts n (calls cs s)
calls-Counts n [] s h = h
calls-Counts n (adds ev a b ∷ cs) s h =
    calls-Counts n cs (add_event ev a b s) (add_event-Counts n ev a b s h)
calls-Counts n (dels ev ∷ cs) s h = calls-Counts n cs (del_event ev s) (del_event-Counts n ev s h)

del_event_none : (s : ℕ × Flags) → is_registered (del_event all_events s).1 ≡ false
unfolding del_event del_rd del_wr
del_event_none (size, f) = ground arith

-- Whatever calls of `addEvent` and `delEvent` are made on a node, with whatever events and results of
-- epoll_ctl, it is counted once in the size while it has any event, and not otherwise; after a
-- `delEvent` of all events it is counted no longer.
pub size_is_kept :
    (n : ℕ) (cs : List Call) (s : ℕ × Flags)
    → Counts n s
    → Counts n (calls cs s) × ((del_event all_events (calls cs s)).0 ≡ n)
size_is_kept n cs s h =
    let k = calls-Counts n cs s h in
    (
      k,
      omega (
        arith,
        del_event-Counts n all_events (calls cs s) k,
        ap {B = ℕ} (λ (b : Bool). if b then 1 else 0) (del_event_none (calls cs s)),
      ),
    )

abbrev pub registered : List Flags → ℕ
registered [] = 0
registered (f ∷ fs) = weight f + registered fs

-- What the loop of a listener keeps, with `n` connections taken.
pub record IsBounded (capacity : ℕ) (others n : ℕ) (s : Listener) : Type 0 where
  pub bound : s.size ≤ capacity
  pub counted : s.size ≡ others + registered s.nodes
  pub total : s.ok + s.fail ≡ n
  pub one_each : length s.nodes ≡ s.ok

abbrev added : Listener → ℕ × Flags → Listener
added s (size, f) = record s { size = size; nodes = f ∷ s.nodes; ok = suc s.ok }

accept_full :
    (capacity : ℕ) (c : Incoming) (s : Listener)
    → (ltb s.size capacity && c.welcome) ≡ false
    → accept_one capacity c s ≡ record s { fail = suc s.fail }
unfolding accept_one
accept_full capacity c s h = ground (arith, h)

accept_added :
    (capacity : ℕ) (c : Incoming) (s : Listener)
    → (ltb s.size capacity && c.welcome) ≡ true
    → accept_one capacity c s ≡ added s (add_event all_events c.ok_rd c.ok_wr (s.size, no_event))
unfolding accept_one
accept_added capacity c s h = ground (arith, h)

added-IsBounded :
    (capacity others n : ℕ) (s : Listener) (r : ℕ × Flags)
    → s.size < capacity
    → Counts s.size r
    → IsBounded capacity others n s
    → IsBounded capacity others (suc n) (added s r)
added-IsBounded capacity others n s (size, f) lt h v = record {
  bound = ground (arith, h, lt);
  counted = omega (arith, h, v.counted);
  total = omega (arith, v.total);
  one_each = ap suc v.one_each;
}

accept_one-IsBounded :
    (capacity others n : ℕ) (c : Incoming) (s : Listener)
    → IsBounded capacity others n s
    → IsBounded capacity others (suc n) (accept_one capacity c s)
accept_one-IsBounded capacity others n c s v =
    elim (Bool-cases (ltb s.size capacity && c.welcome)) [
      | inl e ↦ rw (accept_added capacity c s e) (
          added-IsBounded capacity others n s _ (ground (arith, e))
            (add_event-Counts s.size all_events c.ok_rd c.ok_wr (s.size, no_event) (omega arith)) v)
      | inr e ↦ rw (accept_full capacity c s e) (record {
        bound = v.bound;
        counted = v.counted;
        total = omega (arith, v.total);
        one_each = v.one_each;
      })
    ]

renumbered :
    {capacity others n m : ℕ} {s : Listener}
    → n ≡ m
    → IsBounded capacity others n s
    → IsBounded capacity others m s
renumbered e v = record {
  bound = v.bound;
  counted = v.counted;
  total = v.total ∙ e;
  one_each = v.one_each;
}

-- A listener that takes the connections that wait leaves the size within the capacity if it was, and
-- equal to the number of the registered nodes; and of each connection it either makes a node or
-- counts a failure.
pub accept-IsBounded :
    (capacity others n : ℕ) (cs : List Incoming) (s : Listener)
    → IsBounded capacity others n s
    → IsBounded capacity others (n + length cs) (accept capacity cs s)
unfolding accept
accept-IsBounded capacity others n [] s v = renumbered (omega arith) v
accept-IsBounded capacity others n (c ∷ cs) s v = renumbered (omega arith) (
    accept-IsBounded capacity others (suc n) cs (accept_one capacity c s)
      (accept_one-IsBounded capacity others n c s v))
