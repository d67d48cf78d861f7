-- ===== src/Node/Deal/Fifo.antt =====
-- The order in which a node's messages are dealt with (dealer.cpp, director.cpp).
use high_perf_server.Base.{
  suc, ◌≡◌, refl, sym, ap, ◌∙◌, inl, inr, Bool, true, false, List, [], ◌∷◌, ◌++◌, append-nil,
  append_assoc, Bool-cases,
}
use high_perf_server.Msg.Cache.{Cache}
use high_perf_server.Node.Deal.{
  thread_read, thread_write, thread_dealer, thread_director, Queues, push_write, push_deal,
  push_cmd, push_msg, Dealing, Proc, deal_msg, deal_all, splice, proc_deal_que, Move, pushes, runs,
  move, moves, new_dealing,
}

-- The messages that were pushed for the dealer.
abbrev pub for_dealer : List Move → List Cache
for_dealer [] = []
for_dealer (pushes thread_dealer true msg ∷ ms) = msg ∷ for_dealer ms
for_dealer (pushes thread_dealer false msg ∷ ms) = for_dealer ms
for_dealer (pushes thread_read locked msg ∷ ms) = for_dealer ms
for_dealer (pushes thread_write locked msg ∷ ms) = for_dealer ms
for_dealer (pushes thread_director locked msg ∷ ms) = for_dealer ms
for_dealer (runs locked ∷ ms) = for_dealer ms

-- The messages in order: given, freed behind them, and still queued.
pub record InOrder (proc : Proc) (all : List Cache) (s : Dealing) : Type 0 where
  pub order : s.given ++ (s.freed ++ (s.deal_que ++ s.queues.deal_que_tmp)) ≡ all
  pub good : s.deal_err ≡ false → (s.freed ≡ []) × (s.closes ≡ 0)
  pub bad :
      s.deal_err ≡ true
      → (s.closes ≡ 1)
        × ((before : List Cache) × (msg : Cache) × (s.given ≡ before ++ msg ∷ [])
            × (proc before msg ≡ true))

deal_msg-deal_que :
    (proc : Proc) (msg : Cache) (s : Dealing) → (deal_msg proc msg s).deal_que ≡ s.deal_que
unfolding deal_msg
deal_msg-deal_que proc msg s = elim (Bool-cases s.deal_err) [
  | inl d ↦ rw d refl
  | inr d ↦ elim (Bool-cases (proc s.given msg)) [ inl p ↦ rw (d, p) refl | inr p ↦ rw (d, p) refl ]
]

module _ (proc : Proc) (all : List Cache) where
  -- The first message of the queue `msg ∷ list` is dealt with.
  module _ (s : Dealing) (msg : Cache) (list : List Cache) (e : s.deal_que ≡ msg ∷ list) where
    abbrev tail : List Cache
    tail = list ++ s.queues.deal_que_tmp

    front : InOrder proc all s → s.given ++ (s.freed ++ (msg ∷ tail)) ≡ all
    front v = ap (λ q. s.given ++ (s.freed ++ (q ++ s.queues.deal_que_tmp))) (sym e) ∙ v.order

    to_freed : InOrder proc all s → s.given ++ ((s.freed ++ msg ∷ []) ++ tail) ≡ all
    to_freed v = ap (λ f. s.given ++ f) (append_assoc s.freed (msg ∷ []) tail) ∙ front v

    to_given : InOrder proc all s → s.freed ≡ [] → (s.given ++ msg ∷ []) ++ (s.freed ++ tail) ≡ all
    to_given v none =
        ap (λ f. (s.given ++ msg ∷ []) ++ (f ++ tail)) none
        ∙ append_assoc s.given (msg ∷ []) tail
        ∙ sym (ap (λ f. s.given ++ (f ++ (msg ∷ tail))) none)
        ∙ front v

    deal_msg-InOrder :
        InOrder proc all s → InOrder proc all (deal_msg proc msg (record s { deal_que = list }))
    unfolding deal_msg
    deal_msg-InOrder v = elim (Bool-cases s.deal_err) [
      | inl d ↦ rw d (record { order = to_freed v; good = λ h. absurd cc; bad = λ _. v.bad d })
      | inr d ↦ elim (Bool-cases (proc s.given msg)) [
        | inl p ↦
            rw (d, p)
              (record {
                order = to_given v (v.good d).0;
                good = λ h. absurd cc;
                bad = λ _. (ap suc (v.good d).1, (s.given, msg, refl, p));
              })
        | inr p ↦
            rw (d, p)
              (record {
                order = to_given v (v.good d).0;
                good = λ _. v.good d;
                bad = λ h. absurd cc;
              })
      ]
    ]

  deal_all-InOrder :
      (list : List Cache) (s : Dealing)
      → s.deal_que ≡ list
      → InOrder proc all s
      → InOrder proc all (deal_all proc list s) × ((deal_all proc list s).deal_que ≡ [])
  unfolding deal_all
  deal_all-InOrder [] s e v = (v, e)
  deal_all-InOrder (msg ∷ list) s e v =
      deal_all-InOrder list (deal_msg proc msg (record s { deal_que = list }))
        (deal_msg-deal_que proc msg (record s { deal_que = list }))
        (deal_msg-InOrder s msg list e v)

  splice-InOrder : (s : Dealing) → InOrder proc all s → InOrder proc all (splice s)
  splice-InOrder s v = record {
    order =
        ap (λ q. s.given ++ (s.freed ++ q)) (append-nil (s.deal_que ++ s.queues.deal_que_tmp))
        ∙ v.order;
    good = v.good;
    bad = v.bad;
  }

  proc_deal_que-InOrder :
      (locked : Bool) (s : Dealing)
      → InOrder proc all s
      → InOrder proc all (proc_deal_que locked proc s)
        × ((proc_deal_que locked proc s).deal_que ≡ [])
  unfolding proc_deal_que
  proc_deal_que-InOrder true s v =
      deal_all-InOrder (splice s).deal_que (splice s) refl (splice-InOrder s v)
  proc_deal_que-InOrder false s v = deal_all-InOrder s.deal_que s refl v

  -- The queue of the dealer is the only one that counts.
  same_queue :
      (s : Dealing) (q : Queues)
      → q.deal_que_tmp ≡ s.queues.deal_que_tmp
      → InOrder proc all s
      → InOrder proc all (record s { queues = q })
  same_queue s q e v = record {
    order = ap (λ t. s.given ++ (s.freed ++ (s.deal_que ++ t))) e ∙ v.order;
    good = v.good;
    bad = v.bad;
  }

  pushed-InOrder :
      (s : Dealing) (msg : Cache)
      → InOrder proc all s
      → InOrder proc (all ++ msg ∷ []) (record s {
        queues = record s.queues { deal_que_tmp = s.queues.deal_que_tmp ++ msg ∷ [] };
      })
  pushed-InOrder s msg v = record {
    order =
        ap (λ q. s.given ++ (s.freed ++ q))
          (sym (append_assoc s.deal_que s.queues.deal_que_tmp (msg ∷ [])))
        ∙ ap (λ q. s.given ++ q)
            (sym (append_assoc s.freed (s.deal_que ++ s.queues.deal_que_tmp) (msg ∷ [])))
        ∙ sym (append_assoc s.given (s.freed ++ (s.deal_que ++ s.queues.deal_que_tmp)) (msg ∷ []))
        ∙ ap (λ q. q ++ msg ∷ []) v.order;
    good = v.good;
    bad = v.bad;
  }

move-InOrder :
    (proc : Proc) (all : List Cache) (m : Move) (s : Dealing)
    → InOrder proc all s
    → InOrder proc (all ++ for_dealer (m ∷ [])) (move proc m s)
unfolding move push_msg push_write push_deal push_cmd
move-InOrder proc all (pushes thread_dealer true msg) s v = pushed-InOrder proc all s msg v
move-InOrder proc all (pushes thread_dealer false msg) s v =
    rw (append-nil all) (same_queue proc all s _ refl v)
move-InOrder proc all (pushes thread_read locked msg) s v =
    rw (append-nil all) (same_queue proc all s _ refl v)
move-InOrder proc all (pushes thread_write true msg) s v =
    rw (append-nil all) (same_queue proc all s _ refl v)
move-InOrder proc all (pushes thread_write false msg) s v =
    rw (append-nil all) (same_queue proc all s _ refl v)
move-InOrder proc all (pushes thread_director true msg) s v =
    rw (append-nil all) (same_queue proc all s _ refl v)
move-InOrder proc all (pushes thread_director false msg) s v =
    rw (append-nil all) (same_queue proc all s _ refl v)
move-InOrder proc all (runs locked) s v =
    rw (append-nil all) (proc_deal_que-InOrder proc all locked s v).0

for_dealer_cons :
    (m : Move) (ms : List Move) → for_dealer (m ∷ []) ++ for_dealer ms ≡ for_dealer (m ∷ ms)
for_dealer_cons (pushes thread_dealer true msg) ms = refl
for_dealer_cons (pushes thread_dealer false msg) ms = refl
for_dealer_cons (pushes thread_read locked msg) ms = refl
for_dealer_cons (pushes thread_write locked msg) ms = refl
for_dealer_cons (pushes thread_director locked msg) ms = refl
for_dealer_cons (runs locked) ms = refl

moves_from :
    (proc : Proc) (ms : List Move) (all : List Cache) (s : Dealing)
    → InOrder proc all s
    → InOrder proc (all ++ for_dealer ms) (moves proc ms s)
unfolding moves
moves_from proc [] all s v = rw (append-nil all) v
moves_from proc (m ∷ ms) all s v =
    rw (← for_dealer_cons m ms, ← append_assoc all (for_dealer (m ∷ [])) (for_dealer ms))
      (moves_from proc ms (all ++ for_dealer (m ∷ [])) (move proc m s)
        (move-InOrder proc all m s v))

-- Whatever is pushed for the threads of a new node, whether locks are taken or not, and whenever the
-- dealer runs: the messages given to `procMsg`, then those that are freed, then those that still wait
-- are the messages pushed for the dealer, in order. None is freed and the node is not told to close
-- before `procMsg` fails; when it has failed, it was on the last message that it was given, and the
-- node has been told to close once.
pub moves-InOrder :
    (proc : Proc) (ms : List Move) → InOrder proc (for_dealer ms) (moves proc ms new_dealing)
moves-InOrder proc ms =
    moves_from proc ms [] new_dealing
      (record { order = refl; good = λ _. (refl, refl); bad = λ h. absurd cc })
