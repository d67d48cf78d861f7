-- ===== src/Node/Close/Invariant.antt =====
-- What each step, and above all the director with a command, makes of the stage of a node
-- (director.cpp).
use high_perf_server.Base.{
  ℕ, ◌≤◌, ◌<◌, ◌≡◌, ◌≢◌, refl, sym, ap, ◌∙◌, inl, inr, Bool, false, List, [], ◌∷◌, arith, ◌==◌,
  ==_ne, lt→ltb, ltb-false, ℕ_discrete,
}
use high_perf_server.Node.Close.{
  end_task, Cmd, stop, command, Node, Notice, push_stop, notify_stop, close, proc_stop_msg,
  deal_cmd, Step, closes, commands, deals, ends_rd, ends_wr, ends_deal, ends_director, Reach, start,
  later,
}
use high_perf_server.Node.Close.Chain.{
  marks, marks_more, Stage, in_use, rd_asked, rd_ended, rd_lost, wr_asked, wr_ended, wr_lost,
  deal_asked, deal_ended, deal_lost, director_asked, closed, Stage-same,
}
use high_perf_server.Node.Close.Notices.{
  none_added, failed_notice, end_rd-Stage, end_wr-Stage, end_deal-Stage, end_director-Stage,
}

closing_open :
    (s : Node)
    → s.status < 5
    → proc_stop_msg 5 s ≡ record s { status = 5; registered = false; rd = end_task s.rd }
unfolding proc_stop_msg
closing_open s h = rw (lt→ltb s.status 5 h)

pub closing_late : (s : Node) → 5 ≤ s.status → proc_stop_msg 5 s ≡ s
unfolding proc_stop_msg
closing_late s h = rw (ltb-false s.status 5 h)

pub proc_rd : (s : Node) → proc_stop_msg 6 s ≡ record s { status = 6; wr = end_task s.wr }
unfolding proc_stop_msg
proc_rd s = refl

pub proc_wr : (s : Node) → proc_stop_msg 7 s ≡ record s { status = 7; deal = end_task s.deal }
unfolding proc_stop_msg
proc_wr s = refl

pub proc_dealer :
    (s : Node) → proc_stop_msg 8 s ≡ record s { status = 8; director = end_task s.director }
unfolding proc_stop_msg
proc_dealer s = refl

pub marks_other : (k : ℕ) (rest : List Cmd) → k ≢ 5 → marks (stop k ∷ rest) ≡ k ∷ marks rest
marks_other k rest n = ap (λ b. marks_more b k (marks rest)) (==_ne k 5 n)

late-Stage : {sure : Bool} (s : Node) → 5 ≤ s.status → Stage sure s → Stage sure (proc_stop_msg 5 s)
late-Stage s h v = rw (closing_late s h) v

closing-Stage : {sure : Bool} (s : Node) → Stage sure s → Stage sure (proc_stop_msg 5 s)
closing-Stage s (in_use st h v) = rw (closing_open s (omega (arith, v.status, h))) (
    rd_asked (record {
      status = refl;
      rd = ap end_task v.rd;
      wr = v.wr;
      deal = v.deal;
      director = v.director;
      eofs = v.eofs;
      on_way = v.on_way;
    }))
closing-Stage s (rd_asked v) = late-Stage s (omega (arith, v.status)) (rd_asked v)
closing-Stage s (rd_ended v) = late-Stage s (omega (arith, v.status)) (rd_ended v)
closing-Stage s (rd_lost u v) = late-Stage s (omega (arith, v.status)) (rd_lost u v)
closing-Stage s (wr_asked v) = late-Stage s (omega (arith, v.status)) (wr_asked v)
closing-Stage s (wr_ended v) = late-Stage s (omega (arith, v.status)) (wr_ended v)
closing-Stage s (wr_lost u v) = late-Stage s (omega (arith, v.status)) (wr_lost u v)
closing-Stage s (deal_asked v) = late-Stage s (omega (arith, v.status)) (deal_asked v)
closing-Stage s (deal_ended v) = late-Stage s (omega (arith, v.status)) (deal_ended v)
closing-Stage s (deal_lost u v) = late-Stage s (omega (arith, v.status)) (deal_lost u v)
closing-Stage s (director_asked v) = late-Stage s (omega (arith, v.status)) (director_asked v)
closing-Stage s (closed v) = late-Stage s (omega (arith, v.status)) (closed v)

-- A message of the chain, when it is taken from the queue `cs` of `s`.
module _ (s : Node) (k : ℕ) (rest : List Cmd) (e : marks s.cmds ≡ k ∷ marks rest) where
  abbrev taken : Node
  taken = record s { cmds = rest }

  none_on_way : marks s.cmds ≡ [] → ⊥
  none_on_way h = cc

  the_one : (j : ℕ) → marks s.cmds ≡ j ∷ [] → (k ≡ j) × (marks rest ≡ [])
  the_one j h = let both : k ∷ marks rest ≡ j ∷ [] = sym e ∙ h in (cc both, cc both)

  chain-Stage : {sure : Bool} → Stage sure s → Stage sure (proc_stop_msg k taken)
  chain-Stage (in_use st h v) = absurd (none_on_way v.on_way)
  chain-Stage (rd_asked v) = absurd (none_on_way v.on_way)
  chain-Stage (rd_lost u v) = absurd (none_on_way v.on_way)
  chain-Stage (rd_ended v) =
      let (p, q) = the_one 6 v.on_way in
      rw (p, proc_rd taken)
        (wr_asked (record {
          status = refl;
          rd = v.rd;
          wr = ap end_task v.wr;
          deal = v.deal;
          director = v.director;
          eofs = v.eofs;
          on_way = q;
        }))
  chain-Stage (wr_asked v) = absurd (none_on_way v.on_way)
  chain-Stage (wr_lost u v) = absurd (none_on_way v.on_way)
  chain-Stage (wr_ended v) =
      let (p, q) = the_one 7 v.on_way in
      rw (p, proc_wr taken)
        (deal_asked (record {
          status = refl;
          rd = v.rd;
          wr = v.wr;
          deal = ap end_task v.deal;
          director = v.director;
          eofs = v.eofs;
          on_way = q;
        }))
  chain-Stage (deal_asked v) = absurd (none_on_way v.on_way)
  chain-Stage (deal_lost u v) = absurd (none_on_way v.on_way)
  chain-Stage (deal_ended v) =
      let (p, q) = the_one 8 v.on_way in
      rw (p, proc_dealer taken)
        (director_asked (record {
          status = refl;
          rd = v.rd;
          wr = v.wr;
          deal = v.deal;
          director = ap end_task v.director;
          eofs = v.eofs;
          on_way = q;
        }))
  chain-Stage (director_asked v) = absurd (none_on_way v.on_way)
  chain-Stage (closed v) = absurd (none_on_way v.on_way)

deal_cmd-Stage :
    {sure : Bool} (s : Node) (c : Cmd) (rest : List Cmd)
    → s.cmds ≡ c ∷ rest
    → Stage sure s
    → Stage sure (deal_cmd c (record s { cmds = rest }))
unfolding deal_cmd
deal_cmd-Stage s (command c) rest e v =
    Stage-same s _ refl refl refl refl refl refl (sym (ap marks e)) v
deal_cmd-Stage s (stop k) rest e v = elim (ℕ_discrete k 5) [
  | yes five ↦ rw five (
      closing-Stage (record s { cmds = rest })
        (Stage-same s _ refl refl refl refl refl refl
          (sym (ap marks e ∙ ap (λ (j : ℕ). marks_more (j == 5) k (marks rest)) five)) v))
  | no n ↦ chain-Stage s k rest (ap marks e ∙ marks_other k rest n) v
]

close-Stage : {sure : Bool} (k : Notice) (s : Node) → Stage sure s → Stage sure (close k s)
unfolding close notify_stop push_stop
close-Stage k s v = elim (failed_notice k 5 s) [
  | inl e ↦ rw e (Stage-same s _ refl refl refl refl refl refl (none_added s (stop 5) refl) v)
  | inr e ↦ rw e v
]

Step-Stage : {sure : Bool} {s t : Node} → Step sure s t → Stage sure s → Stage sure t
Step-Stage {sure} {s} (closes k h) v = close-Stage k s v
Step-Stage {sure} {s} (commands c) v =
    Stage-same s _ refl refl refl refl refl refl (none_added s (command c) refl) v
Step-Stage {sure} {s} (deals c rest e h) v = deal_cmd-Stage s c rest e v
Step-Stage {sure} {s} (ends_rd k h e) v = end_rd-Stage sure k s h e v
Step-Stage {sure} {s} (ends_wr k h e) v = end_wr-Stage sure k s h e v
Step-Stage {sure} {s} (ends_deal k h e) v = end_deal-Stage sure k s h e v
Step-Stage {sure} {s} (ends_director e) v = end_director-Stage sure s e v

pub Reach-Stage : {sure : Bool} {s : Node} → Reach sure s → Stage sure s
Reach-Stage (start st h) = in_use st h (record {
  status = refl;
  rd = refl;
  wr = refl;
  deal = refl;
  director = refl;
  eofs = refl;
  on_way = refl;
})
Reach-Stage (later r step) = Step-Stage step (Reach-Stage r)
