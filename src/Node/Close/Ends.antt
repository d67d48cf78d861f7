-- ===== src/Node/Close/Ends.antt =====
-- How a node that is being closed gets to its end (director.cpp).
use high_perf_server.Base.{
  ℕ, suc, ◌≤◌, ◌≡◌, ◌≢◌, refl, sym, ap, ◌∙◌, true, List, [], ◌∷◌, arith, ◌==◌, ℕ_discrete,
}
use high_perf_server.Node.Close.{
  alive, asked, ended, sound, end_task, Cmd, stop, command, Node, proc_stop_msg, deal_cmd, end_rd,
  end_wr, end_deal, end_director, Step, deals, ends_rd, ends_wr, ends_deal, ends_director, Reach,
}
use high_perf_server.Node.Close.Chain.{
  marks, marks_more, At, Stage, in_use, rd_asked, rd_ended, rd_lost, wr_asked, wr_ended, wr_lost,
  deal_asked, deal_ended, deal_lost, director_asked, closed,
}
use high_perf_server.Node.Close.Notices.{end_rd-At, end_wr-At, end_deal-At}
use high_perf_server.Node.Close.Invariant.{
  closing_late, proc_rd, proc_wr, proc_dealer, marks_other, Reach-Stage,
}

-- The states that a node gets to by steps in which `notify` gets through.
pub data From : Node → Node → Type 0 where
  here : {s : Node} → From s s
  there : {s t u : Node} → Step true s t → From t u → From s u

-- Its end is reached.
abbrev pub Ends : Node → Type 0
Ends s = (t : Node) × From s t × (t.eofs ≡ 1) × (t.status ≡ 9)

after : {s t : Node} → Step true s t → Ends t → Ends s
after step (u, f, e, h) = (u, there step f, e, h)

-- The director deals with its queue up to the message of the chain.
deal_until :
    (cs : List Cmd) (s : Node) (k : ℕ)
    → s.cmds ≡ cs
    → s.director ≢ ended
    → 5 ≤ s.status
    → marks cs ≡ k ∷ []
    → ((rest : List Cmd) → marks rest ≡ [] → Ends (proc_stop_msg k (record s { cmds = rest })))
    → Ends s
unfolding deal_cmd
deal_until [] s k e d h m next = absurd cc
deal_until (command c ∷ cs) s k e d h m next =
    after (deals (command c) cs e d) (deal_until cs (record s { cmds = cs }) k refl d h m next)
deal_until (stop j ∷ cs) s k e d h m next = elim (ℕ_discrete j 5) [
  | yes five ↦
      let step : Step true s (record s { cmds = cs }) = skipped five in
      after step (
        deal_until cs (record s { cmds = cs }) k refl d h
          (sym (ap (λ (i : ℕ). marks_more (i == 5) j (marks cs)) five) ∙ m) next)
  | no n ↦
      let both : j ∷ marks cs ≡ k ∷ [] = sym (marks_other j cs n) ∙ m in
      let same : j ≡ k = cc both in after (deals (stop j) cs e d) (rw same (next cs (cc both)))
]
  where
    skipped : j ≡ 5 → Step true s (record s { cmds = cs })
    skipped five = rw (← closing_late (record s { cmds = cs }) h, ← five) (deals (stop j) cs e d)

from_director_asked : (s : Node) → At s 8 ended ended ended asked 0 [] → Ends s
unfolding end_director
from_director_asked s v =
    (end_director s, there (ends_director v.director) here, ap suc v.eofs, refl)

from_deal_ended : (s : Node) → At s 7 ended ended ended alive 0 (8 ∷ []) → Ends s
from_deal_ended s v =
    deal_until s.cmds s 8 refl (λ e. cc) (omega (arith, v.status)) v.on_way
      (λ rest q. rw (proc_dealer (record s { cmds = rest })) (
        from_director_asked _ (record {
          status = refl;
          rd = v.rd;
          wr = v.wr;
          deal = v.deal;
          director = ap end_task v.director;
          eofs = v.eofs;
          on_way = q;
        })))

from_deal_asked : (s : Node) → At s 7 ended ended asked alive 0 [] → Ends s
from_deal_asked s v =
    after (ends_deal sound (λ e. refl) v.deal)
      (from_deal_ended (end_deal sound s) (end_deal-At s v))

from_wr_ended : (s : Node) → At s 6 ended ended alive alive 0 (7 ∷ []) → Ends s
from_wr_ended s v =
    deal_until s.cmds s 7 refl (λ e. cc) (omega (arith, v.status)) v.on_way
      (λ rest q. rw (proc_wr (record s { cmds = rest })) (
        from_deal_asked _ (record {
          status = refl;
          rd = v.rd;
          wr = v.wr;
          deal = ap end_task v.deal;
          director = v.director;
          eofs = v.eofs;
          on_way = q;
        })))

from_wr_asked : (s : Node) → At s 6 ended asked alive alive 0 [] → Ends s
from_wr_asked s v =
    after (ends_wr sound (λ e. refl) v.wr) (from_wr_ended (end_wr sound s) (end_wr-At s v))

from_rd_ended : (s : Node) → At s 5 ended alive alive alive 0 (6 ∷ []) → Ends s
from_rd_ended s v =
    deal_until s.cmds s 6 refl (λ e. cc) (omega (arith, v.status)) v.on_way
      (λ rest q. rw (proc_rd (record s { cmds = rest })) (
        from_wr_asked _ (record {
          status = refl;
          rd = v.rd;
          wr = ap end_task v.wr;
          deal = v.deal;
          director = v.director;
          eofs = v.eofs;
          on_way = q;
        })))

from_rd_asked : (s : Node) → At s 5 asked alive alive alive 0 [] → Ends s
from_rd_asked s v =
    after (ends_rd sound (λ e. refl) v.rd) (from_rd_ended (end_rd sound s) (end_rd-At s v))

Stage-Ends : (s : Node) → 5 ≤ s.status → Stage true s → Ends s
Stage-Ends s h (in_use st b v) = absurd (omega (arith, h, b, v.status))
Stage-Ends s h (rd_asked v) = from_rd_asked s v
Stage-Ends s h (rd_lost u v) = absurd cc
Stage-Ends s h (rd_ended v) = from_rd_ended s v
Stage-Ends s h (wr_asked v) = from_wr_asked s v
Stage-Ends s h (wr_lost u v) = absurd cc
Stage-Ends s h (wr_ended v) = from_wr_ended s v
Stage-Ends s h (deal_asked v) = from_deal_asked s v
Stage-Ends s h (deal_lost u v) = absurd cc
Stage-Ends s h (deal_ended v) = from_deal_ended s v
Stage-Ends s h (director_asked v) = from_director_asked s v
Stage-Ends s h (closed v) = (s, here, v.eofs, v.status)

-- From every state of a node that is being closed and that it reaches by steps in which no `notify`
-- fails, whatever messages are in the director's queue, further steps of this kind of the four threads
-- lead to the call of its `eof`: the closing cannot get stuck while the stop messages can be made and
-- the node's lock is given. The node is no connector that waits for its connection.
pub closing_ends : {s : Node} → Reach true s → 5 ≤ s.status → Ends s
closing_ends {s} r h = Stage-Ends s h (Reach-Stage r)
