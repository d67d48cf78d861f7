-- ===== src/Node/Close/Notices.antt =====
-- What the end of each task makes of the stage of a node, whether `notify` gets through or not
-- (procTaskEnd of receiver.cpp, sender.cpp, dealer.cpp and director.cpp).
use high_perf_server.Base.{
  ℕ, suc, ◌≡◌, refl, ap, ◌∙◌, ◌⊎◌, inl, inr, Bool, true, false, List, [], ◌∷◌, ◌++◌, append-nil,
}
use high_perf_server.Node.Close.{
  alive, asked, ended, Cmd, stop, Node, Notice, sound, push_stop, notify_stop, end_rd, end_wr,
  end_deal, end_director, Holds,
}
use high_perf_server.Node.Close.Chain.{
  marks, marks-append, At, Stage, in_use, rd_asked, rd_ended, rd_lost, wr_asked, wr_ended, wr_lost,
  deal_asked, deal_ended, deal_lost, director_asked, closed,
}

added : (s : Node) (c : Cmd) → marks (s.cmds ++ c ∷ []) ≡ marks s.cmds ++ marks (c ∷ [])
added s c = marks-append s.cmds (c ∷ [])

pub none_added :
    (s : Node) (c : Cmd) → marks (c ∷ []) ≡ [] → marks (s.cmds ++ c ∷ []) ≡ marks s.cmds
none_added s c e = added s c ∙ ap (λ ms. marks s.cmds ++ ms) e ∙ append-nil (marks s.cmds)

abbrev k_stop : ℕ → List Cmd
k_stop k = stop k ∷ []

-- A step that puts the first message of the chain behind no others.
module _ (s : Node) (k : ℕ) (none : marks s.cmds ≡ []) where
  sent : marks (k_stop k) ≡ k ∷ [] → marks (s.cmds ++ k_stop k) ≡ k ∷ []
  sent e = marks-append s.cmds (k_stop k) ∙ rw (none, e)

pub end_rd-At :
    (s : Node)
    → At s 5 asked alive alive alive 0 []
    → At (end_rd sound s) 5 ended alive alive alive 0 (6 ∷ [])
unfolding end_rd notify_stop push_stop
end_rd-At s v = record {
  status = v.status;
  rd = refl;
  wr = v.wr;
  deal = v.deal;
  director = v.director;
  eofs = v.eofs;
  on_way = sent s 6 v.on_way refl;
}

pub end_wr-At :
    (s : Node)
    → At s 6 ended asked alive alive 0 []
    → At (end_wr sound s) 6 ended ended alive alive 0 (7 ∷ [])
unfolding end_wr notify_stop push_stop
end_wr-At s v = record {
  status = v.status;
  rd = v.rd;
  wr = refl;
  deal = v.deal;
  director = v.director;
  eofs = v.eofs;
  on_way = sent s 7 v.on_way refl;
}

pub end_deal-At :
    (s : Node)
    → At s 7 ended ended asked alive 0 []
    → At (end_deal sound s) 7 ended ended ended alive 0 (8 ∷ [])
unfolding end_deal notify_stop push_stop
end_deal-At s v = record {
  status = v.status;
  rd = v.rd;
  wr = v.wr;
  deal = refl;
  director = v.director;
  eofs = v.eofs;
  on_way = sent s 8 v.on_way refl;
}

-- A message that is not sent leaves the queue as it is.
notice_at :
    (created locked : Bool) (status : ℕ) (s : Node)
    → (record { created = created; locked = locked } ≡ sound)
      ⊎ (notify_stop (record { created = created; locked = locked }) status s ≡ s)
unfolding notify_stop push_stop
notice_at true true status s = inl refl
notice_at true false status s = inr refl
notice_at false locked status s = inr refl

pub failed_notice :
    (k : Notice) (status : ℕ) (s : Node) → (k ≡ sound) ⊎ (notify_stop k status s ≡ s)
failed_notice k status s = notice_at k.created k.locked status s

rd_gone-At :
    (s : Node)
    → At s 5 asked alive alive alive 0 []
    → At (record s { rd = ended }) 5 ended alive alive alive 0 []
rd_gone-At s v = record {
  status = v.status;
  rd = refl;
  wr = v.wr;
  deal = v.deal;
  director = v.director;
  eofs = v.eofs;
  on_way = v.on_way;
}

wr_gone-At :
    (s : Node)
    → At s 6 ended asked alive alive 0 []
    → At (record s { wr = ended }) 6 ended ended alive alive 0 []
wr_gone-At s v = record {
  status = v.status;
  rd = v.rd;
  wr = refl;
  deal = v.deal;
  director = v.director;
  eofs = v.eofs;
  on_way = v.on_way;
}

deal_gone-At :
    (s : Node)
    → At s 7 ended ended asked alive 0 []
    → At (record s { deal = ended }) 7 ended ended ended alive 0 []
deal_gone-At s v = record {
  status = v.status;
  rd = v.rd;
  wr = v.wr;
  deal = refl;
  director = v.director;
  eofs = v.eofs;
  on_way = v.on_way;
}

end_rd-asked :
    (sure : Bool) (k : Notice) (s : Node)
    → Holds sure k
    → At s 5 asked alive alive alive 0 []
    → Stage sure (end_rd k s)
unfolding end_rd
end_rd-asked true k s h v = rw (h refl) (rd_ended (end_rd-At s v))
end_rd-asked false k s h v = elim (failed_notice k 6 (record s { rd = ended })) [
  | inl e ↦ rw e (rd_ended (end_rd-At s v))
  | inr e ↦ rw e (rd_lost refl (rd_gone-At s v))
]

end_wr-asked :
    (sure : Bool) (k : Notice) (s : Node)
    → Holds sure k
    → At s 6 ended asked alive alive 0 []
    → Stage sure (end_wr k s)
unfolding end_wr
end_wr-asked true k s h v = rw (h refl) (wr_ended (end_wr-At s v))
end_wr-asked false k s h v = elim (failed_notice k 7 (record s { wr = ended })) [
  | inl e ↦ rw e (wr_ended (end_wr-At s v))
  | inr e ↦ rw e (wr_lost refl (wr_gone-At s v))
]

end_deal-asked :
    (sure : Bool) (k : Notice) (s : Node)
    → Holds sure k
    → At s 7 ended ended asked alive 0 []
    → Stage sure (end_deal k s)
unfolding end_deal
end_deal-asked true k s h v = rw (h refl) (deal_ended (end_deal-At s v))
end_deal-asked false k s h v = elim (failed_notice k 8 (record s { deal = ended })) [
  | inl e ↦ rw e (deal_ended (end_deal-At s v))
  | inr e ↦ rw e (deal_lost refl (deal_gone-At s v))
]

pub end_rd-Stage :
    (sure : Bool) (k : Notice) (s : Node)
    → Holds sure k
    → s.rd ≡ asked
    → Stage sure s
    → Stage sure (end_rd k s)
end_rd-Stage sure k s h e (in_use st b v) = absurd cc
end_rd-Stage sure k s h e (rd_asked v) = end_rd-asked sure k s h v
end_rd-Stage sure k s h e (rd_ended v) = absurd cc
end_rd-Stage sure k s h e (rd_lost u v) = absurd cc
end_rd-Stage sure k s h e (wr_asked v) = absurd cc
end_rd-Stage sure k s h e (wr_ended v) = absurd cc
end_rd-Stage sure k s h e (wr_lost u v) = absurd cc
end_rd-Stage sure k s h e (deal_asked v) = absurd cc
end_rd-Stage sure k s h e (deal_ended v) = absurd cc
end_rd-Stage sure k s h e (deal_lost u v) = absurd cc
end_rd-Stage sure k s h e (director_asked v) = absurd cc
end_rd-Stage sure k s h e (closed v) = absurd cc

pub end_wr-Stage :
    (sure : Bool) (k : Notice) (s : Node)
    → Holds sure k
    → s.wr ≡ asked
    → Stage sure s
    → Stage sure (end_wr k s)
end_wr-Stage sure k s h e (in_use st b v) = absurd cc
end_wr-Stage sure k s h e (rd_asked v) = absurd cc
end_wr-Stage sure k s h e (rd_ended v) = absurd cc
end_wr-Stage sure k s h e (rd_lost u v) = absurd cc
end_wr-Stage sure k s h e (wr_asked v) = end_wr-asked sure k s h v
end_wr-Stage sure k s h e (wr_ended v) = absurd cc
end_wr-Stage sure k s h e (wr_lost u v) = absurd cc
end_wr-Stage sure k s h e (deal_asked v) = absurd cc
end_wr-Stage sure k s h e (deal_ended v) = absurd cc
end_wr-Stage sure k s h e (deal_lost u v) = absurd cc
end_wr-Stage sure k s h e (director_asked v) = absurd cc
end_wr-Stage sure k s h e (closed v) = absurd cc

pub end_deal-Stage :
    (sure : Bool) (k : Notice) (s : Node)
    → Holds sure k
    → s.deal ≡ asked
    → Stage sure s
    → Stage sure (end_deal k s)
end_deal-Stage sure k s h e (in_use st b v) = absurd cc
end_deal-Stage sure k s h e (rd_asked v) = absurd cc
end_deal-Stage sure k s h e (rd_ended v) = absurd cc
end_deal-Stage sure k s h e (rd_lost u v) = absurd cc
end_deal-Stage sure k s h e (wr_asked v) = absurd cc
end_deal-Stage sure k s h e (wr_ended v) = absurd cc
end_deal-Stage sure k s h e (wr_lost u v) = absurd cc
end_deal-Stage sure k s h e (deal_asked v) = end_deal-asked sure k s h v
end_deal-Stage sure k s h e (deal_ended v) = absurd cc
end_deal-Stage sure k s h e (deal_lost u v) = absurd cc
end_deal-Stage sure k s h e (director_asked v) = absurd cc
end_deal-Stage sure k s h e (closed v) = absurd cc

pub end_director-Stage :
    (sure : Bool) (s : Node) → s.director ≡ asked → Stage sure s → Stage sure (end_director s)
unfolding end_director
end_director-Stage sure s e (in_use st b v) = absurd cc
end_director-Stage sure s e (rd_asked v) = absurd cc
end_director-Stage sure s e (rd_ended v) = absurd cc
end_director-Stage sure s e (rd_lost u v) = absurd cc
end_director-Stage sure s e (wr_asked v) = absurd cc
end_director-Stage sure s e (wr_ended v) = absurd cc
end_director-Stage sure s e (wr_lost u v) = absurd cc
end_director-Stage sure s e (deal_asked v) = absurd cc
end_director-Stage sure s e (deal_ended v) = absurd cc
end_director-Stage sure s e (deal_lost u v) = absurd cc
end_director-Stage sure s e (director_asked v) = closed (record {
  status = refl;
  rd = v.rd;
  wr = v.wr;
  deal = v.deal;
  director = refl;
  eofs = ap suc v.eofs;
  on_way = v.on_way;
})
end_director-Stage sure s e (closed v) = absurd cc
