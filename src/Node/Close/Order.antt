-- ===== src/Node/Close/Order.antt =====
-- The order in which the tasks of a node end (director.cpp).
use high_perf_server.Base.{◌≡◌, ◌⊎◌, inl, inr, Bool}
use high_perf_server.Node.Close.{alive, ended, Node, Reach}
use high_perf_server.Node.Close.Chain.{
  Stage, in_use, rd_asked, rd_ended, rd_lost, wr_asked, wr_ended, wr_lost, deal_asked, deal_ended,
  deal_lost, director_asked, closed,
}
use high_perf_server.Node.Close.Invariant.{Reach-Stage}

-- Each task ends before the next one is asked to, and the node is given up behind them all.
pub record IsOrdered (s : Node) : Type 0 where
  pub rd_wr : (s.wr ≡ alive) ⊎ (s.rd ≡ ended)
  pub wr_deal : (s.deal ≡ alive) ⊎ (s.wr ≡ ended)
  pub deal_director : (s.director ≡ alive) ⊎ (s.deal ≡ ended)
  pub director_eof : (s.eofs ≡ 0) ⊎ ((s.eofs ≡ 1) × (s.director ≡ ended) × (s.status ≡ 9))

Stage-IsOrdered : {sure : Bool} (s : Node) → Stage sure s → IsOrdered s
Stage-IsOrdered s (in_use st h v) = record {
  rd_wr = inl v.wr;
  wr_deal = inl v.deal;
  deal_director = inl v.director;
  director_eof = inl v.eofs;
}
Stage-IsOrdered s (rd_asked v) = record {
  rd_wr = inl v.wr;
  wr_deal = inl v.deal;
  deal_director = inl v.director;
  director_eof = inl v.eofs;
}
Stage-IsOrdered s (rd_ended v) = record {
  rd_wr = inl v.wr;
  wr_deal = inl v.deal;
  deal_director = inl v.director;
  director_eof = inl v.eofs;
}
Stage-IsOrdered s (rd_lost u v) = record {
  rd_wr = inl v.wr;
  wr_deal = inl v.deal;
  deal_director = inl v.director;
  director_eof = inl v.eofs;
}
Stage-IsOrdered s (wr_asked v) = record {
  rd_wr = inr v.rd;
  wr_deal = inl v.deal;
  deal_director = inl v.director;
  director_eof = inl v.eofs;
}
Stage-IsOrdered s (wr_ended v) = record {
  rd_wr = inr v.rd;
  wr_deal = inl v.deal;
  deal_director = inl v.director;
  director_eof = inl v.eofs;
}
Stage-IsOrdered s (wr_lost u v) = record {
  rd_wr = inr v.rd;
  wr_deal = inl v.deal;
  deal_director = inl v.director;
  director_eof = inl v.eofs;
}
Stage-IsOrdered s (deal_asked v) = record {
  rd_wr = inr v.rd;
  wr_deal = inr v.wr;
  deal_director = inl v.director;
  director_eof = inl v.eofs;
}
Stage-IsOrdered s (deal_ended v) = record {
  rd_wr = inr v.rd;
  wr_deal = inr v.wr;
  deal_director = inl v.director;
  director_eof = inl v.eofs;
}
Stage-IsOrdered s (deal_lost u v) = record {
  rd_wr = inr v.rd;
  wr_deal = inr v.wr;
  deal_director = inl v.director;
  director_eof = inl v.eofs;
}
Stage-IsOrdered s (director_asked v) = record {
  rd_wr = inr v.rd;
  wr_deal = inr v.wr;
  deal_director = inr v.deal;
  director_eof = inl v.eofs;
}
Stage-IsOrdered s (closed v) = record {
  rd_wr = inr v.rd;
  wr_deal = inr v.wr;
  deal_director = inr v.deal;
  director_eof = inr (v.eofs, v.director, v.status);
}

-- However often a node is closed, from whatever threads, in whatever order its tasks and the director
-- run, and whichever calls of `notify` fail: the receiver's task has ended before the sender's is asked to, that one before the
-- dealer's, and that one before the director's own; and the node's `eof` is called at most once,
-- when the director's task has ended. The node is no connector that waits for its connection.
pub closes_in_order : {sure : Bool} {s : Node} → Reach sure s → IsOrdered s
closes_in_order {sure} {s} r = Stage-IsOrdered s (Reach-Stage r)
