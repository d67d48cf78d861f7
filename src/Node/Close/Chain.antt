-- ===== src/Node/Close/Chain.antt =====
-- The stages of a node that is closed (director.cpp).
use high_perf_server.Base.{ℕ, ◌<◌, ◌≡◌, refl, ap, ◌∙◌, Bool, true, false, List, [], ◌∷◌, ◌++◌, ◌==◌}
use high_perf_server.Node.Close.{Life, alive, asked, ended, Cmd, stop, command, Node}

-- The stop messages but those of `close`.
abbrev pub marks_more : Bool → ℕ → List ℕ → List ℕ
marks_more true k ms = ms
marks_more false k ms = k ∷ ms

abbrev pub marks : List Cmd → List ℕ
marks [] = []
marks (stop k ∷ cs) = marks_more (k == 5) k (marks cs)
marks (command c ∷ cs) = marks cs

pub marks-append : (xs ys : List Cmd) → marks (xs ++ ys) ≡ marks xs ++ marks ys
marks-append [] ys = refl
marks-append (stop k ∷ xs) ys = go (k == 5) (marks-append xs ys)
  where
    go :
        (b : Bool)
        → marks (xs ++ ys) ≡ marks xs ++ marks ys
        → marks_more b k (marks (xs ++ ys)) ≡ marks_more b k (marks xs) ++ marks ys
    go true rest = rest
    go false rest = ap (λ ms. k ∷ ms) rest
marks-append (command c ∷ xs) ys = marks-append xs ys

pub record At (s : Node) (st : ℕ) (r w d m : Life) (n : ℕ) (ms : List ℕ) : Type 0 where
  pub status : s.status ≡ st
  pub rd : s.rd ≡ r
  pub wr : s.wr ≡ w
  pub deal : s.deal ≡ d
  pub director : s.director ≡ m
  pub eofs : s.eofs ≡ n
  pub on_way : marks s.cmds ≡ ms

-- The stages of a node. At most one message of the chain is on its way; where `notify` can fail, it may
-- be lost, and then the node stays where it is.
pub data Stage (sure : Bool) (s : Node) : Type 0 where
  in_use : (st : ℕ) → st < 5 → At s st alive alive alive alive 0 [] → Stage sure s
  rd_asked : At s 5 asked alive alive alive 0 [] → Stage sure s
  rd_ended : At s 5 ended alive alive alive 0 (6 ∷ []) → Stage sure s
  rd_lost : sure ≡ false → At s 5 ended alive alive alive 0 [] → Stage sure s
  wr_asked : At s 6 ended asked alive alive 0 [] → Stage sure s
  wr_ended : At s 6 ended ended alive alive 0 (7 ∷ []) → Stage sure s
  wr_lost : sure ≡ false → At s 6 ended ended alive alive 0 [] → Stage sure s
  deal_asked : At s 7 ended ended asked alive 0 [] → Stage sure s
  deal_ended : At s 7 ended ended ended alive 0 (8 ∷ []) → Stage sure s
  deal_lost : sure ≡ false → At s 7 ended ended ended alive 0 [] → Stage sure s
  director_asked : At s 8 ended ended ended asked 0 [] → Stage sure s
  closed : At s 9 ended ended ended ended 1 [] → Stage sure s

-- The same stage.
pub Stage-same :
    {sure : Bool} (s t : Node)
    → (t.status ≡ s.status)
    → (t.rd ≡ s.rd)
    → (t.wr ≡ s.wr)
    → (t.deal ≡ s.deal)
    → (t.director ≡ s.director)
    → (t.eofs ≡ s.eofs)
    → (marks t.cmds ≡ marks s.cmds)
    → Stage sure s
    → Stage sure t
Stage-same {sure} s t a b c d e f g v = go v
  where
    at :
        {st : ℕ} {r w d' m : Life} {n : ℕ} {ms : List ℕ}
        → At s st r w d' m n ms
        → At t st r w d' m n ms
    at v = record {
      status = a ∙ v.status;
      rd = b ∙ v.rd;
      wr = c ∙ v.wr;
      deal = d ∙ v.deal;
      director = e ∙ v.director;
      eofs = f ∙ v.eofs;
      on_way = g ∙ v.on_way;
    }

    go : Stage sure s → Stage sure t
    go (in_use st h v) = in_use st h (at v)
    go (rd_asked v) = rd_asked (at v)
    go (rd_ended v) = rd_ended (at v)
    go (rd_lost h v) = rd_lost h (at v)
    go (wr_asked v) = wr_asked (at v)
    go (wr_ended v) = wr_ended (at v)
    go (wr_lost h v) = wr_lost h (at v)
    go (deal_asked v) = deal_asked (at v)
    go (deal_ended v) = deal_ended (at v)
    go (deal_lost h v) = deal_lost h (at v)
    go (director_asked v) = director_asked (at v)
    go (closed v) = closed (at v)
