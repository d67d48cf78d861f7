-- ===== src/Links/Walk.antt =====
-- The loops list_for_each and list_for_each_prev of listnode.h.
use high_perf_server.Base.{
  ℕ, suc, ◌+◌, ◌≡◌, sym, ap, ◌∙◌, List, [], ◌∷◌, ◌++◌, ==_self, ==_ne, length, append_assoc,
  append-nil, arith,
}
use high_perf_server.Links.{Memory, list_for_each, list_for_each_prev}
use high_perf_server.Links.Chain.{last, Chain, Away, Circle, IsList, Chain-left}
use high_perf_server.Links.Insert.{last_node}

-- The nodes of a chain that ends at h.
walk-Chain :
    (h : ℕ) (m : Memory) (x : ℕ) (xs : List ℕ)
    → Away h (x ∷ xs)
    → Chain m x (xs ++ h ∷ [])
    → list_for_each (suc (suc (length xs))) x h m ≡ x ∷ xs
walk-Chain h m x [] (x_h, _) ((e, _), _) = rw (==_ne x h x_h, e, ==_self h)
walk-Chain h m x (y ∷ ys) (x_h, away) ((e, _), c) =
    rw (==_ne x h x_h, e) (ap (λ r. x ∷ r) (walk-Chain h m y ys away c))

abbrev pub reverse : List ℕ → List ℕ
reverse [] = []
reverse (x ∷ xs) = reverse xs ++ x ∷ []

back-Chain :
    (h : ℕ) (m : Memory) (k a : ℕ) (xs : List ℕ)
    → Away h xs
    → Chain m a xs
    → list_for_each_prev (length xs + k) (last a xs) h m ≡ reverse xs ++ list_for_each_prev k a h m
back-Chain h m k a [] _ _ = ap (λ n. list_for_each_prev n a h m) {x = 0 + k} {y = k} (omega arith)
back-Chain h m k a (x ∷ xs) (x_h, away) ((_, e), c) =
    ap (λ n. list_for_each_prev n (last x xs) h m) (omega arith)
    ∙ back-Chain h m (suc k) x xs away c
    ∙ ap (λ r. reverse xs ++ r) (rw (==_ne x h x_h, e))
    ∙ sym (append_assoc (reverse xs) (x ∷ []) (list_for_each_prev k a h m))

-- The loops over a list end after one step for each node, and one more: forwards they visit the nodes
-- in their order, backwards in the opposite order.
pub list_walks :
    (h : ℕ) (xs : List ℕ) (m : Memory)
    → IsList m h xs
    → (list_for_each (suc (m.size h)) (m.next h) h m ≡ xs)
      × (list_for_each_prev (suc (m.size h)) (m.prev h) h m ≡ reverse xs)
list_walks h xs m (c, s) =
    let fuel : suc (m.size h) ≡ length xs + 1 = omega (arith, s) in
    (
      ap (λ n. list_for_each (suc n) (m.next h) h m) s ∙ forwards h xs m c,
      ap (λ n. list_for_each_prev n (m.prev h) h m) fuel
          ∙ ap (λ p. list_for_each_prev (length xs + 1) p h m) (last_node m h xs c)
          ∙ back-Chain h m 1 h xs c.1.0 (Chain-left m h xs (h ∷ []) c.0)
          ∙ ap (λ r. reverse xs ++ r) (rw (==_self h))
          ∙ append-nil (reverse xs),
    )
  where
    forwards :
        (h : ℕ) (xs : List ℕ) (m : Memory)
        → Circle m h xs
        → list_for_each (suc (length xs)) (m.next h) h m ≡ xs
    forwards h [] m (((e, _), _), _) = rw (e, ==_self h)
    forwards h (x ∷ xs) m (((e, _), c), (away, _)) = rw e (walk-Chain h m x xs away c)
