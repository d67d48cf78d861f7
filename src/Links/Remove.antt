-- ===== src/Links/Remove.antt =====
-- list_del of listnode.h.
use high_perf_server.Base.{
  ℕ, ◌-◌, ◌≡◌, ◌≢◌, refl, sym, ap, ◌∙◌, List, [], ◌∷◌, ◌++◌, ==_self, ==_ne, length, length-append,
  All, arith,
}
use mathlib.Core.Path.{subst}
use high_perf_server.Links.{
  Memory, store, set_prev, set_next, set_size, init_list_node, list_unlink, list_del,
}
use high_perf_server.Links.Cells.{store_same, store_other}
use high_perf_server.Links.Chain.{
  last, but_last, first, Chain, Away, Distinct, Circle, IsList, All-append, All-left, All-right,
  All-last, All-but_last, All-first, All-both, Away-last, Chain-left, Chain-right, Chain-append,
  Chain-frame,
}
use high_perf_server.Links.Places.{Places, places, rest, first-rest, cut_circle, close_circle}

-- The cells after n is taken out between p and q.
unfoldable pub unlinked : ℕ → ℕ → ℕ → Memory → Memory
unlinked n p q m = init_list_node n (set_prev q p (set_next p q m))

module _ (n p q : ℕ) (m : Memory) where
  list_unlink-unlinked : m.prev n ≡ p → m.next n ≡ q → n ≢ p → list_unlink n m ≡ unlinked n p q m
  unfolding list_unlink unlinked set_next
  list_unlink-unlinked e f h = rw (e, f, store_other m.next p q n h, f)

  unlinked-next_self : (unlinked n p q m).next n ≡ n
  unfolding unlinked init_list_node set_next set_prev
  unlinked-next_self = store_same (store m.next p q) n n

  unlinked-next_prev : p ≢ n → (unlinked n p q m).next p ≡ q
  unfolding unlinked init_list_node set_next set_prev
  unlinked-next_prev h = store_other (store m.next p q) n n p h ∙ store_same m.next p q

  unlinked-next_other : (y : ℕ) → y ≢ p → y ≢ n → (unlinked n p q m).next y ≡ m.next y
  unfolding unlinked init_list_node set_next set_prev
  unlinked-next_other y h k = store_other (store m.next p q) n n y k ∙ store_other m.next p q y h

  unlinked-prev_self : (unlinked n p q m).prev n ≡ n
  unfolding unlinked init_list_node set_next set_prev
  unlinked-prev_self = store_same (store m.prev q p) n n

  unlinked-prev_next : q ≢ n → (unlinked n p q m).prev q ≡ p
  unfolding unlinked init_list_node set_next set_prev
  unlinked-prev_next h = store_other (store m.prev q p) n n q h ∙ store_same m.prev q p

  unlinked-prev_other : (y : ℕ) → y ≢ q → y ≢ n → (unlinked n p q m).prev y ≡ m.prev y
  unfolding unlinked init_list_node set_next set_prev
  unlinked-prev_other y h k = store_other (store m.prev q p) n n y k ∙ store_other m.prev q p y h

  unlinked-size : (unlinked n p q m).size ≡ m.size
  unfolding unlinked init_list_node set_next set_prev
  unlinked-size = refl

-- The chains h ∷ xs and q ∷ qs are joined.
unlinked-Chain :
    (n h : ℕ) (xs : List ℕ) (q : ℕ) (qs : List ℕ) (m : Memory)
    → Places n h xs q qs
    → Chain m h (xs ++ n ∷ q ∷ qs)
    → Chain (unlinked n (last h xs) q m) h (xs ++ q ∷ qs)
unlinked-Chain n h xs q qs m (d, far_q, away_n, (n_q, away_qs), front_p, back_q) c =
    Chain-append (unlinked n (last h xs) q m) h xs (q ∷ qs)
      (Chain-frame m (unlinked n (last h xs) q m) h xs
        (keep_next (but_last h xs) (Away-last h xs d) (All-but_last (λ y. y ≢ n) h xs away_n))
        (keep_prev xs far_q away_n.1) (Chain-left m h xs (n ∷ q ∷ qs) c))
      (
        (
          unlinked-next_prev n (last h xs) q m (All-last (λ y. y ≢ n) h xs away_n),
          unlinked-prev_next n (last h xs) q m n_q,
        ),
        Chain-frame m (unlinked n (last h xs) q m) q qs
            (keep_next (but_last q qs) front_p (All-but_last (λ y. y ≢ n) q qs (n_q, away_qs)))
            (keep_prev qs back_q away_qs) (Chain-right m h xs (n ∷ q ∷ qs) c).1.1,
      )
  where
    keep_next :
        (ys : List ℕ)
        → Away (last h xs) ys
        → Away n ys
        → All (λ y. (unlinked n (last h xs) q m).next y ≡ m.next y) ys
    keep_next ys =
        All-both (λ y. y ≢ last h xs) (λ y. y ≢ n)
          (λ y. (unlinked n (last h xs) q m).next y ≡ m.next y)
          (unlinked-next_other n (last h xs) q m) ys

    keep_prev :
        (ys : List ℕ)
        → Away q ys
        → Away n ys
        → All (λ y. (unlinked n (last h xs) q m).prev y ≡ m.prev y) ys
    keep_prev ys =
        All-both (λ y. y ≢ q) (λ y. y ≢ n) (λ y. (unlinked n (last h xs) q m).prev y ≡ m.prev y)
          (unlinked-prev_other n (last h xs) q m) ys

pub Distinct-remove :
    (n : ℕ) (xs ys : List ℕ) → Distinct (xs ++ n ∷ ys) → Distinct (xs ++ ys) × Away n (xs ++ ys)
Distinct-remove n [] ys (h, d) = (d, h)
Distinct-remove n (x ∷ xs) ys (h, d) =
    let (d', a) = Distinct-remove n xs ys d in
    (
      (
        All-append (λ y. y ≢ x) xs ys (All-left (λ y. y ≢ x) xs (n ∷ ys) h)
            (All-right (λ y. y ≢ x) xs (n ∷ ys) h).1,
        d',
      ),
      ((λ e. (All-right (λ y. y ≢ x) xs (n ∷ ys) h).0 (sym e)), a),
    )

-- The neighbours of a node of a circle.
pub neighbours :
    (n h : ℕ) (xs ys : List ℕ) (m : Memory)
    → Circle m h (xs ++ n ∷ ys)
    → (m.prev n ≡ last h xs) × (m.next n ≡ first ys h)
neighbours n h xs ys m (c, _) =
    let around =
      Chain-right m h xs (n ∷ first ys h ∷ rest ys h)
        (subst (λ zs. Chain m h (xs ++ n ∷ zs)) (first-rest ys h) (cut_circle m h xs (n ∷ ys) c)) in
    (around.0.1, around.1.0.0)

pub list_unlink-Circle :
    (n h : ℕ) (xs ys : List ℕ) (m : Memory)
    → Circle m h (xs ++ n ∷ ys)
    → Circle (list_unlink n m) h (xs ++ ys) × ((list_unlink n m).next n ≡ n)
list_unlink-Circle n h xs ys m (c, d) =
    let (d', a) = Distinct-remove n (h ∷ xs) ys d in
    let (e, f) = neighbours n h xs ys m (c, d) in
    subst (λ m'. Circle m' h (xs ++ ys) × (m'.next n ≡ n))
      (sym (
        list_unlink-unlinked n (last h xs) (first ys h) m e f
          (λ eq. All-last (λ y. y ≢ n) h xs (All-left (λ y. y ≢ n) (h ∷ xs) ys a) (sym eq))))
      (
        (
          close_circle (unlinked n (last h xs) (first ys h) m) h xs ys (
              subst (λ zs. Chain (unlinked n (last h xs) (first ys h) m) h (xs ++ zs))
                (sym (first-rest ys h))
                (unlinked-Chain n h xs (first ys h) (rest ys h) m (places n h xs ys d' a) (
                  subst (λ zs. Chain m h (xs ++ n ∷ zs)) (first-rest ys h)
                    (cut_circle m h xs (n ∷ ys) c)))),
          d',
        ),
        unlinked-next_self n (last h xs) (first ys h) m,
      )

list_unlink-size : (n : ℕ) (m : Memory) → (list_unlink n m).size ≡ m.size
unfolding list_unlink init_list_node set_next set_prev
list_unlink-size n m = refl

-- A node that is linked to another is deleted; one that is linked to itself is let be.
list_del-linked :
    (n h : ℕ) (m : Memory)
    → m.next n ≢ n
    → list_del n h m ≡ set_size h ((list_unlink n m).size h - 1) (list_unlink n m)
unfolding list_del
list_del-linked n h m k = rw (==_ne (m.next n) n k)

list_del-alone : (n h : ℕ) (m : Memory) → m.next n ≡ n → list_del n h m ≡ m
unfolding list_del
list_del-alone n h m e = rw (e, ==_self n)

set_size-next : (h k : ℕ) (m : Memory) (n : ℕ) → m.next n ≡ n → (set_size h k m).next n ≡ n
unfolding set_size
set_size-next h k m n e = e

-- A list that has lost one node.
uncounted :
    (n h : ℕ) (xs ys : List ℕ) (m1 : Memory)
    → Circle m1 h (xs ++ ys)
    → m1.size h ≡ length (xs ++ n ∷ ys)
    → IsList (set_size h (m1.size h - 1) m1) h (xs ++ ys)
unfolding set_size
uncounted n h xs ys m1 c s = (
  c,
  store_same m1.size h (m1.size h - 1)
      ∙ omega (arith, s, length-append xs ys, length-append xs (n ∷ ys)),
)

-- list_del takes its node out of the list and nothing else; the same call once more does nothing.
pub list_del-IsList :
    (n h : ℕ) (xs ys : List ℕ) (m : Memory)
    → IsList m h (xs ++ n ∷ ys)
    → IsList (list_del n h m) h (xs ++ ys) × (list_del n h (list_del n h m) ≡ list_del n h m)
list_del-IsList n h xs ys m (c, s) =
    let a = (Distinct-remove n (h ∷ xs) ys c.1).1 in
    let e = (neighbours n h xs ys m c).1 in
    let linked =
      list_del-linked n h m
        (λ eq. All-first (λ y. y ≢ n) ys h (All-right (λ y. y ≢ n) xs ys a.1) a.0 (sym e ∙ eq)) in
    let (c', alone) = list_unlink-Circle n h xs ys m c in
    subst (λ m'. IsList m' h (xs ++ ys) × (list_del n h m' ≡ m')) (sym linked)
      (
        uncounted n h xs ys (list_unlink n m) c' (ap (λ f. f h) (list_unlink-size n m) ∙ s),
        list_del-alone n h (set_size h ((list_unlink n m).size h - 1) (list_unlink n m))
            (set_size-next h ((list_unlink n m).size h - 1) (list_unlink n m) n alone),
      )
