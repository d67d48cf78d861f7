-- ===== src/Links/Insert.antt =====
-- list_add, list_add_front and list_add_back of listnode.h.
use high_perf_server.Base.{
  ℕ, suc, ◌≡◌, ◌≢◌, refl, sym, ap, ◌∙◌, List, [], ◌∷◌, ◌++◌, length, length-append, All, arith,
  append-nil,
}
use mathlib.Core.Path.{subst}
use high_perf_server.Links.{
  Memory, store, set_prev, set_next, set_size, list_add, list_add_front, list_add_back,
}
use high_perf_server.Links.Cells.{store_same, store_other}
use high_perf_server.Links.Places.{Places, places, rest, first-rest, cut_circle_first, close_circle}
use high_perf_server.Links.Chain.{
  last, but_last, first, Chain, Away, Distinct, Circle, IsList, All-append, All-left, All-right,
  All-last, All-but_last, All-both, Away-last, Chain-left, Chain-right, Chain-append, Chain-frame,
}

-- The cells after list_add of n between p and q.
module _ (n p q : ℕ) (m : Memory) where
  pub list_add-next_prev : (list_add n p q m).next p ≡ n
  unfolding list_add set_next set_prev
  list_add-next_prev = store_same (store m.next n q) p n

  pub list_add-next_added : n ≢ p → (list_add n p q m).next n ≡ q
  unfolding list_add set_next set_prev
  list_add-next_added h = store_other (store m.next n q) p n n h ∙ store_same m.next n q

  pub list_add-next_other : (y : ℕ) → y ≢ p → y ≢ n → (list_add n p q m).next y ≡ m.next y
  unfolding list_add set_next set_prev
  list_add-next_other y h k = store_other (store m.next n q) p n y h ∙ store_other m.next n q y k

  pub list_add-prev_next : (list_add n p q m).prev q ≡ n
  unfolding list_add set_next set_prev
  list_add-prev_next = store_same (store m.prev n p) q n

  pub list_add-prev_added : n ≢ q → (list_add n p q m).prev n ≡ p
  unfolding list_add set_next set_prev
  list_add-prev_added h = store_other (store m.prev n p) q n n h ∙ store_same m.prev n p

  pub list_add-prev_other : (y : ℕ) → y ≢ q → y ≢ n → (list_add n p q m).prev y ≡ m.prev y
  unfolding list_add set_next set_prev
  list_add-prev_other y h k = store_other (store m.prev n p) q n y h ∙ store_other m.prev n p y k

  pub list_add-size : (list_add n p q m).size ≡ m.size
  unfolding list_add set_next set_prev
  list_add-size = refl

-- A node between the chains h ∷ xs and q ∷ qs.
list_add-Chain :
    (n h : ℕ) (xs : List ℕ) (q : ℕ) (qs : List ℕ) (m : Memory)
    → Places n h xs q qs
    → Chain m h (xs ++ q ∷ qs)
    → Chain (list_add n (last h xs) q m) h (xs ++ n ∷ q ∷ qs)
list_add-Chain n h xs q qs m (d, far_q, away_n, (n_q, away_qs), front_p, back_q) c =
    Chain-append (list_add n (last h xs) q m) h xs (n ∷ q ∷ qs)
      (Chain-frame m (list_add n (last h xs) q m) h xs
        (keep_next (but_last h xs) (Away-last h xs d) (All-but_last (λ y. y ≢ n) h xs away_n))
        (keep_prev xs far_q away_n.1) (Chain-left m h xs (q ∷ qs) c))
      (
        (
          list_add-next_prev n (last h xs) q m,
          list_add-prev_added n (last h xs) q m (λ e. n_q (sym e)),
        ),
        (
          (
            list_add-next_added n (last h xs) q m (λ e. All-last (λ y. y ≢ n) h xs away_n (sym e)),
            list_add-prev_next n (last h xs) q m,
          ),
          Chain-frame m (list_add n (last h xs) q m) q qs
              (keep_next (but_last q qs) front_p (All-but_last (λ y. y ≢ n) q qs (n_q, away_qs)))
              (keep_prev qs back_q away_qs) (Chain-right m h xs (q ∷ qs) c).1,
        ),
      )
  where
    keep_next :
        (ys : List ℕ)
        → Away (last h xs) ys
        → Away n ys
        → All (λ y. (list_add n (last h xs) q m).next y ≡ m.next y) ys
    keep_next ys =
        All-both (λ y. y ≢ last h xs) (λ y. y ≢ n)
          (λ y. (list_add n (last h xs) q m).next y ≡ m.next y)
          (list_add-next_other n (last h xs) q m) ys

    keep_prev :
        (ys : List ℕ)
        → Away q ys
        → Away n ys
        → All (λ y. (list_add n (last h xs) q m).prev y ≡ m.prev y) ys
    keep_prev ys =
        All-both (λ y. y ≢ q) (λ y. y ≢ n) (λ y. (list_add n (last h xs) q m).prev y ≡ m.prev y)
          (list_add-prev_other n (last h xs) q m) ys

-- A new node keeps the nodes different.
Distinct-insert :
    (n : ℕ) (xs ys : List ℕ) → Distinct (xs ++ ys) → Away n (xs ++ ys) → Distinct (xs ++ n ∷ ys)
Distinct-insert n [] ys d a = (a, d)
Distinct-insert n (x ∷ xs) ys (h, d) (k, a) = (
  All-append (λ y. y ≢ x) xs (n ∷ ys) (All-left (λ y. y ≢ x) xs ys h)
      ((λ e. k (sym e)), All-right (λ y. y ≢ x) xs ys h),
  Distinct-insert n xs ys d a,
)

-- A node between xs and ys on the circle of h.
pub list_add-Circle :
    (n h : ℕ) (xs ys : List ℕ) (m : Memory)
    → Circle m h (xs ++ ys)
    → Away n (h ∷ (xs ++ ys))
    → Circle (list_add n (last h xs) (first ys h) m) h (xs ++ n ∷ ys)
list_add-Circle n h xs ys m (c, d) a = (
  close_circle (list_add n (last h xs) (first ys h) m) h xs (n ∷ ys) (
      subst (λ zs. Chain (list_add n (last h xs) (first ys h) m) h (xs ++ n ∷ zs))
        (sym (first-rest ys h))
        (list_add-Chain n h xs (first ys h) (rest ys h) m (places n h xs ys d a)
          (cut_circle_first m h xs ys c))),
  Distinct-insert n (h ∷ xs) ys d a,
)

-- The ends of a list.
pub first_node : (m : Memory) (h : ℕ) (xs : List ℕ) → Circle m h xs → m.next h ≡ first xs h
first_node m h [] (c, _) = c.0.0
first_node m h (x ∷ xs) (c, _) = c.0.0

pub last_node : (m : Memory) (h : ℕ) (xs : List ℕ) → Circle m h xs → m.prev h ≡ last h xs
last_node m h xs (c, _) = (Chain-right m h xs (h ∷ []) c).0.1

-- The same list in memory with another count.
pub set_size-Circle :
    (a v h : ℕ) (xs : List ℕ) (m : Memory) → Circle m h xs → Circle (set_size a v m) h xs
unfolding set_size
set_size-Circle a v h xs m c = c

-- A list grows by one node, wherever list_add puts it.
pub counted :
    (n h : ℕ) (xs ys : List ℕ) (m1 : Memory)
    → Circle m1 h (xs ++ n ∷ ys)
    → m1.size h ≡ length (xs ++ ys)
    → IsList (set_size h (suc (m1.size h)) m1) h (xs ++ n ∷ ys)
unfolding set_size
counted n h xs ys m1 c s = (
  c,
  store_same m1.size h (suc (m1.size h))
      ∙ omega (arith, s, length-append xs ys, length-append xs (n ∷ ys)),
)

-- list_add_back puts a new node behind all nodes of a list and counts it. The node is not on the list.
pub list_add_back-IsList :
    (n h : ℕ) (xs : List ℕ) (m : Memory)
    → IsList m h xs
    → Away n (h ∷ xs)
    → IsList (list_add_back n h m) h (xs ++ n ∷ [])
unfolding list_add_back
list_add_back-IsList n h xs m (c, s) a =
    counted n h xs [] (list_add n (m.prev h) h m)
      (subst (λ p. Circle (list_add n p h m) h (xs ++ n ∷ [])) (sym (last_node m h xs c))
        (list_add-Circle n h xs [] m (subst (λ zs. Circle m h zs) (sym (append-nil xs)) c)
          (subst (λ zs. Away n (h ∷ zs)) (sym (append-nil xs)) a)))
      (ap (λ f. f h) (list_add-size n (m.prev h) h m) ∙ s ∙ ap length (sym (append-nil xs)))

-- list_add_front puts a new node before all nodes of a list and counts it. The node is not on the list.
pub list_add_front-IsList :
    (n h : ℕ) (xs : List ℕ) (m : Memory)
    → IsList m h xs
    → Away n (h ∷ xs)
    → IsList (list_add_front n h m) h (n ∷ xs)
unfolding list_add_front
list_add_front-IsList n h xs m (c, s) a =
    counted n h [] xs (list_add n h (m.next h) m)
      (subst (λ q. Circle (list_add n h q m) h (n ∷ xs)) (sym (first_node m h xs c))
        (list_add-Circle n h [] xs m c a))
      (ap (λ f. f h) (list_add-size n h (m.next h) m) ∙ s)
