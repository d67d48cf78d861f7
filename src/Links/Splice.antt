-- ===== src/Links/Splice.antt =====
-- list_splice_front and list_splice_back of listnode.h.
use high_perf_server.Base.{ℕ, ◌≡◌, ◌≢◌, refl, sym, ◌∙◌, List, [], ◌∷◌, ◌++◌, append_assoc}
use mathlib.Core.Path.{subst}
use high_perf_server.Links.{
  Memory, store, set_prev, set_next, set_size, init_list_head, list_splice,
}
use high_perf_server.Links.Cells.{store_same, store_other}
use high_perf_server.Links.Chain.{
  last, but_last, first, Chain, Away, Distinct, Circle, IsList, Apart-flip, Distinct-exchange,
  All-append, All-left, All-right, All-last, All-but_last, All-but_last_end, All-first, All-both,
  All-mono, Away-last, Distinct-Apart, Chain-left, Chain-right, Chain-append, Chain-frame,
}
use high_perf_server.Links.Places.{Places, places, rest, first-rest, cut_circle_first, close_circle}
use high_perf_server.Links.Insert.{first_node, last_node}

-- The cells after the nodes from x to l are put between p and q.
unfoldable pub spliced : ℕ → ℕ → ℕ → ℕ → Memory → Memory
spliced p x l q m = set_next l q (set_prev q l (set_prev x p (set_next p x m)))

module _ (p x l q : ℕ) (m : Memory) where
  list_splice-spliced :
      (f : ℕ)
      → m.next f ≡ x
      → m.prev f ≡ l
      → f ≢ p
      → f ≢ x
      → f ≢ q
      → list_splice f p q m ≡ spliced p x l q m
  unfolding list_splice spliced set_next set_prev
  list_splice-spliced f e e' f_p f_x f_q = rw (
    e,
    store_other m.next p x f f_p,
    e,
    store_other m.prev x p f f_x,
    e',
    store_other (store m.prev x p) q l f f_q,
    store_other m.prev x p f f_x,
    e',
  )

  spliced-next_before : p ≢ l → (spliced p x l q m).next p ≡ x
  unfolding spliced set_next set_prev
  spliced-next_before h = store_other (store m.next p x) l q p h ∙ store_same m.next p x

  spliced-next_end : (spliced p x l q m).next l ≡ q
  unfolding spliced set_next set_prev
  spliced-next_end = store_same (store m.next p x) l q

  spliced-next_other : (y : ℕ) → y ≢ p → y ≢ l → (spliced p x l q m).next y ≡ m.next y
  unfolding spliced set_next set_prev
  spliced-next_other y h k = store_other (store m.next p x) l q y k ∙ store_other m.next p x y h

  spliced-prev_start : x ≢ q → (spliced p x l q m).prev x ≡ p
  unfolding spliced set_next set_prev
  spliced-prev_start h = store_other (store m.prev x p) q l x h ∙ store_same m.prev x p

  spliced-prev_behind : (spliced p x l q m).prev q ≡ l
  unfolding spliced set_next set_prev
  spliced-prev_behind = store_same (store m.prev x p) q l

  spliced-prev_other : (y : ℕ) → y ≢ x → y ≢ q → (spliced p x l q m).prev y ≡ m.prev y
  unfolding spliced set_next set_prev
  spliced-prev_other y h k = store_other (store m.prev x p) q l y k ∙ store_other m.prev x p y h

  spliced-size : (spliced p x l q m).size ≡ m.size
  unfolding spliced set_next set_prev
  spliced-size = refl

  keep-Chain :
      (a : ℕ) (zs : List ℕ)
      → Away p (but_last a zs)
      → Away l (but_last a zs)
      → Away x zs
      → Away q zs
      → Chain m a zs
      → Chain (spliced p x l q m) a zs
  keep-Chain a zs far_p far_l far_x far_q =
      Chain-frame m (spliced p x l q m) a zs
        (All-both (λ y. y ≢ p) (λ y. y ≢ l) (λ y. (spliced p x l q m).next y ≡ m.next y)
          spliced-next_other (but_last a zs) far_p far_l)
        (All-both (λ y. y ≢ x) (λ y. y ≢ q) (λ y. (spliced p x l q m).prev y ≡ m.prev y)
          spliced-prev_other zs far_x far_q)

-- The chain x ∷ xs between t ∷ ys and q ∷ qs.
spliced-Chain :
    (x : ℕ) (xs : List ℕ) (t : ℕ) (ys : List ℕ) (q : ℕ) (qs : List ℕ) (m : Memory)
    → Places x t ys q qs
    → Places (last x xs) t ys q qs
    → Distinct (x ∷ xs)
    → Away (last t ys) (x ∷ xs)
    → Away q (x ∷ xs)
    → Chain m t (ys ++ q ∷ qs)
    → Chain m x xs
    → Chain (spliced (last t ys) x (last x xs) q m) t (ys ++ x ∷ (xs ++ q ∷ qs))
spliced-Chain x xs t ys q qs m (d, q_ys, x_ys, x_qs, p_qs, q_qs) (_, _, l_ys, l_qs, _, _) dx p_xs
      q_xs c cx =
    let p = last t ys in
    let l = last x xs in
    let keep = keep-Chain p x l q m in
    Chain-append (spliced p x l q m) t ys (x ∷ (xs ++ q ∷ qs))
      (keep t ys (Away-last t ys d) (All-but_last (λ y. y ≢ l) t ys l_ys) x_ys.1 q_ys
        (Chain-left m t ys (q ∷ qs) c))
      (
        (
          spliced-next_before p x l q m (All-last (λ y. y ≢ l) t ys l_ys),
          spliced-prev_start p x l q m q_xs.0,
        ),
        Chain-append (spliced p x l q m) x xs (q ∷ qs)
            (keep x xs (All-but_last (λ y. y ≢ p) x xs p_xs) (Away-last x xs dx) dx.0 q_xs.1 cx)
            (
              (spliced-next_end p x l q m, spliced-prev_behind p x l q m),
              keep q qs p_qs (All-but_last (λ y. y ≢ l) q qs l_qs) x_qs.1 q_qs
                  (Chain-right m t ys (q ∷ qs) c).1,
            ),
      )

pub init_list_head-Circle :
    (f t : ℕ) (ys : List ℕ) (m : Memory)
    → Away f (t ∷ ys)
    → Circle m t ys
    → Circle (init_list_head f m) t ys
unfolding init_list_head set_next set_prev set_size
init_list_head-Circle f t ys m a (c, d) = (
  Chain-frame m (init_list_head f m) t (ys ++ t ∷ [])
      (All-but_last_end (λ y. store m.next f f y ≡ m.next y) t ys t
        (All-mono (λ y. y ≢ f) (λ y. store m.next f f y ≡ m.next y) (store_other m.next f f)
          (t ∷ ys) a))
      (All-append (λ y. store m.prev f f y ≡ m.prev y) ys (t ∷ [])
        (All-mono (λ y. y ≢ f) (λ y. store m.prev f f y ≡ m.prev y) (store_other m.prev f f) ys a.1)
        (store_other m.prev f f t a.0, tt))
      c,
  d,
)

-- An empty list.
pub init_list_head-IsList : (f : ℕ) (m : Memory) → IsList (init_list_head f m) f []
unfolding init_list_head set_next set_prev set_size
init_list_head-IsList f m =
    ((((store_same m.next f f, store_same m.prev f f), tt), (tt, tt)), store_same m.size f 0)

-- The nodes x ∷ xs of f are put between the nodes ys and zs of t.
pub list_splice-Circle :
    (f x : ℕ) (xs : List ℕ) (t : ℕ) (ys zs : List ℕ) (m : Memory)
    → Circle m f (x ∷ xs)
    → Circle m t (ys ++ zs)
    → Distinct ((f ∷ x ∷ xs) ++ ((t ∷ ys) ++ zs))
    → Circle (list_splice f (last t ys) (first zs t) m) t (ys ++ ((x ∷ xs) ++ zs))
list_splice-Circle f x xs t ys zs m (cf, df) (ct, dt) d =
    let p = last t ys in
    let q = first zs t in
    let l = last x xs in
    let apart = Distinct-Apart (f ∷ x ∷ xs) ((t ∷ ys) ++ zs) d in
    let flipped = Apart-flip (f ∷ x ∷ xs) ((t ∷ ys) ++ zs) apart in
    let away_p =
      All-last (λ y. Away y (f ∷ x ∷ xs)) t ys
        (All-left (λ y. Away y (f ∷ x ∷ xs)) (t ∷ ys) zs apart) in
    let away_q =
      All-first (λ y. Away y (f ∷ x ∷ xs)) zs t
        (All-right (λ y. Away y (f ∷ x ∷ xs)) (t ∷ ys) zs apart) apart.0 in
    subst (λ m'. Circle m' t (ys ++ ((x ∷ xs) ++ zs)))
      (sym (
        list_splice-spliced p x l q m f (first_node m f (x ∷ xs) (cf, df))
          (last_node m f (x ∷ xs) (cf, df)) away_p.0 (λ e. df.0.0 (sym e)) away_q.0))
      (
        close_circle (spliced p x l q m) t ys ((x ∷ xs) ++ zs) (
            subst (λ us. Chain (spliced p x l q m) t (ys ++ us))
              (sym (append_assoc (x ∷ xs) zs (t ∷ [])))
              (subst (λ us. Chain (spliced p x l q m) t (ys ++ x ∷ (xs ++ us)))
                (sym (first-rest zs t))
                (spliced-Chain x xs t ys q (rest zs t) m (places x t ys zs dt flipped.1.0)
                  (places l t ys zs dt (All-last (λ y. Away y ((t ∷ ys) ++ zs)) x xs flipped.1))
                  df.1 away_p.1 away_q.1 (cut_circle_first m t ys zs ct)
                  (Chain-left m x xs (f ∷ []) cf.1)))),
        Distinct-exchange (x ∷ xs) (t ∷ ys) zs d.1,
      )
