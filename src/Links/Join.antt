-- ===== src/Links/Join.antt =====
-- One list moved to an end of another: list_splice_front and list_splice_back of listnode.h.
use high_perf_server.Base.{
  ℕ, ◌+◌, ◌≡◌, ◌≢◌, refl, sym, ap, ◌∙◌, true, false, List, [], ◌∷◌, ◌++◌, ==_self, ==_ne, length,
  length-append, append-nil, arith,
}
use mathlib.Core.Path.{subst}
use high_perf_server.Links.{
  Memory, store, set_prev, set_next, set_size, init_list_head, list_empty, list_splice, move_size,
  list_splice_front, list_splice_back,
}
use high_perf_server.Links.Cells.{store_same, store_other}
use high_perf_server.Links.Chain.{
  last, first, Away, Distinct, Circle, IsList, All-append, All-left, All-right,
}
use high_perf_server.Links.Insert.{first_node, last_node, set_size-Circle}
use high_perf_server.Links.Splice.{init_list_head-Circle, init_list_head-IsList, list_splice-Circle}

pub empty_list : (f : ℕ) (m : Memory) → m.next f ≡ f → list_empty f m ≡ true
unfolding list_empty
empty_list f m e = rw (e, ==_self f)

pub filled_list : (f : ℕ) (m : Memory) → m.next f ≢ f → list_empty f m ≡ false
unfolding list_empty
filled_list f m h = ==_ne (m.next f) f h

list_splice-size : (f p q : ℕ) (m : Memory) → (list_splice f p q m).size ≡ m.size
unfolding list_splice set_next set_prev
list_splice-size f p q m = refl

moved_size : (f t n : ℕ) (m : Memory) → t ≢ f → (init_list_head f (set_size t n m)).size t ≡ n
unfolding init_list_head set_size set_next set_prev
moved_size f t n m h = store_other (store m.size t n) f 0 t h ∙ store_same m.size t n

-- The sizes that both lists have afterwards.
move_size-IsList :
    (f t : ℕ) (us : List ℕ) (m : Memory)
    → Away f (t ∷ us)
    → Circle m t us
    → m.size t + m.size f ≡ length us
    → IsList (move_size f t m) f [] × IsList (move_size f t m) t us
unfolding move_size
move_size-IsList f t us m a c e =
    let m1 = set_size t (m.size t + m.size f) m in
    (
      init_list_head-IsList f m1,
      (
        init_list_head-Circle f t us m1 a (set_size-Circle t (m.size t + m.size f) t us m c),
        moved_size f t (m.size t + m.size f) m a.0 ∙ e,
      ),
    )

-- Where xs is put between ys and zs, f is none of the nodes of t.
from-Away :
    (f : ℕ) (xs : List ℕ) (t : ℕ) (ys zs : List ℕ)
    → Distinct ((f ∷ xs) ++ ((t ∷ ys) ++ zs))
    → Away f (t ∷ (ys ++ (xs ++ zs)))
from-Away f xs t ys zs (h, d) =
    let behind = All-right (λ y. y ≢ f) xs ((t ∷ ys) ++ zs) h in
    All-append (λ y. y ≢ f) (t ∷ ys) (xs ++ zs) (All-left (λ y. y ≢ f) (t ∷ ys) zs behind)
      (All-append (λ y. y ≢ f) xs zs (All-left (λ y. y ≢ f) xs ((t ∷ ys) ++ zs) h)
        (All-right (λ y. y ≢ f) (t ∷ ys) zs behind))

-- Both lists after all of f has been put between the nodes ys and zs of t.
joined :
    (f x : ℕ) (xs : List ℕ) (t : ℕ) (ys zs : List ℕ) (m : Memory)
    → IsList m f (x ∷ xs)
    → IsList m t (ys ++ zs)
    → Distinct ((f ∷ x ∷ xs) ++ ((t ∷ ys) ++ zs))
    → (let m' = move_size f t (list_splice f (last t ys) (first zs t) m) in
        IsList m' f [] × IsList m' t (ys ++ ((x ∷ xs) ++ zs)))
joined f x xs t ys zs m (cf, sf) (ct, st) d =
    let p = last t ys in
    let q = first zs t in
    move_size-IsList f t (ys ++ ((x ∷ xs) ++ zs)) (list_splice f p q m)
      (from-Away f (x ∷ xs) t ys zs d) (list_splice-Circle f x xs t ys zs m cf ct d)
      (ap (λ g. g t + g f) (list_splice-size f p q m)
        ∙ omega (
          arith,
          sf,
          st,
          length-append ys zs,
          length-append ys ((x ∷ xs) ++ zs),
          length-append (x ∷ xs) zs,
        ))

pub splice_back_filled :
    (f t p : ℕ) (m : Memory)
    → m.next f ≢ f
    → m.prev t ≡ p
    → list_splice_back f t m ≡ move_size f t (list_splice f p t m)
unfolding list_splice_back
splice_back_filled f t p m h e = rw (filled_list f m h, e)

splice_front_filled :
    (f t q : ℕ) (m : Memory)
    → m.next f ≢ f
    → m.next t ≡ q
    → list_splice_front f t m ≡ move_size f t (list_splice f t q m)
unfolding list_splice_front
splice_front_filled f t q m h e = rw (filled_list f m h, e)

splice_back_empty : (f t : ℕ) (m : Memory) → m.next f ≡ f → list_splice_back f t m ≡ m
unfolding list_splice_back
splice_back_empty f t m e = rw (empty_list f m e)

splice_front_empty : (f t : ℕ) (m : Memory) → m.next f ≡ f → list_splice_front f t m ≡ m
unfolding list_splice_front
splice_front_empty f t m e = rw (empty_list f m e)

-- list_splice_back puts the nodes of one list behind those of another, in their order, and leaves the
-- first list empty; both lists count their nodes. No node may be on both lists.
pub list_splice_back-IsList :
    (f : ℕ) (xs : List ℕ) (t : ℕ) (ys : List ℕ) (m : Memory)
    → IsList m f xs
    → IsList m t ys
    → Distinct ((f ∷ xs) ++ (t ∷ ys))
    → IsList (list_splice_back f t m) f [] × IsList (list_splice_back f t m) t (ys ++ xs)
list_splice_back-IsList f [] t ys m hf ht d =
    subst (λ m'. IsList m' f [] × IsList m' t (ys ++ []))
      (sym (splice_back_empty f t m (first_node m f [] hf.0)))
      (hf, subst (λ us. IsList m t us) (sym (append-nil ys)) ht)
list_splice_back-IsList f (x ∷ xs) t ys m hf ht d =
    subst (λ m'. IsList m' f [] × IsList m' t (ys ++ x ∷ xs))
      (sym (
        splice_back_filled f t (last t ys) m (λ e. d.0.0 (sym (first_node m f (x ∷ xs) hf.0) ∙ e))
          (last_node m t ys ht.0)))
      (subst
        (λ us.
          IsList (move_size f t (list_splice f (last t ys) t m)) f []
          × IsList (move_size f t (list_splice f (last t ys) t m)) t (ys ++ us))
        (append-nil (x ∷ xs))
        (joined f x xs t ys [] m hf (subst (λ us. IsList m t us) (sym (append-nil ys)) ht)
          (subst (λ us. Distinct ((f ∷ x ∷ xs) ++ us)) (sym (append-nil (t ∷ ys))) d)))

-- list_splice_front puts the nodes of one list before those of another, in their order, and leaves
-- the first list empty; both lists count their nodes. No node may be on both lists.
pub list_splice_front-IsList :
    (f : ℕ) (xs : List ℕ) (t : ℕ) (ys : List ℕ) (m : Memory)
    → IsList m f xs
    → IsList m t ys
    → Distinct ((f ∷ xs) ++ (t ∷ ys))
    → IsList (list_splice_front f t m) f [] × IsList (list_splice_front f t m) t (xs ++ ys)
list_splice_front-IsList f [] t ys m hf ht d =
    subst (λ m'. IsList m' f [] × IsList m' t ys)
      (sym (splice_front_empty f t m (first_node m f [] hf.0))) (hf, ht)
list_splice_front-IsList f (x ∷ xs) t ys m hf ht d =
    subst (λ m'. IsList m' f [] × IsList m' t ((x ∷ xs) ++ ys))
      (sym (
        splice_front_filled f t (first ys t) m (λ e. d.0.0 (sym (first_node m f (x ∷ xs) hf.0) ∙ e))
          (first_node m t ys ht.0)))
      (joined f x xs t [] ys m hf ht d)
