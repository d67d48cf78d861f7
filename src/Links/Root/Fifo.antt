-- ===== src/Links/Root/Fifo.antt =====
-- push_node, pop_node and splice_root keep the queues of listnode.h, first in first out.
use high_perf_server.Base.{
  ℕ, suc, ◌+◌, ◌-◌, ◌≡◌, ◌≢◌, refl, sym, ap, ◌∙◌, true, false, List, [], ◌∷◌, ◌++◌, ==_self, ==_ne,
  length-append, append-nil, arith,
}
use mathlib.Core.Path.{subst}
use high_perf_server.Links.{store}
use high_perf_server.Links.Cells.{store_same, store_other}
use high_perf_server.Links.Chain.{
  last, Away, Distinct, All-append, All-right, All-last, Distinct-append, Distinct-Apart,
  Apart-flip,
}
use high_perf_server.Links.Root.{
  Nodes, set_link, set_tail, set_count, init_root_node, init_root, is_root_empty, push_node,
  unlink_first, pop_node, splice_root,
}
use high_perf_server.Links.Root.Queue.{Trail, IsQueue, Trail-Run, Trail-store, Trail-extend}

pub last-append : (a : ℕ) (xs : List ℕ) (y : ℕ) (ys : List ℕ) → last a (xs ++ y ∷ ys) ≡ last y ys
last-append a [] y ys = refl
last-append a (x ∷ xs) y ys = last-append x xs y ys

-- pushNode puts a node behind all others of the root. The node is on no queue.
pub push_node-IsQueue :
    (r n : ℕ) (xs : List ℕ) (m : Nodes)
    → IsQueue m r xs
    → Away n (r ∷ xs)
    → n ≢ 0
    → IsQueue (push_node r n m) r (xs ++ n ∷ [])
unfolding push_node set_count set_tail set_link init_root_node
push_node-IsQueue r n xs m (t, e, c, d, z) away nz = (
  subst (λ p. Trail (store (store m.next n 0) p n) r (xs ++ n ∷ [])) (sym e)
      (Trail-extend (store m.next n 0) r xs n [] d
        ((λ eq. All-last (λ y. y ≢ n) r xs away (sym eq)), tt)
        (Trail-Run (store m.next n 0) r xs (Trail-store m.next n 0 r xs away t))
        (store_same m.next n 0)),
  store_same m.tail r n ∙ sym (last-append r xs n []),
  store_same m.count r (suc (m.count r)) ∙ omega (arith, c, length-append xs (n ∷ [])),
  Distinct-append (r ∷ xs) (n ∷ []) d (tt, tt) (away, tt),
  All-append (λ y. y ≢ 0) xs (n ∷ []) z (nz, tt),
)

root_filled : (r x : ℕ) (m : Nodes) → m.next r ≡ x → x ≢ 0 → is_root_empty r m ≡ false
unfolding is_root_empty
root_filled r x m e h = rw (e, ==_ne x 0 h)

root_empty : (r : ℕ) (m : Nodes) → m.next r ≡ 0 → is_root_empty r m ≡ true
unfolding is_root_empty
root_empty r m e = rw (e, ==_self 0)

-- Memory after the first node x of the queue has been taken.
unfoldable popped : ℕ → ℕ → Nodes → Nodes
popped r x m =
    init_root_node x (set_count r ((unlink_first r x m).count r - 1) (unlink_first r x m))

pop_filled : (r x : ℕ) (m : Nodes) → m.next r ≡ x → x ≢ 0 → pop_node r m ≡ (x, popped r x m)
unfolding pop_node popped
pop_filled r x m e h = rw (root_filled r x m e h, e)

unlink_last :
    (r x : ℕ) (m : Nodes) → m.next x ≡ 0 → unlink_first r x m ≡ set_tail r r (set_link r 0 m)
unfolding unlink_first
unlink_last r x m e = rw e

unlink_more : (r x y : ℕ) (m : Nodes) → m.next x ≡ y → y ≢ 0 → unlink_first r x m ≡ set_link r y m
unfolding unlink_first
unlink_more r x y m e h = rw (e, ==_ne y 0 h)

-- The links and the tail of the root after its first node has been taken.
unlinked :
    (r x : ℕ) (xs : List ℕ) (m : Nodes)
    → IsQueue m r (x ∷ xs)
    → Trail (unlink_first r x m).next r xs
      × ((unlink_first r x m).tail r ≡ last r xs)
      × ((unlink_first r x m).count ≡ m.count)
unfolding set_tail set_link
unlinked r x [] m ((_, t), _, _, _, _) =
    subst (λ u. (u.next r ≡ 0) × (u.tail r ≡ r) × (u.count ≡ m.count)) (sym (unlink_last r x m t))
      (store_same m.next r 0, store_same m.tail r r, refl)
unlinked r x (y ∷ ys) m ((e, (f, t)), et, c, (d, ds), (_, (nz, _))) =
    subst (λ u. Trail u.next r (y ∷ ys) × (u.tail r ≡ last y ys) × (u.count ≡ m.count))
      (sym (unlink_more r x y m f nz))
      ((store_same m.next r y, Trail-store m.next r y y ys d.1 t), et, refl)

popped-IsQueue :
    (r x : ℕ) (xs : List ℕ) (m : Nodes) → IsQueue m r (x ∷ xs) → IsQueue (popped r x m) r xs
unfolding popped set_count init_root_node set_link
popped-IsQueue r x xs m q =
    let (t, e, c) = unlinked r x xs m q in
    let (_, _, n, (d, ds), (_, z)) = q in
    (
      Trail-store (unlink_first r x m).next x 0 r xs ((λ eq. d.0 (sym eq)), ds.0) t,
      e,
      store_same (unlink_first r x m).count r ((unlink_first r x m).count r - 1)
          ∙ ap (λ f. f r - 1) c
          ∙ omega (arith, n),
      (d.1, ds.1),
      z,
    )

-- popNode takes the node that was put first into a filled root, and leaves the others.
pub pop_node-IsQueue :
    (r x : ℕ) (xs : List ℕ) (m : Nodes)
    → IsQueue m r (x ∷ xs)
    → ((pop_node r m).0 ≡ x) × IsQueue ((pop_node r m).1) r xs
pop_node-IsQueue r x xs m q =
    subst (λ (u : ℕ × Nodes). (u.0 ≡ x) × IsQueue u.1 r xs) (sym (pop_filled r x m q.0.0 q.4.0))
      (refl, popped-IsQueue r x xs m q)

spliced_filled :
    (f x t p : ℕ) (m : Nodes)
    → m.next f ≡ x
    → x ≢ 0
    → m.tail t ≡ p
    → splice_root f t m
      ≡ init_root f (set_count t (m.count t + m.count f) (set_tail t (m.tail f) (set_link p x m)))
unfolding splice_root set_link set_tail
spliced_filled f x t p m e h et = rw (root_filled f x m e h, e, et)

spliced_none : (f t : ℕ) (m : Nodes) → m.next f ≡ 0 → splice_root f t m ≡ m
unfolding splice_root
spliced_none f t m e = rw (root_empty f m e)

init_root-IsQueue : (r : ℕ) (m : Nodes) → IsQueue (init_root r m) r []
unfolding init_root set_count set_tail set_link
init_root-IsQueue r m =
    (store_same m.next r 0, store_same m.tail r r, store_same m.count r 0, (tt, tt), tt)

joined-IsQueue :
    (f x : ℕ) (xs : List ℕ) (t : ℕ) (ys : List ℕ) (m : Nodes)
    → IsQueue m f (x ∷ xs)
    → IsQueue m t ys
    → Distinct ((f ∷ x ∷ xs) ++ (t ∷ ys))
    → IsQueue
        (init_root f
          (set_count t (m.count t + m.count f) (set_tail t (m.tail f) (set_link (last t ys) x m))))
        t
        (ys ++ x ∷ xs)
unfolding init_root set_count set_tail set_link
joined-IsQueue f x xs t ys m (h, eh, ch, dh, zh) (k, ek, ck, dk, zk) d =
    let far = All-right (λ y. y ≢ f) (x ∷ xs) (t ∷ ys) d.0 in
    let apart = Distinct-Apart (f ∷ x ∷ xs) (t ∷ ys) d in
    (
      Trail-store (store m.next (last t ys) x) f 0 t (ys ++ x ∷ xs)
          (far.0, All-append (λ y. y ≢ f) ys (x ∷ xs) far.1 dh.0)
          (Trail-extend m.next t ys x xs dk (All-last (λ y. Away y (f ∷ x ∷ xs)) t ys apart).1
            (Trail-Run m.next t ys k) h.1),
      store_other (store m.tail t (m.tail f)) f f t far.0
          ∙ store_same m.tail t (m.tail f)
          ∙ eh
          ∙ sym (last-append t ys x xs),
      store_other (store m.count t (m.count t + m.count f)) f 0 t far.0
          ∙ store_same m.count t (m.count t + m.count f)
          ∙ omega (arith, ch, ck, length-append ys (x ∷ xs)),
      Distinct-append (t ∷ ys) (x ∷ xs) dk dh.1 (Apart-flip (f ∷ x ∷ xs) (t ∷ ys) apart).1,
      All-append (λ y. y ≢ 0) ys (x ∷ xs) zk zh,
    )

-- spliceRoot puts all nodes of one root behind those of another, in their order, and leaves the first
-- root empty. No node may be on both.
pub splice_root-IsQueue :
    (f : ℕ) (xs : List ℕ) (t : ℕ) (ys : List ℕ) (m : Nodes)
    → IsQueue m f xs
    → IsQueue m t ys
    → Distinct ((f ∷ xs) ++ (t ∷ ys))
    → IsQueue (splice_root f t m) f [] × IsQueue (splice_root f t m) t (ys ++ xs)
splice_root-IsQueue f [] t ys m qf qt d =
    subst (λ u. IsQueue u f [] × IsQueue u t (ys ++ [])) (sym (spliced_none f t m qf.0))
      (qf, subst (λ zs. IsQueue m t zs) (sym (append-nil ys)) qt)
splice_root-IsQueue f (x ∷ xs) t ys m qf qt d =
    subst (λ u. IsQueue u f [] × IsQueue u t (ys ++ x ∷ xs))
      (sym (spliced_filled f x t (last t ys) m qf.0.0 qf.4.0 qt.1))
      (
        init_root-IsQueue f (
            set_count t (m.count t + m.count f) (set_tail t (m.tail f) (set_link (last t ys) x m))),
        joined-IsQueue f x xs t ys m qf qt d,
      )
