-- ===== src/Links/Replace.antt =====
-- A whole list moved to an empty one: list_replace of listnode.h.
use high_perf_server.Base.{ℕ, ◌+◌, ◌≡◌, ◌≢◌, sym, ◌∙◌, List, [], ◌∷◌, ◌++◌, arith}
use mathlib.Core.Path.{subst}
use high_perf_server.Links.{Memory, store, set_prev, set_next, list_splice, move_size, list_replace}
use high_perf_server.Links.Cells.{store_same, store_other}
use high_perf_server.Links.Chain.{Distinct, IsList, All-right}
use high_perf_server.Links.Insert.{first_node, last_node}
use high_perf_server.Links.Join.{list_splice_back-IsList, filled_list, splice_back_filled}

-- On an empty list, replacing does what splicing does.
replace_filled :
    (f t : ℕ) (m : Memory)
    → m.next f ≢ f
    → m.size t ≡ 0
    → f ≢ t
    → list_replace f t m ≡ move_size f t (list_splice f t t m)
unfolding list_replace move_size list_splice set_next set_prev
replace_filled f t m h s f_t =
    let size : m.size t + m.size f ≡ m.size f = omega (arith, s) in
    let prev = store m.prev (m.next f) t in
    rw (
      filled_list f m h,
      store_same m.next t (m.next f),
      store_other m.next t (m.next f) f f_t,
      store_same prev t (prev f),
      store_other prev t (prev f) f f_t,
      size,
    )

-- list_replace gives all nodes of one list to an empty one, in their order, and leaves the first list
-- empty; both lists count their nodes.
pub list_replace-IsList :
    (f x : ℕ) (xs : List ℕ) (t : ℕ) (m : Memory)
    → IsList m f (x ∷ xs)
    → IsList m t []
    → Distinct ((f ∷ x ∷ xs) ++ (t ∷ []))
    → IsList (list_replace f t m) f [] × IsList (list_replace f t m) t (x ∷ xs)
list_replace-IsList f x xs t m hf ht d =
    let filled : m.next f ≢ f = λ e. d.0.0 (sym (first_node m f (x ∷ xs) (hf.0)) ∙ e) in
    let apart : f ≢ t = λ e. (All-right (λ y. y ≢ f) (x ∷ xs) (t ∷ []) (d.0)).0 (sym e) in
    subst (λ m'. IsList m' f [] × IsList m' t (x ∷ xs))
      (splice_back_filled f t t m filled (last_node m t [] (ht.0))
        ∙ sym (replace_filled f t m filled (ht.1) apart))
      (list_splice_back-IsList f (x ∷ xs) t [] m hf ht d)
