-- ===== src/Links/Root/Consume.antt =====
-- The loop of Pooler::consume (tasker.cpp) over its queue.
use high_perf_server.Base.{
  ℕ, suc, ◌-◌, ◌≡◌, ◌≢◌, sym, ap, ◌∙◌, Bool, true, false, List, [], ◌∷◌, ◌++◌, ==_ne, if◌then◌else◌,
  length, length-append, append-nil, append_assoc, arith, Bool-cases, inl, inr,
}
use mathlib.Core.Path.{subst}
use high_perf_server.Links.Cells.{store_same}
use high_perf_server.Links.Chain.{last, first, Away, Distinct, All-append, All-left, All-right}
use high_perf_server.Links.Remove.{Distinct-remove}
use high_perf_server.Links.Root.{Nodes, set_link, set_tail, set_count, consume_loop, consume_queue}
use high_perf_server.Links.Root.Queue.{Trail, IsQueue, Trail-right, Trail-leave}
use high_perf_server.Links.Root.Fifo.{last-append}

-- The tasks that are kept.
abbrev pub kept : (ℕ → Bool) → List ℕ → List ℕ
kept done [] = []
kept done (x ∷ xs) = if done x then kept done xs else x ∷ kept done xs

-- A queue of which the tail is not known.
abbrev Open : Nodes → ℕ → List ℕ → Type 0
Open m r xs = Trail m.next r xs × (m.count r ≡ length xs) × Distinct (r ∷ xs) × Away 0 xs

erase-Open :
    (r : ℕ) (ks : List ℕ) (z : ℕ) (zs : List ℕ) (m : Nodes)
    → Open m r (ks ++ z ∷ zs)
    → Open (set_count r (m.count r - 1) (set_link (last r ks) (m.next z) m)) r (ks ++ zs)
unfolding set_count set_link
erase-Open r ks z zs m (t, c, d, nz) = (
  Trail-leave m.next r ks z zs d t,
  store_same m.count r (m.count r - 1)
      ∙ omega (arith, c, length-append ks (z ∷ zs), length-append ks zs),
  (Distinct-remove z (r ∷ ks) zs d).0,
  All-append (λ y. y ≢ 0) ks zs (All-left (λ y. y ≢ 0) ks (z ∷ zs) nz)
      (All-right (λ y. y ≢ 0) ks (z ∷ zs) nz).1,
)

-- The steps of the loop.
module _ (fuel : ℕ) (done : ℕ → Bool) (r p curr : ℕ) (m : Nodes) where
  loop_end : curr ≡ 0 → consume_loop (suc fuel) done r p curr m ≡ (p, m)
  unfolding consume_loop
  loop_end e = rw e

  loop_erase :
      curr ≢ 0
      → done curr ≡ true
      → consume_loop (suc fuel) done r p curr m
        ≡ consume_loop fuel done r p
            (m.next curr)
            (set_count r (m.count r - 1) (set_link p (m.next curr) m))
  unfolding consume_loop
  loop_erase h e = rw (==_ne curr 0 h, e)

  loop_keep :
      curr ≢ 0
      → done curr ≡ false
      → consume_loop (suc fuel) done r p curr m ≡ consume_loop fuel done r curr (m.next curr) m
  unfolding consume_loop
  loop_keep h e = rw (==_ne curr 0 h, e)

trail_first : (n : ℕ → ℕ) (a : ℕ) (zs : List ℕ) → Trail n a zs → n a ≡ first zs 0
trail_first n a [] t = t
trail_first n a (z ∷ zs) t = t.0

-- What the loop leaves: the last of its tasks, and the queue.
abbrev Leaves : ℕ → ℕ × Nodes → List ℕ → Type 0
Leaves r out ws = Open out.1 r ws × (out.0 ≡ last r ws)

kept_erase :
    (done : ℕ → Bool) (z : ℕ) (zs : List ℕ) → done z ≡ true → kept done (z ∷ zs) ≡ kept done zs
kept_erase done z zs d = rw d

kept_keep :
    (done : ℕ → Bool) (z : ℕ) (zs : List ℕ) → done z ≡ false → kept done (z ∷ zs) ≡ z ∷ kept done zs
kept_keep done z zs d = rw d

-- One turn of the loop, at the task z.
module _ (fuel : ℕ) (done : ℕ → Bool) (r : ℕ) (ks : List ℕ) (z : ℕ) (zs : List ℕ) (m : Nodes) where
  erase-Leaves :
      z ≢ 0
      → done z ≡ true
      → Leaves r
          (consume_loop fuel done r
            (last r ks)
            (m.next z)
            (set_count r (m.count r - 1) (set_link (last r ks) (m.next z) m)))
          (ks ++ kept done zs)
      → Leaves r (consume_loop (suc fuel) done r (last r ks) z m) (ks ++ kept done (z ∷ zs))
  erase-Leaves nz d h =
      subst (λ ws. Leaves r (consume_loop (suc fuel) done r (last r ks) z m) (ks ++ ws))
        (sym (kept_erase done z zs d))
        (subst (λ out. Leaves r out (ks ++ kept done zs))
          (sym (loop_erase fuel done r (last r ks) z m nz d)) h)

  keep-Leaves :
      z ≢ 0
      → done z ≡ false
      → Leaves r
          (consume_loop fuel done r (last r (ks ++ z ∷ [])) (m.next z) m)
          ((ks ++ z ∷ []) ++ kept done zs)
      → Leaves r (consume_loop (suc fuel) done r (last r ks) z m) (ks ++ kept done (z ∷ zs))
  keep-Leaves nz d h =
      subst (λ ws. Leaves r (consume_loop (suc fuel) done r (last r ks) z m) ws)
        (append_assoc ks (z ∷ []) (kept done zs)
          ∙ ap (λ ws. ks ++ ws) (sym (kept_keep done z zs d)))
        (subst (λ out. Leaves r out ((ks ++ z ∷ []) ++ kept done zs))
          (sym (loop_keep fuel done r (last r ks) z m nz d))
          (subst
            (λ p.
              Leaves r (consume_loop fuel done r p (m.next z) m) ((ks ++ z ∷ []) ++ kept done zs))
            (last-append r ks z []) h))

-- The loop at the first of the tasks zs, behind the tasks ks that have been kept.
loop-Leaves :
    (done : ℕ → Bool) (r : ℕ) (ks zs : List ℕ) (m : Nodes) (curr : ℕ)
    → curr ≡ first zs 0
    → Open m r (ks ++ zs)
    → Leaves r (consume_loop (suc (length zs)) done r (last r ks) curr m) (ks ++ kept done zs)
loop-Leaves done r ks [] m curr e o =
    subst (λ out. Leaves r out (ks ++ [])) (sym (loop_end 0 done r (last r ks) curr m e))
      (o, ap (last r) (sym (append-nil ks)))
loop-Leaves done r ks (z ∷ zs) m curr e o =
    let nz = (All-right (λ y. y ≢ 0) ks (z ∷ zs) o.3).0 in
    let next_z = trail_first m.next z zs (Trail-right m.next r ks (z ∷ zs) o.0).1 in
    subst
      (λ c.
        Leaves r (consume_loop (suc (suc (length zs))) done r (last r ks) c m)
          (ks ++ kept done (z ∷ zs)))
      (sym e)
      (elim (Bool-cases (done z)) [
        | inl d ↦ erase-Leaves (suc (length zs)) done r ks z zs m nz d (
            loop-Leaves done r ks zs
              (set_count r (m.count r - 1) (set_link (last r ks) (m.next z) m)) (m.next z) next_z
              (erase-Open r ks z zs m o))
        | inr d ↦ keep-Leaves (suc (length zs)) done r ks z zs m nz d (
            loop-Leaves done r (ks ++ z ∷ []) zs m (m.next z) next_z
              (subst (λ ws. Open m r ws) (sym (append_assoc ks (z ∷ []) zs)) o))
      ])

-- One run of the loop over the queue keeps the tasks that are not done, in their order, and sets the
-- count and the tail of the root; it ends after one step for each task, and one more.
pub consume_queue-IsQueue :
    (done : ℕ → Bool) (r : ℕ) (xs : List ℕ) (m : Nodes)
    → IsQueue m r xs
    → IsQueue (consume_queue (suc (m.count r)) done r m) r (kept done xs)
unfolding consume_queue set_tail
consume_queue-IsQueue done r xs m (t, e, c, d, nz) =
    let (left, tail) =
      subst (λ n. Leaves r (consume_loop (suc n) done r r (m.next r) m) (kept done xs)) (sym c)
        (loop-Leaves done r [] xs m (m.next r) (trail_first m.next r xs t) (t, c, d, nz)) in
    let out = consume_loop (suc (m.count r)) done r r (m.next r) m in
    (left.0, store_same out.1.tail r out.0 ∙ tail, left.1, left.2, left.3)
