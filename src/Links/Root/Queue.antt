-- ===== src/Links/Root/Queue.antt =====
-- push_node, pop_node and splice_root keep the queues of listnode.h, first in first out.
use high_perf_server.Base.{ℕ, ◌≡◌, ◌∙◌, List, [], ◌∷◌, ◌++◌, length}
use high_perf_server.Links.{store}
use high_perf_server.Links.Cells.{store_same, store_other}
use high_perf_server.Links.Chain.{last, but_last, Away, Distinct, Away-last, Distinct-left}
use high_perf_server.Links.Places.{last-Away}
use high_perf_server.Links.Root.{Nodes}

-- The links lead from a through xs.
abbrev pub Run : (ℕ → ℕ) → ℕ → List ℕ → Type 0
Run n a [] = Unit
Run n a (x ∷ xs) = (n a ≡ x) × Run n x xs

-- The links lead from a through xs to NULL.
abbrev pub Trail : (ℕ → ℕ) → ℕ → List ℕ → Type 0
Trail n a [] = n a ≡ 0
Trail n a (x ∷ xs) = (n a ≡ x) × Trail n x xs

-- The root r holds the nodes xs.
abbrev pub IsQueue : Nodes → ℕ → List ℕ → Type 0
IsQueue m r xs =
    Trail m.next r xs
    × (m.tail r ≡ last r xs)
    × (m.count r ≡ length xs)
    × Distinct (r ∷ xs)
    × Away 0 xs

pub Trail-join :
    (n : ℕ → ℕ) (a : ℕ) (xs ys : List ℕ)
    → Run n a xs
    → Trail n (last a xs) ys
    → Trail n a (xs ++ ys)
Trail-join n a [] ys h k = k
Trail-join n a (x ∷ xs) ys (h, hs) k = (h, Trail-join n x xs ys hs k)

pub Trail-left : (n : ℕ → ℕ) (a : ℕ) (xs ys : List ℕ) → Trail n a (xs ++ ys) → Run n a xs
Trail-left n a [] ys h = tt
Trail-left n a (x ∷ xs) ys (h, hs) = (h, Trail-left n x xs ys hs)

pub Trail-right :
    (n : ℕ → ℕ) (a : ℕ) (xs ys : List ℕ) → Trail n a (xs ++ ys) → Trail n (last a xs) ys
Trail-right n a [] ys h = h
Trail-right n a (x ∷ xs) ys (h, hs) = Trail-right n x xs ys hs

pub Trail-Run : (n : ℕ → ℕ) (a : ℕ) (xs : List ℕ) → Trail n a xs → Run n a xs
Trail-Run n a [] h = tt
Trail-Run n a (x ∷ xs) (h, hs) = (h, Trail-Run n x xs hs)

pub Run-store :
    (n : ℕ → ℕ) (p v a : ℕ) (xs : List ℕ)
    → Away p (but_last a xs)
    → Run n a xs
    → Run (store n p v) a xs
Run-store n p v a [] h r = tt
Run-store n p v a (x ∷ xs) (h, hs) (r, rs) = (store_other n p v a h ∙ r, Run-store n p v x xs hs rs)

pub Trail-store :
    (n : ℕ → ℕ) (p v a : ℕ) (xs : List ℕ)
    → Away p (a ∷ xs)
    → Trail n a xs
    → Trail (store n p v) a xs
Trail-store n p v a [] (h, _) r = store_other n p v a h ∙ r
Trail-store n p v a (x ∷ xs) (h, hs) (r, rs) =
    (store_other n p v a h ∙ r, Trail-store n p v x xs hs rs)

-- The end of a trail leads to another.
pub Trail-extend :
    (n : ℕ → ℕ) (a : ℕ) (xs : List ℕ) (y : ℕ) (ys : List ℕ)
    → Distinct (a ∷ xs)
    → Away (last a xs) (y ∷ ys)
    → Run n a xs
    → Trail n y ys
    → Trail (store n (last a xs) y) a (xs ++ y ∷ ys)
Trail-extend n a xs y ys d away r t =
    Trail-join (store n (last a xs) y) a xs (y ∷ ys)
      (Run-store n (last a xs) y a xs (Away-last a xs d) r)
      (store_same n (last a xs) y, Trail-store n (last a xs) y y ys away t)

-- The node z is left out of a trail.
pub Trail-leave :
    (n : ℕ → ℕ) (a : ℕ) (xs : List ℕ) (z : ℕ) (zs : List ℕ)
    → Distinct (a ∷ (xs ++ z ∷ zs))
    → Trail n a (xs ++ z ∷ zs)
    → Trail (store n (last a xs) (n z)) a (xs ++ zs)
Trail-leave n a xs z zs d t =
    Trail-join (store n (last a xs) (n z)) a xs zs
      (Run-store n (last a xs) (n z) a xs (Away-last a xs (Distinct-left (a ∷ xs) (z ∷ zs) d))
        (Trail-left n a xs (z ∷ zs) t))
      (behind zs (last-Away a xs (z ∷ zs) d).1 (Trail-right n a xs (z ∷ zs) t).1)
  where
    behind :
        (zs : List ℕ)
        → Away (last a xs) zs
        → Trail n z zs
        → Trail (store n (last a xs) (n z)) (last a xs) zs
    behind [] _ t = store_same n (last a xs) (n z) ∙ t
    behind (y ∷ ys) away (e, t) =
        (store_same n (last a xs) (n z) ∙ e, Trail-store n (last a xs) (n z) y ys away t)
