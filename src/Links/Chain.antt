-- ===== src/Links/Chain.antt =====
-- Chains of linked cells, and the circles that the lists of listnode.h are.
use high_perf_server.Base.{ℕ, ◌≡◌, ◌≢◌, sym, ◌∙◌, List, [], ◌∷◌, ◌++◌, length, All}
use high_perf_server.Links.{Memory}

-- The last of the nodes a ∷ xs.
abbrev pub last : ℕ → List ℕ → ℕ
last a [] = a
last a (x ∷ xs) = last x xs

-- The nodes a ∷ xs but the last.
abbrev pub but_last : ℕ → List ℕ → List ℕ
but_last a [] = []
but_last a (x ∷ xs) = a ∷ but_last x xs

-- The first of the nodes ys, or h.
abbrev pub first : List ℕ → ℕ → ℕ
first [] h = h
first (y ∷ ys) h = y

-- b is behind a.
abbrev pub Link : Memory → ℕ → ℕ → Type 0
Link m a b = (m.next a ≡ b) × (m.prev b ≡ a)

-- The nodes xs are behind a, each linked to the next.
abbrev pub Chain : Memory → ℕ → List ℕ → Type 0
Chain m a [] = Unit
Chain m a (x ∷ xs) = Link m a x × Chain m x xs

-- x is none of ys.
abbrev pub Away : ℕ → List ℕ → Type 0
Away x ys = All (λ y. y ≢ x) ys

abbrev pub Distinct : List ℕ → Type 0
Distinct [] = Unit
Distinct (x ∷ xs) = Away x xs × Distinct xs

-- A circle of different nodes, from h to h.
abbrev pub Circle : Memory → ℕ → List ℕ → Type 0
Circle m h xs = Chain m h (xs ++ h ∷ []) × Distinct (h ∷ xs)

-- The list at the address h holds the nodes xs.
abbrev pub IsList : Memory → ℕ → List ℕ → Type 0
IsList m h xs = Circle m h xs × (m.size h ≡ length xs)

module _ (P : ℕ → Type 0) where
  pub All-append : (xs ys : List ℕ) → All P xs → All P ys → All P (xs ++ ys)
  All-append [] ys _ k = k
  All-append (x ∷ xs) ys (h, hs) k = (h, All-append xs ys hs k)

  pub All-left : (xs ys : List ℕ) → All P (xs ++ ys) → All P xs
  All-left [] ys h = tt
  All-left (x ∷ xs) ys (h, hs) = (h, All-left xs ys hs)

  pub All-right : (xs ys : List ℕ) → All P (xs ++ ys) → All P ys
  All-right [] ys h = h
  All-right (x ∷ xs) ys (h, hs) = All-right xs ys hs

  pub All-last : (a : ℕ) (xs : List ℕ) → All P (a ∷ xs) → P (last a xs)
  All-last a [] (h, _) = h
  All-last a (x ∷ xs) (_, hs) = All-last x xs hs

  pub All-but_last : (a : ℕ) (xs : List ℕ) → All P (a ∷ xs) → All P (but_last a xs)
  All-but_last a [] h = tt
  All-but_last a (x ∷ xs) (h, hs) = (h, All-but_last x xs hs)

  pub All-but_last_end :
      (a : ℕ) (xs : List ℕ) (h : ℕ) → All P (a ∷ xs) → All P (but_last a (xs ++ h ∷ []))
  All-but_last_end a [] h (k, _) = (k, tt)
  All-but_last_end a (x ∷ xs) h (k, ks) = (k, All-but_last_end x xs h ks)

  pub All-first : (ys : List ℕ) (h : ℕ) → All P ys → P h → P (first ys h)
  All-first [] h _ k = k
  All-first (y ∷ ys) h (k, _) _ = k

  pub everywhere : ((x : ℕ) → P x) → (xs : List ℕ) → All P xs
  everywhere f [] = tt
  everywhere f (x ∷ xs) = (f x, everywhere f xs)

  pub All-mono : (Q : ℕ → Type 0) → ((x : ℕ) → P x → Q x) → (xs : List ℕ) → All P xs → All Q xs
  All-mono Q f [] h = tt
  All-mono Q f (x ∷ xs) (h, hs) = (f x h, All-mono Q f xs hs)

  pub All-both :
      (Q R : ℕ → Type 0)
      → ((x : ℕ) → P x → Q x → R x)
      → (xs : List ℕ) → All P xs
      → All Q xs
      → All R xs
  All-both Q R f [] h k = tt
  All-both Q R f (x ∷ xs) (h, hs) (k, ks) = (f x h k, All-both Q R f xs hs ks)

-- The end of a list of different nodes is met once.
pub Away-last : (a : ℕ) (xs : List ℕ) → Distinct (a ∷ xs) → Away (last a xs) (but_last a xs)
Away-last a [] h = tt
Away-last a (x ∷ xs) (h, hs) = ((λ e. All-last (λ y. y ≢ a) x xs h (sym e)), Away-last x xs hs)

pub Distinct-right : (xs ys : List ℕ) → Distinct (xs ++ ys) → Distinct ys
Distinct-right [] ys h = h
Distinct-right (x ∷ xs) ys (_, hs) = Distinct-right xs ys hs

pub Distinct-left : (xs ys : List ℕ) → Distinct (xs ++ ys) → Distinct xs
Distinct-left [] ys h = tt
Distinct-left (x ∷ xs) ys (h, hs) = (All-left (λ y. y ≢ x) xs ys h, Distinct-left xs ys hs)

-- No node of ys is one of xs.
abbrev pub Apart : List ℕ → List ℕ → Type 0
Apart xs ys = All (λ y. Away y xs) ys

-- The two parts of a list of different nodes have no node in common.
pub Distinct-Apart : (xs ys : List ℕ) → Distinct (xs ++ ys) → Apart xs ys
Distinct-Apart [] ys h = everywhere (λ y. Unit) (λ y. tt) ys
Distinct-Apart (x ∷ xs) ys (h, hs) =
    All-both (λ y. y ≢ x) (λ y. Away y xs) (λ y. Away y (x ∷ xs)) (λ y k l. ((λ e. k (sym e)), l))
      ys (All-right (λ y. y ≢ x) xs ys h) (Distinct-Apart xs ys hs)

pub Apart-flip : (xs ys : List ℕ) → Apart xs ys → Apart ys xs
Apart-flip xs [] h = everywhere (λ x. Unit) (λ x. tt) xs
Apart-flip xs (y ∷ ys) (h, hs) =
    All-both (λ x. x ≢ y) (λ x. Away x ys) (λ x. Away x (y ∷ ys)) (λ x k l. ((λ e. k (sym e)), l))
      xs h (Apart-flip xs ys hs)

pub Distinct-append :
    (xs ys : List ℕ) → Distinct xs → Distinct ys → Apart xs ys → Distinct (xs ++ ys)
Distinct-append [] ys h k l = k
Distinct-append (x ∷ xs) ys (h, hs) k l = (
  All-append (λ y. y ≢ x) xs ys h
      (All-mono (λ y. Away y (x ∷ xs)) (λ y. y ≢ x) (λ y away e. away.0 (sym e)) ys l),
  Distinct-append xs ys hs k
      (All-mono (λ y. Away y (x ∷ xs)) (λ y. Away y xs) (λ y away. away.1) ys l),
)

-- Two parts of a list of different nodes change places.
pub Distinct-exchange :
    (xs ys zs : List ℕ) → Distinct (xs ++ (ys ++ zs)) → Distinct (ys ++ (xs ++ zs))
Distinct-exchange xs ys zs d =
    let right = Distinct-right xs (ys ++ zs) d in
    let apart = Distinct-Apart xs (ys ++ zs) d in
    Distinct-append ys (xs ++ zs) (Distinct-left ys zs right)
      (Distinct-append xs zs (Distinct-left xs (ys ++ zs) d) (Distinct-right ys zs right)
        (All-right (λ y. Away y xs) ys zs apart))
      (All-append (λ y. Away y ys) xs zs (Apart-flip xs ys (All-left (λ y. Away y xs) ys zs apart))
        (Distinct-Apart ys zs right))

module _ (m : Memory) where
  pub Chain-left : (a : ℕ) (xs ys : List ℕ) → Chain m a (xs ++ ys) → Chain m a xs
  Chain-left a [] ys h = tt
  Chain-left a (x ∷ xs) ys (h, hs) = (h, Chain-left x xs ys hs)

  pub Chain-right : (a : ℕ) (xs ys : List ℕ) → Chain m a (xs ++ ys) → Chain m (last a xs) ys
  Chain-right a [] ys h = h
  Chain-right a (x ∷ xs) ys (h, hs) = Chain-right x xs ys hs

  pub Chain-append :
      (a : ℕ) (xs ys : List ℕ) → Chain m a xs → Chain m (last a xs) ys → Chain m a (xs ++ ys)
  Chain-append a [] ys h k = k
  Chain-append a (x ∷ xs) ys (h, hs) k = (h, Chain-append x xs ys hs k)

-- A chain is kept where the cells that it reads are kept.
pub Chain-frame :
    (m m' : Memory) (a : ℕ) (xs : List ℕ)
    → All (λ y. m'.next y ≡ m.next y) (but_last a xs)
    → All (λ y. m'.prev y ≡ m.prev y) xs
    → Chain m a xs
    → Chain m' a xs
Chain-frame m m' a [] n p h = tt
Chain-frame m m' a (x ∷ xs) (n, ns) (p, ps) ((e, f), hs) =
    ((n ∙ e, p ∙ f), Chain-frame m m' x xs ns ps hs)
