-- ===== src/Links/Places.antt =====
-- Where two neighbours p and q of a circle stand, and a third node n that is not between them.
use high_perf_server.Base.{ℕ, ◌≡◌, ◌≢◌, refl, sym, List, [], ◌∷◌, ◌++◌, append_assoc}
use mathlib.Core.Path.{subst}
use high_perf_server.Links.{Memory}
use high_perf_server.Links.Chain.{
  last, but_last, first, Chain, Away, Distinct, All-append, All-left, All-right, All-but_last_end,
  Distinct-left, Distinct-right, Distinct-Apart,
}

-- The circle is h ∷ xs, and q ∷ qs with h again at its end; n is on neither side.
abbrev pub Places : ℕ → ℕ → List ℕ → ℕ → List ℕ → Type 0
Places n h xs q qs =
    Distinct (h ∷ xs)
    × Away q xs
    × Away n (h ∷ xs)
    × Away n (q ∷ qs)
    × Away (last h xs) (but_last q qs)
    × Away q qs

-- What is behind the first of the nodes ys and h.
abbrev pub rest : List ℕ → ℕ → List ℕ
rest [] h = []
rest (y ∷ ys) h = ys ++ h ∷ []

pub first-rest : (ys : List ℕ) (h : ℕ) → ys ++ h ∷ [] ≡ first ys h ∷ rest ys h
first-rest [] h = refl
first-rest (y ∷ ys) h = refl

-- The last of the nodes h ∷ xs is none of the nodes behind them.
pub last-Away : (h : ℕ) (xs ys : List ℕ) → Distinct (h ∷ (xs ++ ys)) → Away (last h xs) ys
last-Away h [] ys d = d.0
last-Away h (x ∷ xs) ys (_, d) = last-Away x xs ys d

pub middle-Away : (x : ℕ) (xs ys : List ℕ) → Distinct (xs ++ x ∷ ys) → Away x xs
middle-Away x xs ys d = (Distinct-Apart xs (x ∷ ys) d).0

-- The chain of a circle that is cut behind xs.
pub cut_circle :
    (m : Memory) (h : ℕ) (xs ys : List ℕ)
    → Chain m h ((xs ++ ys) ++ h ∷ [])
    → Chain m h (xs ++ (ys ++ h ∷ []))
cut_circle m h xs ys c = subst (λ zs. Chain m h zs) (append_assoc xs ys (h ∷ [])) c

pub close_circle :
    (m : Memory) (h : ℕ) (xs ys : List ℕ)
    → Chain m h (xs ++ (ys ++ h ∷ []))
    → Chain m h ((xs ++ ys) ++ h ∷ [])
close_circle m h xs ys c = subst (λ zs. Chain m h zs) (sym (append_assoc xs ys (h ∷ []))) c

pub cut_circle_first :
    (m : Memory) (h : ℕ) (xs ys : List ℕ)
    → Chain m h ((xs ++ ys) ++ h ∷ [])
    → Chain m h (xs ++ first ys h ∷ rest ys h)
cut_circle_first m h xs ys c =
    subst (λ zs. Chain m h (xs ++ zs)) (first-rest ys h) (cut_circle m h xs ys c)

pub places :
    (n h : ℕ) (xs ys : List ℕ)
    → Distinct (h ∷ (xs ++ ys))
    → Away n (h ∷ (xs ++ ys))
    → Places n h xs (first ys h) (rest ys h)
places n h xs [] (d, ds) (a, aw) = (
  (All-left (λ y. y ≢ h) xs [] d, Distinct-left xs [] ds),
  All-left (λ y. y ≢ h) xs [] d,
  (a, All-left (λ y. y ≢ n) xs [] aw),
  (a, tt),
  tt,
  tt,
)
places n h xs (y ∷ ys) (d, ds) (a, aw) = (
  (All-left (λ z. z ≢ h) xs (y ∷ ys) d, Distinct-left xs (y ∷ ys) ds),
  middle-Away y xs ys ds,
  (a, All-left (λ z. z ≢ n) xs (y ∷ ys) aw),
  All-append (λ z. z ≢ n) (y ∷ ys) (h ∷ []) (All-right (λ z. z ≢ n) xs (y ∷ ys) aw) (a, tt),
  All-but_last_end (λ z. z ≢ last h xs) y ys h (last-Away h xs (y ∷ ys) (d, ds)),
  All-append (λ z. z ≢ y) ys (h ∷ []) (Distinct-right xs (y ∷ ys) ds).0
      ((λ e. (All-right (λ z. z ≢ h) xs (y ∷ ys) d).0 (sym e)), tt),
)
