-- ===== src/Config/Cutting.antt =====
-- How the parts of the pattern of getKeyVal (config.cpp) are cut off a line, and put together.
use high_perf_server.Base.{
  ℕ, ◌≡◌, refl, ap, ap₂, ◌∙◌, Bool, true, false, ◌&&◌, none, some, List, [], ◌∷◌, ◌++◌, ◌==◌,
  ==_iff, ==_self, if◌then◌else◌, All, arith, Bool-cases, inl, inr,
}
use high_perf_server.Base.Partial.{>>=-eq-some}
use high_perf_server.Config.Text.{is_space, is_empty, trim_start, trim_end}
use high_perf_server.Config.Pattern.{is_key, key_of, behind_key, behind, without_end}

abbrev pub Spaces : List ℕ → Type 0
Spaces s = All (λ c. is_space c ≡ true) s

abbrev pub KeyText : List ℕ → Type 0
KeyText s = All (λ c. is_key c ≡ true) s

pub key_no_space : (c : ℕ) → is_key c ≡ true → is_space c ≡ false
unfolding is_key is_space
key_no_space c h = ground arith

pub space_no_key : (c : ℕ) → is_space c ≡ true → is_key c ≡ false
unfolding is_key is_space
space_no_key c h = ground arith

pub equals_solid : (is_space 61 ≡ false) × (is_key 61 ≡ false) × (is_space 34 ≡ false)
unfolding is_key is_space
equals_solid = (refl, refl, refl)

-- trim_start and trim_end on what the pattern has.
pub trim_start-append :
    (s : List ℕ) (c : ℕ) (ys : List ℕ)
    → Spaces s
    → is_space c ≡ false
    → trim_start (s ++ c ∷ ys) ≡ c ∷ ys
trim_start-append [] c ys _ h = rw h
trim_start-append (x ∷ s) c ys (e, es) h = rw e (trim_start-append s c ys es h)

pub trim_end_blank : (s : List ℕ) → Spaces s → trim_end s ≡ []
trim_end_blank [] _ = refl
trim_end_blank (c ∷ s) (e, es) = rw (trim_end_blank s es, e)

pub filled : (xs : List ℕ) (c : ℕ) (ys : List ℕ) → is_empty (xs ++ c ∷ ys) ≡ false
filled [] c ys = refl
filled (x ∷ xs) c ys = refl

pub and_false : (b : Bool) → (b && false) ≡ false
and_false true = refl
and_false false = refl

pub trim_end-append :
    (xs : List ℕ) (c : ℕ) (s : List ℕ)
    → is_space c ≡ false
    → Spaces s
    → trim_end (xs ++ c ∷ s) ≡ xs ++ c ∷ []
trim_end-append [] c s h hs = rw (h, trim_end_blank s hs)
trim_end-append (x ∷ xs) c s h hs =
    rw (trim_end-append xs c s h hs, filled xs c [], and_false (is_space x))

pub without_end-append : (q : ℕ) (xs : List ℕ) → without_end q (xs ++ q ∷ []) ≡ some xs
without_end-append q [] = ground arith
without_end-append q (x ∷ []) = rw (==_self q)
without_end-append q (x ∷ y ∷ xs) = rw (without_end-append q (y ∷ xs))

-- A key ends where no byte of a key follows.
pub key_of-append :
    (key : List ℕ) (c : ℕ) (ys : List ℕ)
    → KeyText key
    → is_key c ≡ false
    → (key_of (key ++ c ∷ ys) ≡ key) × (behind_key (key ++ c ∷ ys) ≡ c ∷ ys)
key_of-append [] c ys _ h = rw h (refl, refl)
key_of-append (k ∷ key) c ys (e, es) h =
    let (f, g) = key_of-append key c ys es h in rw e (ap (λ r. k ∷ r) f, g)

-- The parts that they cut off.
pub trim_start-Spaces : (l : List ℕ) → (s : List ℕ) × Spaces s × (l ≡ s ++ trim_start l)
trim_start-Spaces [] = ([], tt, refl)
trim_start-Spaces (c ∷ l) = elim (Bool-cases (is_space c)) [
  | inl e ↦ let (s, es, h) = trim_start-Spaces l in rw e (c ∷ s, (e, es), ap (λ r. c ∷ r) h)
  | inr e ↦ rw e ([], tt, refl)
]

pub key_of-KeyText : (l : List ℕ) → KeyText (key_of l) × (l ≡ key_of l ++ behind_key l)
key_of-KeyText [] = (tt, refl)
key_of-KeyText (c ∷ l) = elim (Bool-cases (is_key c)) [
  | inl e ↦ let (es, h) = key_of-KeyText l in rw e ((e, es), ap (λ r. c ∷ r) h)
  | inr e ↦ rw e (tt, refl)
]

pub if_some :
    {A : Type 0} (b : Bool) (x r : A) → (if b then some x else none) ≡ some r → (b ≡ true) × (x ≡ r)
if_some true x r h = (refl, cc)
if_some false x r h = cc

pub behind-eq : (q : ℕ) (l r : List ℕ) → behind q l ≡ some r → l ≡ q ∷ r
behind-eq q [] r h = cc
behind-eq q (c ∷ cs) r h =
    let (b, e) = if_some (c == q) cs r h in ap₂ (λ x xs. x ∷ xs) ((==_iff c q).0 b) e

pub without_end-eq : (q : ℕ) (l r : List ℕ) → without_end q l ≡ some r → l ≡ r ++ q ∷ []
without_end-eq q [] r h = cc
without_end-eq q (c ∷ []) r h =
    let (b, e) = if_some (c == q) [] r h in ap₂ (λ x xs. xs ++ x ∷ []) ((==_iff c q).0 b) e
without_end-eq q (c ∷ d ∷ cs) r h =
    let (t, e, f) = >>=-eq-some (without_end q (d ∷ cs)) (λ r. some (c ∷ r)) h in
    let g : c ∷ t ≡ r = cc in
    ap (λ xs. c ∷ xs) (without_end-eq q (d ∷ cs) t e) ∙ ap (λ xs. xs ++ q ∷ []) g

pub empty_text : (l : List ℕ) → is_empty l ≡ true → l ≡ []
empty_text [] h = refl
empty_text (c ∷ l) h = cc

pub trim_end-Spaces : (l : List ℕ) → (s : List ℕ) × Spaces s × (l ≡ trim_end l ++ s)
trim_end-Spaces [] = ([], tt, refl)
trim_end-Spaces (c ∷ l) =
    let (s, es, h) = trim_end-Spaces l in go s es h (is_space c) refl (is_empty (trim_end l)) refl
  where
    go :
        (s : List ℕ)
        → Spaces s
        → l ≡ trim_end l ++ s
        → (b : Bool) → is_space c ≡ b
        → (d : Bool) → is_empty (trim_end l) ≡ d
        → (s : List ℕ) × Spaces s × (c ∷ l ≡ (if b && d then [] else c ∷ trim_end l) ++ s)
    go s es h true e true f =
        (c ∷ s, (e, es), ap (λ r. c ∷ r) (h ∙ ap (λ r. r ++ s) (empty_text (trim_end l) f)))
    go s es h true e false f = (s, es, ap (λ r. c ∷ r) h)
    go s es h false e d f = (s, es, ap (λ r. c ∷ r) h)
