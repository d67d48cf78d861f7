-- ===== src/Config/Lines.antt =====
-- How the lines of a printed configuration are read again (config.cpp).
use high_perf_server.Base.{
  ℕ, suc, ◌-◌, ◌<◌, ◌≡◌, ◌≢◌, refl, ap, ◌∙◌, Bool, true, false, ◌&&◌, none, some, List, [], ◌∷◌,
  ◌++◌, map, ◌==◌, ==_ne, ltb, lt→ltb, leb-false, if◌then◌else◌, length, length-append, take,
  take_all, take_cong, take-append_length, get_or, All, append_assoc, arith,
}
use high_perf_server.Config.{Text, get_section}
use high_perf_server.Config.Text.{
  is_space, before, c_string, strip_comment, strip, trim_start, trim_end, max_line_len, fgets_lines,
}
use high_perf_server.Config.Pattern.{get_key_val}
use high_perf_server.Config.Cutting.{KeyText, trim_end-append}
use high_perf_server.Config.Matching.{regexec-Matches}

-- A byte that may stand anywhere in a line: no zero, no line feed, no #.
abbrev pub Plain : ℕ → Type 0
Plain c = (c ≢ 0) × (c ≢ 10) × (c ≢ 35)

abbrev pub PlainText : Text → Type 0
PlainText text = All Plain text

-- The file of these lines.
abbrev pub unlines : List Text → Text
unlines [] = []
unlines (l ∷ ls) = (l ++ 10 ∷ []) ++ unlines ls

-- One line is read as it was written, if there is room for it.
pub fgets_line :
    (n : ℕ) (l rest : Text)
    → PlainText l
    → length l < n
    → fgets_lines n (l ++ 10 ∷ rest) ≡ (l ++ 10 ∷ []) ∷ fgets_lines (max_line_len - 1) rest
fgets_line n [] rest _ _ = refl
fgets_line n (c ∷ l) rest ((_, h, _), hs) r = rw (
  ==_ne c 10 h,
  leb-false n 1 (omega (arith, r)),
  fgets_line (n - 1) l rest hs (omega (arith, r)),
)

abbrev pub Fits : Text → Type 0
Fits l = PlainText l × (length l < 127)

pub fgets_lines-unlines :
    (ls : List Text) (rest : Text)
    → All Fits ls
    → fgets_lines (max_line_len - 1) (unlines ls ++ rest)
      ≡ map (λ l. l ++ 10 ∷ []) ls ++ fgets_lines (max_line_len - 1) rest
fgets_lines-unlines [] rest _ = refl
fgets_lines-unlines (l ∷ ls) rest ((h, r), hs) =
    ap (fgets_lines 127) (
      append_assoc (l ++ 10 ∷ []) (unlines ls) rest ∙ append_assoc l (10 ∷ []) (unlines ls ++ rest))
    ∙ fgets_line 127 l (unlines ls ++ rest) h r
    ∙ ap (λ ls. (l ++ 10 ∷ []) ∷ ls) (fgets_lines-unlines ls rest hs)

before-eq : (q : ℕ) (l : Text) → All (λ c. c ≢ q) l → before q l ≡ l
before-eq q [] _ = refl
before-eq q (c ∷ l) (h, hs) = rw (==_ne c q h, before-eq q l hs)

ends_differ :
    (q : ℕ) (l : Text)
    → ((c : ℕ) → Plain c → c ≢ q)
    → PlainText l
    → 10 ≢ q
    → All (λ c. c ≢ q) (l ++ 10 ∷ [])
ends_differ q [] f _ h = (h, tt)
ends_differ q (c ∷ l) f (p, ps) h = (f c p, ends_differ q l f ps h)

feed_space : is_space 10 ≡ true
unfolding is_space
feed_space = refl

-- A line without comment, and without spaces at its ends, is kept as it is.
pub stripped :
    (xs : Text) (c : ℕ)
    → Fits (xs ++ c ∷ [])
    → trim_start (xs ++ c ∷ 10 ∷ []) ≡ xs ++ c ∷ 10 ∷ []
    → is_space c ≡ false
    → strip (strip_comment (c_string ((xs ++ c ∷ []) ++ 10 ∷ []))) ≡ xs ++ c ∷ []
unfolding strip strip_comment c_string
stripped xs c (p, r) start h =
    ap (λ l. trim_end (trim_start (take 127 (before 35 l))))
      (before-eq 0 ((xs ++ c ∷ []) ++ 10 ∷ [])
        (ends_differ 0 (xs ++ c ∷ []) (λ d q. q.0) p (omega arith)))
    ∙ ap (λ l. trim_end (trim_start (take 127 l)))
        (before-eq 35 ((xs ++ c ∷ []) ++ 10 ∷ [])
          (ends_differ 35 (xs ++ c ∷ []) (λ d q. q.2) p (omega arith)))
    ∙ ap (λ l. trim_end (trim_start l))
        (take_all 127 ((xs ++ c ∷ []) ++ 10 ∷ [])
          (omega (arith, r, length-append (xs ++ c ∷ []) (10 ∷ []))))
    ∙ ap (λ l. trim_end (trim_start l)) (append_assoc xs (c ∷ []) (10 ∷ []))
    ∙ ap trim_end start
    ∙ trim_end-append xs c (10 ∷ []) h (feed_space, tt)

get_or-append : (xs : Text) (c d : ℕ) → get_or (xs ++ c ∷ []) (length xs) d ≡ c
get_or-append [] c d = refl
get_or-append (x ∷ xs) c d = get_or-append xs c d

-- The line of a section, and its name.
abbrev pub section_line : Text → Text
section_line name = 91 ∷ (name ++ 93 ∷ [])

pub get_section-section_line :
    (name : Text) → 0 < length name → get_section (section_line name) ≡ some name
unfolding get_section
get_section-section_line name h =
    let len : length (name ++ 93 ∷ []) ≡ suc (length name) =
      omega (arith, length-append name (93 ∷ [])) in
    let end : get_or (91 ∷ (name ++ 93 ∷ [])) (suc (length (name ++ 93 ∷ [])) - 1) 0 ≡ 93 =
      ap (λ i. get_or (91 ∷ (name ++ 93 ∷ [])) i 0) {y = suc (length name)} (omega (arith, len))
      ∙ get_or-append name 93 0 in
    let inner : take (suc (length (name ++ 93 ∷ [])) - 2) (name ++ 93 ∷ []) ≡ name =
      take_cong {m = length name} (name ++ 93 ∷ []) (omega (arith, len))
      ∙ take-append_length name (93 ∷ []) in
    rw (lt→ltb 2 (suc (length (name ++ 93 ∷ []))) (omega (arith, h, len)), end, inner)

-- A line that does not start with [ is no section.
pub get_section-other : (c : ℕ) (cs : Text) → c ≢ 91 → get_section (c ∷ cs) ≡ none
unfolding get_section
get_section-other c cs h = rw (==_ne c 91 h) (
    refused (ltb 2 (suc (length cs))) (get_or (c ∷ cs) (suc (length cs) - 1) 0 == 93)
      (take (suc (length cs) - 2) cs))
  where
    refused : (b d : Bool) (x : Text) → (if b && false && d then some x else none) ≡ none
    refused true d x = refl
    refused false d x = refl

-- The line of an item.
abbrev pub item_line : Text → Text → Text
item_line key val = key ++ 61 ∷ 34 ∷ (val ++ 34 ∷ [])

pub get_key_val-item_line :
    (key val : Text)
    → KeyText key
    → length key < 128
    → length val < 128
    → get_key_val (item_line key val) max_line_len max_line_len ≡ some (key, val)
unfolding get_key_val
get_key_val-item_line key val h r q = rw (
  (regexec-Matches (item_line key val) key val).1 (record {
    s1 = [];
    s2 = [];
    s3 = [];
    s4 = [];
    spaces1 = tt;
    spaces2 = tt;
    spaces3 = tt;
    spaces4 = tt;
    keys = h;
    shape = refl;
  }),
  lt→ltb (length key) 128 r,
  lt→ltb (length val) 128 q,
)
