-- ===== src/Config/Text.antt =====
-- The string functions of libc that Parser of config.cpp uses, and its `strip` and `stripComment`.
use high_perf_server.Base.{
  ℕ, ◌-◌, Bool, true, false, ◌&&◌, ◌||◌, List, [], ◌∷◌, ◌==◌, leb, if◌then◌else◌, take,
}

abbrev pub max_line_len : ℕ
max_line_len = 128

-- isspace.
unfoldable pub is_space : ℕ → Bool
is_space c = (leb 9 c && leb c 13) || c == 32

abbrev pub is_empty : List ℕ → Bool
is_empty [] = true
is_empty (c ∷ cs) = false

-- The bytes before the first q.
abbrev pub before : ℕ → List ℕ → List ℕ
before q [] = []
before q (c ∷ cs) = if c == q then [] else c ∷ before q cs

-- The text of a buffer ends at its first zero.
unfoldable pub c_string : List ℕ → List ℕ
c_string text = before 0 text

unfoldable pub strip_comment : List ℕ → List ℕ
strip_comment text = before 35 text

abbrev pub trim_start : List ℕ → List ℕ
trim_start [] = []
trim_start (c ∷ cs) = if is_space c then trim_start cs else c ∷ cs

abbrev pub trim_end : List ℕ → List ℕ
trim_end [] = []
trim_end (c ∷ cs) = let rest = trim_end cs in if is_space c && is_empty rest then [] else c ∷ rest

unfoldable pub strip : List ℕ → List ℕ
strip text = trim_end (trim_start (take (max_line_len - 1) text))

-- std::string::operator==.
abbrev pub same_text : List ℕ → List ℕ → Bool
same_text [] [] = true
same_text [] (d ∷ ds) = false
same_text (c ∷ cs) [] = false
same_text (c ∷ cs) (d ∷ ds) = c == d && same_text cs ds

-- A byte more before the first of the lines.
abbrev pub onto_first : ℕ → List (List ℕ) → List (List ℕ)
onto_first c [] = (c ∷ []) ∷ []
onto_first c (l ∷ ls) = (c ∷ l) ∷ ls

-- What the calls of fgets give until the end of the file, where the present line has room for n more
-- bytes: a line ends behind a line feed, or when it is full.
abbrev pub fgets_lines : ℕ → List ℕ → List (List ℕ)
fgets_lines n [] = []
fgets_lines n (c ∷ cs) =
    let ends = c == 10 || leb n 1 in
    let rest = fgets_lines (if ends then max_line_len - 1 else n - 1) cs in
    if ends then (c ∷ []) ∷ rest else onto_first c rest
