-- ===== src/Config/Pattern.antt =====
-- getKeyVal of config.cpp: the pattern of an item, ^[[:space:]]*([_[:alnum:]]*)[[:space:]]*=
-- [[:space:]]*"(.*)"[[:space:]]*$, on a line without line feeds.
use high_perf_server.Base.{
  ℕ, Bool, ◌&&◌, ◌||◌, Option, none, some, List, [], ◌∷◌, ◌==◌, ltb, leb, if◌then◌else◌, length,
}
use high_perf_server.Base.Partial.{◌>>=◌}
use high_perf_server.Config.Text.{trim_start, trim_end}

-- A byte of a key: a letter, a digit or _.
unfoldable pub is_key : ℕ → Bool
is_key c = (leb 48 c && leb c 57) || (leb 65 c && leb c 90) || (leb 97 c && leb c 122) || c == 95

abbrev pub key_of : List ℕ → List ℕ
key_of [] = []
key_of (c ∷ cs) = if is_key c then c ∷ key_of cs else []

abbrev pub behind_key : List ℕ → List ℕ
behind_key [] = []
behind_key (c ∷ cs) = if is_key c then behind_key cs else c ∷ cs

-- What follows the byte q.
abbrev pub behind : ℕ → List ℕ → Option (List ℕ)
behind q [] = none
behind q (c ∷ cs) = if c == q then some cs else none

-- What comes before the byte q at the end.
abbrev pub without_end : ℕ → List ℕ → Option (List ℕ)
without_end q [] = none
without_end q (c ∷ []) = if c == q then some [] else none
without_end q (c ∷ d ∷ cs) = without_end q (d ∷ cs) >>= (λ r. some (c ∷ r))

-- regexec with the pattern: the two marked parts.
unfoldable pub regexec : List ℕ → Option (List ℕ × List ℕ)
regexec line =
    let from_key = trim_start line in
    behind 61 (trim_start (behind_key from_key)) >>= (λ from_val.
      behind 34 (trim_start from_val)
      >>= (λ quoted. without_end 34 (trim_end quoted) >>= (λ val. some (key_of from_key, val))))

unfoldable pub get_key_val : List ℕ → ℕ → ℕ → Option (List ℕ × List ℕ)
get_key_val line key_len val_len =
    regexec line
    >>= (λ kv. if ltb (length (kv.0)) key_len && ltb (length (kv.1)) val_len then some kv else none)
