-- ===== src/Config.antt =====
-- Parser of config.cpp: the configuration file, in sections of items key = "value". Text is a list of
-- bytes, and a file the text that `fopen` gives, or none.
pub mod Text
pub mod Pattern
pub mod Cutting
pub mod Matching
pub mod Lines
pub mod Accepted
pub mod Roundtrip
pub mod Global
use high_perf_server.Base.{
  ℕ, ◌+◌, ◌-◌, ◌≡◌, refl, Bool, true, false, not, ◌&&◌, ◌||◌, Option, none, some, List, [], ◌∷◌,
  ◌++◌, ◌==◌, ltb, if◌then◌else◌, length, take, drop, get_or,
}
use high_perf_server.Base.Int.{ℤ, pos, negsuc}
use high_perf_server.Base.Partial.{◌>>=◌}
use high_perf_server.Config.Text.{
  strip_comment, strip, c_string, fgets_lines, is_empty, max_line_len, same_text,
}
use high_perf_server.Config.Pattern.{get_key_val}

abbrev pub Text : Type 0
Text = List ℕ

-- std::map, as far as `find` and the writing of an element see it.
abbrev pub Items : Type 0
Items = List (Text × Text)

abbrev pub Conf : Type 0
Conf = List (Text × Items)

abbrev pub find {ℓ} : {A : Type ℓ} → Text → List (Text × A) → Option A
find key [] = none
find key ((k, a) ∷ rest) = if same_text key k then some a else find key rest

-- imap[key] = val.
abbrev pub put : Text → Text → Items → Items
put key val [] = (key, val) ∷ []
put key val ((k, v) ∷ rest) = if same_text key k then (k, val) ∷ rest else (k, v) ∷ put key val rest

-- The same in the section that `itrConf` is at.
abbrev pub put_in : Text → Text → Text → Conf → Conf
put_in name key val [] = []
put_in name key val ((n, items) ∷ rest) =
    if same_text name n
    then (n, put key val items) ∷ rest
    else (n, items) ∷ put_in name key val rest

-- The name of the section, or none for a line that is none.
unfoldable pub get_section : Text → Option Text
get_section line =
    let len = length line in
    if ltb 2 len && (get_or line 0 0 == 91) && (get_or line (len - 1) 0 == 93)
    then some (take (len - 2) (drop 1 line))
    else none

-- `m_conf`, and the section that `itrConf` is at.
pub record Parsing : Type 0 where
  pub conf : Conf
  pub section : Option Text

-- An item: imap[key] = val, or -2.
unfoldable pub parse_item : Text → Text → Parsing → ℤ × Parsing
parse_item name line s = elim (get_key_val line max_line_len max_line_len) [
  | none ↦ (negsuc 1, s)
  | some kv ↦ (pos 0, record s { conf = put_in name (kv.0) (kv.1) s.conf })
]

-- A new section, or -4.
unfoldable pub parse_section : Text → Parsing → ℤ × Parsing
parse_section name s = elim (find name s.conf) [
  | none ↦ (pos 0, record { conf = s.conf ++ (name, []) ∷ []; section = some name })
  | some items ↦ (negsuc 3, record s { section = some name })
]

-- The body of the loop of parse.
unfoldable pub parse_line : Text → Parsing → ℤ × Parsing
parse_line text s =
    let line = strip (strip_comment (c_string text)) in
    if is_empty line || get_or line 0 0 == 35 then (pos 0, s) else elim (get_section line) [
      | some name ↦ parse_section name s
      | none ↦ elim s.section [ none ↦ (negsuc 2, s) | some name ↦ parse_item name line s ]
    ]

abbrev pub is_ok : ℤ → Bool
is_ok (pos n) = n == 0
is_ok (negsuc n) = false

unfoldable pub parse_lines : List Text → Parsing → ℤ × Parsing
parse_lines [] s = (pos 0, s)
parse_lines (text ∷ texts) s =
    let out = parse_line text s in
    let rest = parse_lines texts (out.1) in if is_ok (out.0) then rest else out

unfoldable pub parse : Option Text → ℤ × Parsing
parse none = (negsuc 0, record { conf = []; section = none })
parse (some file) =
    parse_lines (fgets_lines (max_line_len - 1) file) (record { conf = []; section = none })
