-- ===== src/Config/Accepted.antt =====
-- What the parser makes of the lines of a printed configuration (config.cpp).
use high_perf_server.Base.{
  ℕ, ◌<◌, ◌≡◌, ◌≢◌, refl, sym, ap, ◌∙◌, true, false, none, some, List, [], ◌∷◌, ◌++◌, ◌==◌, ==_ne,
  get_or, length, append_assoc, arith,
}
use mathlib.Core.Path.{subst}
use high_perf_server.Base.Int.{pos, negsuc}
use high_perf_server.Config.{
  Text, Items, Parsing, find, put_in, get_section, parse_item, parse_section, parse_line,
  parse_lines, is_ok,
}
use high_perf_server.Config.Text.{
  is_space, is_empty, c_string, strip_comment, strip, trim_start, max_line_len,
}
use high_perf_server.Config.Pattern.{is_key, get_key_val}
use high_perf_server.Config.Cutting.{KeyText}
use high_perf_server.Config.Lines.{
  Fits, stripped, section_line, get_section-section_line, get_section-other, item_line,
  get_key_val-item_line,
}

solid :
    (is_space 91 ≡ false) × (is_space 93 ≡ false) × (is_space 61 ≡ false) × (is_space 34 ≡ false)
unfolding is_space
solid = (refl, refl, refl, refl)

-- A line of a section that is new.
pub line_section :
    (name : Text) (s : Parsing)
    → Fits (section_line name)
    → 0 < length name
    → find name s.conf ≡ none
    → parse_line (section_line name ++ 10 ∷ []) s
      ≡ (pos 0, record { conf = s.conf ++ (name, []) ∷ []; section = some name })
unfolding parse_line parse_section
line_section name s f h new = rw (
  stripped (91 ∷ name) 93 f (rw (solid.0)) (solid.1),
  get_section-section_line name h,
  parse_section,
  new,
)

key_facts : (c : ℕ) → is_key c ≡ true → (is_space c ≡ false) × (c ≢ 91) × (c ≢ 35)
unfolding is_key is_space
key_facts c h = (ground arith, (λ e. ground arith), (λ e. ground arith))

-- The first byte of an item.
item_start :
    (key val : Text)
    → KeyText key
    → (c : ℕ) × (cs : Text) × (item_line key val ≡ c ∷ cs)
      × (is_space c ≡ false)
      × (c ≢ 91)
      × (c ≢ 35)
item_start [] val _ = (61, 34 ∷ (val ++ 34 ∷ []), refl, solid.2, omega arith, omega arith)
item_start (k ∷ key) val (e, _) =
    let (f, g, h) = key_facts k e in (k, key ++ 61 ∷ 34 ∷ (val ++ 34 ∷ []), refl, f, g, h)

item_trim : (key rest : Text) → KeyText key → trim_start (key ++ 61 ∷ rest) ≡ key ++ 61 ∷ rest
item_trim [] rest _ = rw (solid.2)
item_trim (k ∷ key) rest (e, _) = rw ((key_facts k e).0)

-- The line of an item is kept as it is.
item_kept :
    (key val : Text)
    → Fits (item_line key val)
    → KeyText key
    → strip (strip_comment (c_string (item_line key val ++ 10 ∷ []))) ≡ item_line key val
item_kept key val f h =
    let shape : (key ++ 61 ∷ 34 ∷ val) ++ 34 ∷ [] ≡ item_line key val =
      append_assoc key (61 ∷ 34 ∷ val) (34 ∷ []) in
    subst (λ l. strip (strip_comment (c_string (l ++ 10 ∷ []))) ≡ l) shape
      (stripped (key ++ 61 ∷ 34 ∷ val) 34 (subst Fits (sym shape) f)
        (subst (λ l. trim_start l ≡ l) (sym (append_assoc key (61 ∷ 34 ∷ val) (34 ∷ 10 ∷ [])))
          (item_trim key (34 ∷ (val ++ 34 ∷ 10 ∷ [])) h))
        (solid.3))

-- A line that is neither empty nor a section, in a section.
line_in_section :
    (text line : Text) (name key val : Text) (s : Parsing)
    → strip (strip_comment (c_string text)) ≡ line
    → is_empty line ≡ false
    → (get_or line 0 0 == 35) ≡ false
    → get_section line ≡ none
    → s.section ≡ some name
    → get_key_val line max_line_len max_line_len ≡ some (key, val)
    → parse_line text s ≡ (pos 0, record s { conf = put_in name key val s.conf })
unfolding parse_line parse_item
line_in_section text line name key val s e f g h k l = rw (e, f, g, h, k, e, parse_item, l, k)

-- A line of an item, in a section.
pub line_item :
    (key val name : Text) (s : Parsing)
    → Fits (item_line key val)
    → KeyText key
    → length key < 128
    → length val < 128
    → s.section ≡ some name
    → parse_line (item_line key val ++ 10 ∷ []) s
      ≡ (pos 0, record s { conf = put_in name key val s.conf })
line_item key val name s f h r q e =
    let (c, cs, shape, _, no_section, no_comment) = item_start key val h in
    line_in_section (item_line key val ++ 10 ∷ []) (item_line key val) name key val s
      (item_kept key val f h) (rw shape) (rw (shape, ==_ne c 35 no_comment))
      (rw shape (get_section-other c cs no_section)) e (get_key_val-item_line key val h r q)

-- The loop goes on behind a line without error.
pub parse_lines-cons :
    (text : Text) (texts : List Text) (s s' : Parsing)
    → parse_line text s ≡ (pos 0, s')
    → parse_lines (text ∷ texts) s ≡ parse_lines texts s'
unfolding parse_lines
parse_lines-cons text texts s s' e = rw e

pub parse_lines-nil : (s : Parsing) → parse_lines [] s ≡ (pos 0, s)
unfolding parse_lines
parse_lines-nil s = refl

-- The loop ends at a line with an error.
parse_lines-fails :
    (text : Text) (texts : List Text) (s : Parsing)
    → is_ok ((parse_line text s).0) ≡ false
    → parse_lines (text ∷ texts) s ≡ parse_line text s
unfolding parse_lines
parse_lines-fails text texts s e = rw e

line_again :
    (name : Text) (items : Items) (s : Parsing)
    → Fits (section_line name)
    → 0 < length name
    → find name s.conf ≡ some items
    → (parse_line (section_line name ++ 10 ∷ []) s).0 ≡ negsuc 3
unfolding parse_line parse_section
line_again name items s f h old = rw (
  stripped (91 ∷ name) 93 f (rw (solid.0)) (solid.1),
  get_section-section_line name h,
  parse_section,
  old,
)

-- A line of a section that is there already.
pub section_again :
    (name : Text) (items : Items) (texts : List Text) (s : Parsing)
    → Fits (section_line name)
    → 0 < length name
    → find name s.conf ≡ some items
    → (parse_lines ((section_line name ++ 10 ∷ []) ∷ texts) s).0 ≡ negsuc 3
section_again name items texts s f h old =
    let e = line_again name items s f h old in
    ap (λ out. out.0) (parse_lines-fails (section_line name ++ 10 ∷ []) texts s (ap is_ok e)) ∙ e
