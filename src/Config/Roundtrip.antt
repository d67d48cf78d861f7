-- ===== src/Config/Roundtrip.antt =====
-- A printed configuration is parsed again (config.cpp).
use high_perf_server.Base.{
  ◌-◌, ◌<◌, ◌≡◌, refl, sym, ap, ◌∙◌, Bool, true, false, Option, none, some, List, [], ◌∷◌, ◌++◌,
  map, map-append, ==_self, if◌then◌else◌, length, length-append, All, append_assoc, append-nil,
  arith,
}
use high_perf_server.Base.Int.{pos, negsuc}
use high_perf_server.Config.{Text, Items, Conf, Parsing, find, put, put_in, parse_lines, parse}
use high_perf_server.Config.Text.{max_line_len, fgets_lines, same_text}
use high_perf_server.Config.Cutting.{KeyText}
use high_perf_server.Config.Accepted.{
  line_section, line_item, parse_lines-cons, parse_lines-nil, section_again,
}
use high_perf_server.Config.Lines.{
  Fits, fgets_line, unlines, fgets_lines-unlines, section_line, item_line,
}

-- No name of the rest stands before.
abbrev pub Fresh : {A : Type 0} → List (Text × A) → List (Text × A) → Type 0
Fresh seen [] = Unit
Fresh seen ((k, a) ∷ rest) = (find k seen ≡ none) × Fresh (seen ++ (k, a) ∷ []) rest

same_text_self : (t : Text) → same_text t t ≡ true
same_text_self [] = refl
same_text_self (c ∷ t) = rw (==_self c, same_text_self t)

find_none_cons {ℓ} :
    {A : Type ℓ} (key k : Text) (a : A) (rest : List (Text × A))
    → find key ((k, a) ∷ rest) ≡ none
    → (same_text key k ≡ false) × (find key rest ≡ none)
find_none_cons key k a rest h = go (same_text key k) refl h
  where
    go :
        (b : Bool)
        → same_text key k ≡ b
        → (if b then some a else find key rest) ≡ none
        → (same_text key k ≡ false) × (find key rest ≡ none)
    go true e h = cc
    go false e h = (e, h)

put_new :
    (key val : Text) (items : Items)
    → find key items ≡ none
    → put key val items ≡ items ++ (key, val) ∷ []
put_new key val [] _ = refl
put_new key val ((k, v) ∷ rest) h =
    let (e, h') = find_none_cons key k v rest h in rw (e, put_new key val rest h')

put_in_last :
    (name key val : Text) (done : Conf) (items : Items)
    → find name done ≡ none
    → put_in name key val (done ++ (name, items) ∷ []) ≡ done ++ (name, put key val items) ∷ []
put_in_last name key val [] items _ = rw (same_text_self name)
put_in_last name key val ((n, others) ∷ done) items h =
    let (e, h') = find_none_cons name n others done h in
    rw (e, put_in_last name key val done items h')

-- The lines that a configuration is written in.
abbrev pub item_lines : Items → List Text
item_lines [] = []
item_lines ((key, val) ∷ items) = item_line key val ∷ item_lines items

abbrev pub conf_lines : Conf → List Text
conf_lines [] = []
conf_lines ((name, items) ∷ conf) = section_line name ∷ (item_lines items ++ conf_lines conf)

-- The lines fit into the buffer of the parser, and hold no zero, line feed or #.
abbrev pub ItemFits : Text × Text → Type 0
ItemFits (key, val) = KeyText key × Fits (item_line key val)

abbrev pub SectionFits : Text × Items → Type 0
SectionFits (name, items) =
    (0 < length name) × Fits (section_line name) × All ItemFits items × Fresh [] items

abbrev feed : Text → Text
feed l = l ++ 10 ∷ []

in_section : Conf → Text → Items → Parsing
in_section done name items = record { conf = done ++ (name, items) ∷ []; section = some name }

item_lengths :
    (key val : Text) → length (item_line key val) < 127 → (length key < 128) × (length val < 128)
item_lengths key val h = (
  omega (arith, h, length-append key (61 ∷ 34 ∷ (val ++ 34 ∷ []))),
  omega (arith, h, length-append key (61 ∷ 34 ∷ (val ++ 34 ∷ [])), length-append val (34 ∷ [])),
)

-- The items of a section, behind those that have been read.
run_items :
    (done : Conf) (name : Text) (seen items : Items) (texts : List Text)
    → find name done ≡ none
    → Fresh seen items
    → All ItemFits items
    → parse_lines (map feed (item_lines items) ++ texts) (in_section done name seen)
      ≡ parse_lines texts (in_section done name (seen ++ items))
unfolding in_section
run_items done name seen [] texts _ _ _ = rw (append-nil seen)
run_items done name seen ((key, val) ∷ items) texts new (fresh, rest) ((h, f), hs) =
    let (r, q) = item_lengths key val (f.1) in
    parse_lines-cons (feed (item_line key val)) (map feed (item_lines items) ++ texts)
      (in_section done name seen) (in_section done name (seen ++ (key, val) ∷ []))
      (line_item key val name (in_section done name seen) f h r q refl
        ∙ ap (λ c. (pos 0, record { conf = c; section = some name }))
            (put_in_last name key val done seen new
              ∙ ap (λ items. done ++ (name, items) ∷ []) (put_new key val seen fresh)))
    ∙ run_items done name (seen ++ (key, val) ∷ []) items texts new rest hs
    ∙ ap (λ items. parse_lines texts (in_section done name items))
        (append_assoc seen ((key, val) ∷ []) items)

section_lines_fit :
    (items : Items) (ls : List Text)
    → All ItemFits items
    → All Fits ls
    → All Fits (item_lines items ++ ls)
section_lines_fit [] ls _ h = h
section_lines_fit (kv ∷ items) ls ((_, f), fs) h = (f, section_lines_fit items ls fs h)

conf_lines_fit : (conf : Conf) → All SectionFits conf → All Fits (conf_lines conf)
conf_lines_fit [] _ = tt
conf_lines_fit ((name, items) ∷ conf) ((_, f, fs, _), hs) =
    (f, section_lines_fit items (conf_lines conf) fs (conf_lines_fit conf hs))

-- The sections, behind those that have been read.
run_sections :
    (done conf : Conf) (at : Option Text) (texts : List Text)
    → Fresh done conf
    → All SectionFits conf
    → (last : Option Text) × (parse_lines
          (map feed (conf_lines conf) ++ texts)
          (record { conf = done; section = at })
        ≡ parse_lines texts (record { conf = done ++ conf; section = last }))
unfolding in_section
run_sections done [] at texts _ _ =
    (at, ap (λ c. parse_lines texts (record { conf = c; section = at })) (sym (append-nil done)))
run_sections done ((name, items) ∷ conf) at texts (new, fresh) ((filled, f, fs, fi), hs) =
    let (last, e) = run_sections (done ++ (name, items) ∷ []) conf (some name) texts fresh hs in
    (
      last,
      parse_lines-cons (feed (section_line name))
            (map feed (item_lines items ++ conf_lines conf) ++ texts)
            (record { conf = done; section = at }) (in_section done name [])
            (line_section name (record { conf = done; section = at }) f filled new)
          ∙ ap (λ ls. parse_lines (ls ++ texts) (in_section done name []))
              (map-append feed (item_lines items) (conf_lines conf))
          ∙ ap (λ ls. parse_lines ls (in_section done name []))
              (append_assoc (map feed (item_lines items)) (map feed (conf_lines conf)) texts)
          ∙ run_items done name [] items (map feed (conf_lines conf) ++ texts) new fi fs
          ∙ e
          ∙ ap (λ c. parse_lines texts (record { conf = c; section = last }))
              (append_assoc done ((name, items) ∷ []) conf),
    )

-- The file of a configuration.
abbrev pub print_conf : Conf → Text
print_conf conf = unlines (conf_lines conf)

-- The parser at the end of a configuration that is written at the start of a file.
pub behind_conf :
    (conf : Conf) (rest : Text)
    → Fresh [] conf
    → All SectionFits conf
    → (last : Option Text) × (parse (some (print_conf conf ++ rest))
        ≡ parse_lines
            (fgets_lines (max_line_len - 1) rest)
            (record { conf = conf; section = last }))
unfolding parse
behind_conf conf rest fresh h =
    let start : Parsing = record { conf = []; section = none } in
    let (last, e) = run_sections [] conf none (fgets_lines 127 rest) fresh h in
    (
      last,
      ap (λ ls. parse_lines ls start)
            (fgets_lines-unlines (conf_lines conf) rest (conf_lines_fit conf h))
          ∙ e,
    )

-- A configuration that is written into a file, section by section and item by item, is parsed without
-- error, and its sections and items are what was written. Its lines have to fit into the parser's
-- buffer; keys are of letters, digits and _; names and values hold no zero, line feed or #; no name
-- comes twice among the sections or in a section.
pub parse-print_conf :
    (conf : Conf)
    → Fresh [] conf
    → All SectionFits conf
    → ((parse (some (print_conf conf))).0 ≡ pos 0)
      × ((parse (some (print_conf conf))).1.conf ≡ conf)
parse-print_conf conf fresh h =
    let (last, e) = behind_conf conf [] fresh h in
    let f =
      ap (λ text. parse (some text)) (sym (append-nil (print_conf conf)))
      ∙ e
      ∙ parse_lines-nil (record { conf = conf; section = last }) in
    (ap (λ out. out.0) f, ap (λ out. out.1.conf) f)

-- A section that comes again behind such a configuration is refused with -4, whatever follows it.
pub parse_duplicate :
    (conf : Conf) (name : Text) (items : Items) (rest : Text)
    → Fresh [] conf
    → All SectionFits conf
    → 0 < length name
    → Fits (section_line name)
    → find name conf ≡ some items
    → (parse (some (print_conf conf ++ (section_line name ++ 10 ∷ rest)))).0 ≡ negsuc 3
parse_duplicate conf name items rest fresh h filled fits found =
    let (last, e) = behind_conf conf (section_line name ++ 10 ∷ rest) fresh h in
    let s : Parsing = record { conf = conf; section = last } in
    ap (λ out. out.0)
      (e ∙ ap (λ ls. parse_lines ls s) (fgets_line 127 (section_line name) rest (fits.0) (fits.1)))
    ∙ section_again name items (fgets_lines 127 rest) s fits filled found
