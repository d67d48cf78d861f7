-- ===== src/Tests/Configuring.antt =====
-- A configuration file (config.cpp).
use high_perf_server.Base.{
  ℕ, ◌<◌, ◌≡◌, refl, ◌↔◌, Bool, true, false, none, some, List, [], ◌∷◌, ◌++◌, All, length, arith,
  not, ◌&&◌, ◌==◌,
}
use high_perf_server.Base.Int.{pos, negsuc}
use Prim.Native.String.{String}
use high_perf_server.Config.{Conf, Items, parse}
use high_perf_server.Config.Text.{is_space, strip, strip_comment}
use high_perf_server.Config.Pattern.{is_key, regexec}
use high_perf_server.Config.Cutting.{KeyText}
use high_perf_server.Config.Matching.{Matches, regexec-Matches}
use high_perf_server.Config.Lines.{Plain, PlainText, item_line, section_line}
use high_perf_server.Config.Roundtrip.{
  ItemFits, SectionFits, print_conf, parse-print_conf, parse_duplicate,
}
use high_perf_server.Config.Global.{codes, Config, init, get_key_str, get_key_int, atoi}
use high_perf_server.Config.Global.Complete.{Complete, config_of, init-print_conf}

abbrev items : Items
items =
    (codes "password", codes "123456")
    ∷ (codes "log_level", codes "3")
    ∷ (codes "log_stdin", codes "0")
    ∷ (codes "is_reply", codes "1")
    ∷ (codes "print_order", codes "16")
    ∷ []

abbrev conf : Conf
conf = (codes "global", items) ∷ []

-- The conditions of the theorems, decided.
abbrev all_plain : List ℕ → Bool
all_plain [] = true
all_plain (c ∷ cs) = not (c == 0) && not (c == 10) && not (c == 35) && all_plain cs

and_split : (b d : Bool) → (b && d) ≡ true → (b ≡ true) × (d ≡ true)
and_split true d h = (refl, h)
and_split false d h = cc

byte_test : (c : ℕ) → (not (c == 0) && not (c == 10) && not (c == 35)) ≡ true → Plain c
byte_test c h = ((λ e. ground arith), (λ e. ground arith), (λ e. ground arith))

all_plain-PlainText : (l : List ℕ) → all_plain l ≡ true → PlainText l
all_plain-PlainText [] _ = tt
all_plain-PlainText (c ∷ l) h =
    let (p, q) = and_split (not (c == 0) && not (c == 10) && not (c == 35)) (all_plain l) h in
    (byte_test c p, all_plain-PlainText l q)

abbrev all_key : List ℕ → Bool
all_key [] = true
all_key (c ∷ cs) = is_key c && all_key cs

all_key-KeyText : (l : List ℕ) → all_key l ≡ true → KeyText l
all_key-KeyText [] _ = tt
all_key-KeyText (c ∷ l) h =
    let (p, q) = and_split (is_key c) (all_key l) h in (p, all_key-KeyText l q)

conf-SectionFits : All SectionFits conf
unfolding is_key
conf-SectionFits = (
  (
    omega arith,
    (all_plain-PlainText (section_line (codes "global")) refl, omega arith),
    (
      item "password" "123456" refl refl (omega arith),
      (
        item "log_level" "3" refl refl (omega arith),
        (
          item "log_stdin" "0" refl refl (omega arith),
          (
            item "is_reply" "1" refl refl (omega arith),
            (item "print_order" "16" refl refl (omega arith), tt),
          ),
        ),
      ),
    ),
    (refl, (refl, (refl, (refl, (refl, tt))))),
  ),
  tt,
)
  where
    item :
        (key val : String)
        → all_key (codes key) ≡ true
        → all_plain (item_line (codes key) (codes val)) ≡ true
        → length (item_line (codes key) (codes val)) < 127
        → ItemFits (codes key, codes val)
    item key val h k r = (
      all_key-KeyText (codes key) h,
      (all_plain-PlainText (item_line (codes key) (codes val)) k, r),
    )

parse-print_conf_example :
    ((parse (some (print_conf conf))).0 ≡ pos 0) × ((parse (some (print_conf conf))).1.conf ≡ conf)
parse-print_conf_example = parse-print_conf conf (refl, tt) conf-SectionFits

parse_duplicate_example :
    (parse (some (print_conf conf ++ (section_line (codes "global") ++ 10 ∷ codes "x")))).0
    ≡ negsuc 3
parse_duplicate_example =
    parse_duplicate conf (codes "global") items (codes "x") (refl, tt) conf-SectionFits
      (omega arith) (all_plain-PlainText (section_line (codes "global")) refl, omega arith) refl

abbrev blank : Config
blank = record {
  log_level = pos 0;
  log_stdin = pos 0;
  reply = pos 0;
  snd_cnt = pos 0;
  prnt_order = pos 0;
  passwd = [];
}

init-print_conf_example :
    ((complete : Complete conf)
      → init (some (print_conf conf)) blank ≡ (pos 0, config_of (complete.0) (complete.2)))
    × (((init (some (print_conf conf)) blank).0 ≡ pos 0) ↔ Complete conf)
init-print_conf_example = init-print_conf conf blank (refl, tt) conf-SectionFits

conf-Complete : Complete conf
unfolding get_key_str get_key_int atoi is_space
conf-Complete = (
  items,
  refl,
  record {
    passwd = codes "123456";
    log_level = pos 3;
    log_stdin = pos 0;
    reply = pos 1;
    prnt_order = pos 16;
    passwd_found = refl;
    log_level_found = refl;
    log_stdin_found = refl;
    reply_found = refl;
    prnt_order_found = refl;
  },
)

regexec-Matches_example :
    (regexec (codes " port = \"8080\" ") ≡ some (codes "port", codes "8080"))
    ↔ Matches (codes " port = \"8080\" ") (codes "port") (codes "8080")
regexec-Matches_example = regexec-Matches (codes " port = \"8080\" ") (codes "port") (codes "8080")

port_found : regexec (codes " port = \"8080\" ") ≡ some (codes "port", codes "8080")
unfolding regexec is_space is_key
port_found = refl

quote_inside : regexec (codes "a=\"b\"c\"") ≡ some (codes "a", codes "b\"c")
unfolding regexec is_space is_key
quote_inside = refl

-- A # in a value starts a comment, and what is left is no item.
comment_in_value : regexec (strip (strip_comment (codes "a=\"b#c\""))) ≡ none
unfolding regexec is_space is_key strip strip_comment
comment_in_value = refl

minus_one : atoi (codes " -1x") ≡ negsuc 0
unfolding atoi is_space
minus_one = refl
