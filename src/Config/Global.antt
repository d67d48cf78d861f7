-- ===== src/Config/Global.antt =====
-- analyseGlobal, getKeyStr, getKeyInt and init of config.cpp: the values of the section [global].
pub mod Complete
use high_perf_server.Base.{
  ℕ, ◌+◌, ◌-◌, ◌*◌, ◌%◌, ◌^◌, min, Bool, true, false, ◌&&◌, Option, none, some, List, [], ◌∷◌, ◌==◌,
  ltb, leb, if◌then◌else◌, length, get_or,
}
use high_perf_server.Base.Int.{ℤ, pos, negsuc, to_int32}
use Prim.Native.Char.{code}
use Prim.Native.String.{String}
use high_perf_server.Config.{Text, Items, Conf, Parsing, find, parse, is_ok}
use high_perf_server.Config.Text.{trim_start, max_line_len}

abbrev pub codes : String → Text
codes String.[] = []
codes (String.◌∷◌ c s) = code c ∷ codes s

abbrev pub is_digit : ℕ → Bool
is_digit c = leb 48 c && leb c 57

-- The number of the digits that a text starts with.
abbrev pub digits : ℕ → Text → ℕ
digits n [] = n
digits n (c ∷ cs) = if is_digit c then digits (n * 10 + (c - 48)) cs else n

-- atoi: the value of strtol, which stops at the ends of a 64-bit `long`, cut to 32 bits.
abbrev pub atoi_plus : Text → ℤ
atoi_plus cs = to_int32 (min (digits 0 cs) (2 ^ 63 - 1) % 2 ^ 32)

abbrev pub atoi_minus : Text → ℤ
atoi_minus cs = to_int32 ((2 ^ 32 - min (digits 0 cs) (2 ^ 63) % 2 ^ 32) % 2 ^ 32)

abbrev pub atoi_signed : Text → ℤ
atoi_signed [] = pos 0
atoi_signed (c ∷ cs) =
    if c == 45 then atoi_minus cs else if c == 43 then atoi_plus cs else atoi_plus (c ∷ cs)

unfoldable pub atoi : Text → ℤ
atoi text = atoi_signed (trim_start text)

pub record Config : Type 0 where
  pub log_level : ℤ
  pub log_stdin : ℤ
  pub reply : ℤ
  pub snd_cnt : ℤ
  pub prnt_order : ℤ
  pub passwd : Text

abbrev pub max_pin_passwd_size : ℕ
max_pin_passwd_size = 64

-- The value, or none for -1.
unfoldable pub get_key_str : Items → Text → ℕ → Option Text
get_key_str imap key maxlen = elim (find key imap) [
  | none ↦ none
  | some str ↦ if ltb (length str) maxlen then some str else none
]

unfoldable pub get_key_int : Items → Text → Option ℤ
get_key_int imap key = elim (get_key_str imap key max_line_len) [
  | none ↦ none
  | some buf ↦ if is_digit (get_or buf 0 0) then some (atoi buf) else none
]

-- One field of the configuration: it is set, or the result is -1.
abbrev pub set_field : {A : Type 0} → Option A → (A → Config → Config) → Config → ℤ × Config
set_field none put c = (negsuc 0, c)
set_field (some a) put c = (pos 0, put a c)

-- The next statement, unless the one before has failed.
infixl 5 ◌and_then◌
abbrev pub ◌and_then◌ : ℤ × Config → (Config → ℤ × Config) → ℤ × Config
(ret, c) and_then next = let rest = next c in if is_ok ret then rest else (ret, c)

-- The statements of analyseGlobal.
module _ (imap : Items) where
  abbrev pub read_passwd : Config → ℤ × Config
  read_passwd =
      set_field (get_key_str imap (codes "password") max_pin_passwd_size)
        (λ v c. record c { passwd = v })

  abbrev pub read_log_level : Config → ℤ × Config
  read_log_level =
      set_field (get_key_int imap (codes "log_level")) (λ v c. record c { log_level = v })

  abbrev pub read_log_stdin : Config → ℤ × Config
  read_log_stdin =
      set_field (get_key_int imap (codes "log_stdin")) (λ v c. record c { log_stdin = v })

  abbrev pub read_reply : Config → ℤ × Config
  read_reply = set_field (get_key_int imap (codes "is_reply")) (λ v c. record c { reply = v })

  abbrev pub read_prnt_order : Config → ℤ × Config
  read_prnt_order =
      set_field (get_key_int imap (codes "print_order")) (λ v c. record c { prnt_order = v })

  -- The last one may be missing.
  unfoldable pub read_snd_cnt : Config → ℤ × Config
  read_snd_cnt c = elim (get_key_int imap (codes "first_send_cnt")) [
    | none ↦ (pos 0, record c { snd_cnt = pos 1 })
    | some v ↦ (pos 0, record c { snd_cnt = v })
  ]

  unfoldable pub analyse_items : Config → ℤ × Config
  analyse_items c =
      read_passwd c
      and_then read_log_level
      and_then read_log_stdin
      and_then read_reply
      and_then read_prnt_order
      and_then read_snd_cnt

unfoldable pub analyse_global : Conf → Config → ℤ × Config
analyse_global conf c = elim (find (codes "global") conf) [
  | none ↦ (negsuc 0, c)
  | some imap ↦ analyse_items imap c
]

-- init, with what `fopen` gives for its path.
unfoldable pub init : Option Text → Config → ℤ × Config
init file c =
    let out = parse file in if is_ok (out.0) then analyse_global (out.1.conf) c else (out.0, c)
