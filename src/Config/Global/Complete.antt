-- ===== src/Config/Global/Complete.antt =====
-- Which configurations `init` of config.cpp accepts, and what it makes of them.
use high_perf_server.Base.{
  ◌≡◌, refl, sym, ap, ◌∙◌, ◌↔◌, Bool, true, false, Option, none, some, Option-cases, inl, inr, [],
  All, ==_iff, if◌then◌else◌,
}
use high_perf_server.Base.Int.{ℤ, pos, negsuc}
use high_perf_server.Config.{Text, Items, Conf, find, is_ok}
use high_perf_server.Config.Roundtrip.{Fresh, SectionFits, print_conf, parse-print_conf}
use high_perf_server.Config.Global.{
  codes, Config, max_pin_passwd_size, get_key_str, get_key_int, set_field, ◌and_then◌,
  analyse_items, read_passwd, read_log_level, read_log_stdin, read_reply, read_prnt_order,
  read_snd_cnt, analyse_global, init,
}

abbrev pub Has : {A : Type 0} → Option A → Type 0
Has {A} o = (a : A) × (o ≡ some a)

-- The values that the section [global] must have.
pub record Needed (imap : Items) : Type 0 where
  pub passwd : Text
  pub log_level : ℤ
  pub log_stdin : ℤ
  pub reply : ℤ
  pub prnt_order : ℤ
  pub passwd_found : get_key_str imap (codes "password") max_pin_passwd_size ≡ some passwd
  pub log_level_found : get_key_int imap (codes "log_level") ≡ some log_level
  pub log_stdin_found : get_key_int imap (codes "log_stdin") ≡ some log_stdin
  pub reply_found : get_key_int imap (codes "is_reply") ≡ some reply
  pub prnt_order_found : get_key_int imap (codes "print_order") ≡ some prnt_order

-- The section is there, with these values.
abbrev pub Complete : Conf → Type 0
Complete conf = (imap : Items) × (find (codes "global") conf ≡ some imap) × Needed imap

-- first_send_cnt may be missing, and is 1 then.
abbrev pub or_one : Option ℤ → ℤ
or_one none = pos 1
or_one (some v) = v

bool_clash : true ≡ false → ⊥
bool_clash e = cc

ok_zero : (ret : ℤ) → is_ok ret ≡ true → ret ≡ pos 0
ok_zero (pos n) h = ap pos ((==_iff n 0).0 h)
ok_zero (negsuc n) h = cc

and_then_ok :
    (out : ℤ × Config) (next : Config → ℤ × Config)
    → (out and_then next).0 ≡ pos 0
    → (out.0 ≡ pos 0) × ((next out.1).0 ≡ pos 0)
and_then_ok (ret, c) next h = go (is_ok ret) refl h
  where
    go :
        (b : Bool)
        → is_ok ret ≡ b
        → (if b then next c else (ret, c)).0 ≡ pos 0
        → (ret ≡ pos 0) × ((next c).0 ≡ pos 0)
    go true e h = (ok_zero ret e, h)
    go false e h = elim (bool_clash (sym (ap is_ok h) ∙ e)) [ ]

set_field_ok :
    {A : Type 0} (o : Option A) (put : A → Config → Config) (c : Config)
    → (set_field o put c).0 ≡ pos 0
    → Has o
set_field_ok none put c h = cc
set_field_ok (some a) put c h = (a, refl)

needed : (imap : Items) (c : Config) → (analyse_items imap c).0 ≡ pos 0 → Needed imap
unfolding analyse_items
needed imap c h =
    let o1 = read_passwd imap c in
    let o2 = o1 and_then read_log_level imap in
    let o3 = o2 and_then read_log_stdin imap in
    let o4 = o3 and_then read_reply imap in
    let o5 = o4 and_then read_prnt_order imap in
    let h5 = (and_then_ok o5 (read_snd_cnt imap) h).0 in
    let (h4, g5) = and_then_ok o4 (read_prnt_order imap) h5 in
    let (h3, g4) = and_then_ok o3 (read_reply imap) h4 in
    let (h2, g3) = and_then_ok o2 (read_log_stdin imap) h3 in
    let (h1, g2) = and_then_ok o1 (read_log_level imap) h2 in
    let (passwd, e1) =
      set_field_ok (get_key_str imap (codes "password") max_pin_passwd_size)
        (λ v c. record c { passwd = v }) c h1 in
    let (log_level, e2) =
      set_field_ok (get_key_int imap (codes "log_level")) (λ v c. record c { log_level = v }) (o1.1)
        g2 in
    let (log_stdin, e3) =
      set_field_ok (get_key_int imap (codes "log_stdin")) (λ v c. record c { log_stdin = v }) (o2.1)
        g3 in
    let (reply, e4) =
      set_field_ok (get_key_int imap (codes "is_reply")) (λ v c. record c { reply = v }) (o3.1)
        g4 in
    let (prnt_order, e5) =
      set_field_ok (get_key_int imap (codes "print_order")) (λ v c. record c { prnt_order = v })
        (o4.1) g5 in
    record {
      passwd = passwd;
      log_level = log_level;
      log_stdin = log_stdin;
      reply = reply;
      prnt_order = prnt_order;
      passwd_found = e1;
      log_level_found = e2;
      log_stdin_found = e3;
      reply_found = e4;
      prnt_order_found = e5;
    }

snd_cnt_value :
    (imap : Items) (c : Config)
    → read_snd_cnt imap c
      ≡ (pos 0, record c { snd_cnt = or_one (get_key_int imap (codes "first_send_cnt")) })
unfolding read_snd_cnt
snd_cnt_value imap c = elim (Option-cases (get_key_int imap (codes "first_send_cnt"))) [
  | inl e ↦ rw (read_snd_cnt, e)
  | inr (v, e) ↦ rw (read_snd_cnt, e)
]

-- The configuration with these values.
abbrev pub config_of : (imap : Items) → Needed imap → Config
config_of imap n = record {
  log_level = n.log_level;
  log_stdin = n.log_stdin;
  reply = n.reply;
  snd_cnt = or_one (get_key_int imap (codes "first_send_cnt"));
  prnt_order = n.prnt_order;
  passwd = n.passwd;
}

values :
    (imap : Items) (c : Config) (n : Needed imap) → analyse_items imap c ≡ (pos 0, config_of imap n)
unfolding analyse_items
values imap c n =
    rw (n.passwd_found, n.log_level_found, n.log_stdin_found, n.reply_found, n.prnt_order_found)
      (snd_cnt_value imap (record {
        log_level = n.log_level;
        log_stdin = n.log_stdin;
        reply = n.reply;
        snd_cnt = c.snd_cnt;
        prnt_order = n.prnt_order;
        passwd = n.passwd;
      }))

minus_zero : negsuc 0 ≡ pos 0 → ⊥
minus_zero e = cc

module _ (conf : Conf) (c : Config) where
  global_found :
      (imap : Items)
      → find (codes "global") conf ≡ some imap
      → analyse_global conf c ≡ analyse_items imap c
  unfolding analyse_global
  global_found imap e = rw (analyse_global, e)

  global_missing : find (codes "global") conf ≡ none → (analyse_global conf c).0 ≡ negsuc 0
  unfolding analyse_global
  global_missing e = rw (analyse_global, e)

  accepted : (analyse_global conf c).0 ≡ pos 0 → Complete conf
  accepted h = elim (Option-cases (find (codes "global") conf)) [
    | inl e ↦ elim (minus_zero (sym (global_missing e) ∙ h)) [ ]
    | inr (imap, e) ↦ (imap, e, needed imap c (ap (λ out. out.0) (sym (global_found imap e)) ∙ h))
  ]

  -- analyseGlobal succeeds exactly where the section [global] has all values that are needed, and
  -- then it reads them.
  pub analyse_global-Complete : ((analyse_global conf c).0 ≡ pos 0) ↔ Complete conf
  analyse_global-Complete = (
    accepted,
    λ complete.
        ap (λ out. out.0)
          (global_found (complete.0) (complete.1) ∙ values (complete.0) c (complete.2)),
  )

-- A configuration that is written into a file is loaded, with the values of its section [global] and 1
-- for a missing first_send_cnt, if that section has all values that are needed, and refused otherwise. The file is one that the parser reads back, as in parse-print_conf.
pub init-print_conf :
    (conf : Conf) (c : Config)
    → Fresh [] conf
    → All SectionFits conf
    → ((complete : Complete conf)
        → init (some (print_conf conf)) c ≡ (pos 0, config_of (complete.0) (complete.2)))
      × (((init (some (print_conf conf)) c).0 ≡ pos 0) ↔ Complete conf)
unfolding init
init-print_conf conf c fresh h =
    let (e, f) = parse-print_conf conf fresh h in
    rw (e, f)
      (
        (λ complete.
            global_found conf c (complete.0) (complete.1) ∙ values (complete.0) c (complete.2)),
        analyse_global-Complete conf c,
      )
