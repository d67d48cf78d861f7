-- ===== src/Config/Matching.antt =====
-- regexec on the pattern of getKeyVal (config.cpp) against the meaning of the pattern.
use high_perf_server.Base.{ℕ, ◌≡◌, refl, ap, ap₂, ◌∙◌, ◌↔◌, some, List, [], ◌∷◌, ◌++◌, append_assoc}
use mathlib.Core.Path.{subst}
use high_perf_server.Base.Partial.{◌>>=◌, >>=-eq-some}
use high_perf_server.Config.Text.{trim_start, trim_end}
use high_perf_server.Config.Pattern.{key_of, behind_key, behind, without_end, regexec}
use high_perf_server.Config.Cutting.{
  Spaces, KeyText, key_no_space, space_no_key, equals_solid, trim_start-append, trim_end-append,
  without_end-append, key_of-append, trim_start-Spaces, key_of-KeyText, behind-eq, without_end-eq,
  trim_end-Spaces,
}

-- The line is spaces, the key, spaces, =, spaces, the value in quotes, and spaces.
pub record Matches (line key val : List ℕ) : Type 0 where
  pub s1 : List ℕ
  pub s2 : List ℕ
  pub s3 : List ℕ
  pub s4 : List ℕ
  pub spaces1 : Spaces s1
  pub spaces2 : Spaces s2
  pub spaces3 : Spaces s3
  pub spaces4 : Spaces s4
  pub keys : KeyText key
  pub shape : line ≡ s1 ++ (key ++ (s2 ++ 61 ∷ (s3 ++ 34 ∷ (val ++ 34 ∷ s4))))

trim_start_blank : (s ys : List ℕ) → Spaces s → trim_start (s ++ ys) ≡ trim_start ys
trim_start_blank [] ys _ = refl
trim_start_blank (x ∷ s) ys (e, es) = rw e (trim_start_blank s ys es)

-- Where the key of a line ends, with spaces behind it or not.
key_ends :
    (key s r : List ℕ)
    → KeyText key
    → Spaces s
    → (key_of (key ++ (s ++ 61 ∷ r)) ≡ key) × (behind_key (key ++ (s ++ 61 ∷ r)) ≡ s ++ 61 ∷ r)
key_ends key [] r hk _ = key_of-append key 61 r hk (equals_solid.1)
key_ends key (x ∷ s) r hk (e, es) = key_of-append key x (s ++ 61 ∷ r) hk (space_no_key x e)

front :
    (s1 key s2 r : List ℕ)
    → Spaces s1
    → KeyText key
    → Spaces s2
    → (key_of (trim_start (s1 ++ (key ++ (s2 ++ 61 ∷ r)))) ≡ key)
      × (trim_start (behind_key (trim_start (s1 ++ (key ++ (s2 ++ 61 ∷ r))))) ≡ 61 ∷ r)
front s1 [] s2 r h1 hk h2 =
    rw
      (
        trim_start_blank s1 (s2 ++ 61 ∷ r) h1,
        trim_start-append s2 61 r h2 (equals_solid.0),
        equals_solid.1,
        equals_solid.0,
      )
      (refl, refl)
front s1 (k ∷ ks) s2 r h1 (e, es) h2 =
    let (f, g) = key_ends (k ∷ ks) s2 r (e, es) h2 in
    let start = trim_start-append s1 k (ks ++ (s2 ++ 61 ∷ r)) h1 (key_no_space k e) in
    (
      ap key_of start ∙ f,
      ap (λ l. trim_start (behind_key l)) start
          ∙ ap trim_start g
          ∙ trim_start-append s2 61 r h2 (equals_solid.0),
    )

-- The value of a line.
back :
    (s3 val s4 : List ℕ)
    → Spaces s3
    → Spaces s4
    → (behind 34 (trim_start (s3 ++ 34 ∷ (val ++ 34 ∷ s4))) ≡ some (val ++ 34 ∷ s4))
      × (without_end 34 (trim_end (val ++ 34 ∷ s4)) ≡ some val)
back s3 val s4 h3 h4 = (
  ap (behind 34) (trim_start-append s3 34 (val ++ 34 ∷ s4) h3 (equals_solid.2)),
  ap (without_end 34) (trim_end-append val 34 s4 (equals_solid.2) h4) ∙ without_end-append 34 val,
)

regexec_finds : (line key val : List ℕ) → Matches line key val → regexec line ≡ some (key, val)
unfolding regexec
regexec_finds line key val m =
    let (f, g) = front m.s1 key m.s2 (m.s3 ++ 34 ∷ (val ++ 34 ∷ m.s4)) m.spaces1 m.keys m.spaces2 in
    let (h, k) = back m.s3 val m.s4 m.spaces3 m.spaces4 in rw (m.shape, g, h, k, f)

regexec_found : (line key val : List ℕ) → regexec line ≡ some (key, val) → Matches line key val
unfolding regexec
regexec_found line key val h =
    let from_key = trim_start line in
    let bk = trim_start (behind_key from_key) in
    let (from_val, e1, h1) =
      >>=-eq-some (behind 61 bk)
        (λ from_val.
          behind 34 (trim_start from_val)
          >>= (λ quoted. without_end 34 (trim_end quoted) >>= (λ val. some (key_of from_key, val))))
        h in
    let (quoted, e2, h2) =
      >>=-eq-some (behind 34 (trim_start from_val))
        (λ quoted. without_end 34 (trim_end quoted) >>= (λ val. some (key_of from_key, val))) h1 in
    let (v, e3, h3) =
      >>=-eq-some (without_end 34 (trim_end quoted)) (λ val. some (key_of from_key, val)) h2 in
    let ek : key_of from_key ≡ key = cc in
    let ev : v ≡ val = cc in
    let (s1, es1, f1) = trim_start-Spaces line in
    let (ks, fk) = key_of-KeyText from_key in
    let (s2, es2, f2) = trim_start-Spaces (behind_key from_key) in
    let (s3, es3, f3) = trim_start-Spaces from_val in
    let (s4, es4, f4) = trim_end-Spaces quoted in
    let g4 : quoted ≡ val ++ 34 ∷ s4 =
      f4
      ∙ ap (λ r. r ++ s4) (without_end-eq 34 (trim_end quoted) v e3 ∙ ap (λ r. r ++ 34 ∷ []) ev)
      ∙ append_assoc val (34 ∷ []) s4 in
    let g3 : from_val ≡ s3 ++ 34 ∷ (val ++ 34 ∷ s4) =
      f3 ∙ ap (λ r. s3 ++ r) (behind-eq 34 (trim_start from_val) quoted e2 ∙ ap (λ r. 34 ∷ r) g4) in
    let g2 : behind_key from_key ≡ s2 ++ 61 ∷ (s3 ++ 34 ∷ (val ++ 34 ∷ s4)) =
      f2 ∙ ap (λ r. s2 ++ r) (behind-eq 61 bk from_val e1 ∙ ap (λ r. 61 ∷ r) g3) in
    record {
      s1 = s1;
      s2 = s2;
      s3 = s3;
      s4 = s4;
      spaces1 = es1;
      spaces2 = es2;
      spaces3 = es3;
      spaces4 = es4;
      keys = subst KeyText ek ks;
      shape = f1 ∙ ap (λ r. s1 ++ r) (fk ∙ ap₂ (λ k r. k ++ r) ek g2);
    }

-- The pattern is found in a line exactly with the keys and values that it describes.
pub regexec-Matches :
    (line key val : List ℕ) → (regexec line ≡ some (key, val)) ↔ Matches line key val
regexec-Matches line key val = (regexec_found line key val, regexec_finds line key val)
