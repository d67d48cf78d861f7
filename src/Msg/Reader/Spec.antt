-- ===== src/Msg/Reader/Spec.antt =====
-- What the reader is to make of a byte stream, with no buffers and no chunks: the stream is whole
-- messages one behind the other, and then the start of one, or a bad header.
use high_perf_server.Base.{
  ℕ, ◌≤◌, ◌<◌, ◌≡◌, refl, sym, ap, ap₂, ◌∙◌, true, false, List, [], ◌∷◌, ◌++◌, arith, length, take,
  concat, All, length-append, take-append_le, take-append_length, append-cancel_left, append_assoc,
}
use high_perf_server.Msg.Header.{
  MsgHdr, decode_header, chk_header, decode_header-take, chk_header_bounds,
}
use high_perf_server.Msg.Reader.Codes.{Code, ok, bad_header}

-- A message with a good header, as long as the header says.
pub record IsMessage (m : List ℕ) : Type 0 where
  pub good : chk_header (decode_header m) ≡ true
  pub sized : length m ≡ (decode_header m).size

-- A header that is cut off, or a good header with a body that is cut off.
pub data IsPartial (bs : List ℕ) : Type 0 where
  in_header : length bs < 20 → IsPartial bs
  in_body :
      20 ≤ length bs
      → chk_header (decode_header bs) ≡ true
      → length bs < (decode_header bs).size
      → IsPartial bs

pub data Frames : List ℕ → List (List ℕ) → List ℕ → Code → Type 0 where
  partial : {bs : List ℕ} → IsPartial bs → Frames bs [] bs ok
  bad :
      {bs : List ℕ}
      → 20 ≤ length bs
      → chk_header (decode_header bs) ≡ false
      → Frames bs [] bs bad_header
  whole :
      {bs r : List ℕ} {ms : List (List ℕ)} {rest : List ℕ} {code : Code} (m : List ℕ)
      → IsMessage m
      → bs ≡ m ++ r
      → Frames r ms rest code
      → Frames bs (m ∷ ms) rest code

pub message_long : {m : List ℕ} → IsMessage m → 20 < length m
message_long {m} v = omega (arith, chk_header_bounds (decode_header m) v.good, v.sized)

-- A header is read from the first twenty bytes alone.
pub decode_header-append : (m r : List ℕ) → 20 ≤ length m → decode_header (m ++ r) ≡ decode_header m
decode_header-append m r h =
    sym (decode_header-take (m ++ r))
    ∙ ap decode_header (take-append_le 20 m r h)
    ∙ decode_header-take m

module _ {m bs : List ℕ} (r : List ℕ) (v : IsMessage m) (e : bs ≡ m ++ r) where
  decode-split : decode_header bs ≡ decode_header m
  decode-split = rw e (decode_header-append m r (omega (arith, message_long v)))

  not_partial : IsPartial bs → ⊥
  not_partial (in_header h) = absurd (omega (arith, message_long v, ap length e, length-append m r))
  not_partial (in_body a b c) = absurd (
      omega
        (arith, ap (λ (h : MsgHdr). h.size) decode-split, v.sized, ap length e, length-append m r))

  not_bad : chk_header (decode_header bs) ≡ false → ⊥
  not_bad h = cc (decode-split, v.good)

  split_take : m ≡ take (decode_header bs).size bs
  split_take = rw (decode-split, ← v.sized, e) (sym (take-append_length m r))

-- Two streams that are equal begin with the same message, and go on alike.
module _ {m m' bs : List ℕ} (r r' : List ℕ) (v : IsMessage m) (v' : IsMessage m') where
  same_first : bs ≡ m ++ r → bs ≡ m' ++ r' → m ≡ m'
  same_first e e' = split_take r v e ∙ sym (split_take r' v' e')

  same_rest : bs ≡ m ++ r → bs ≡ m' ++ r' → r ≡ r'
  same_rest e e' = append-cancel_left m (sym e ∙ e' ∙ ap (λ t. t ++ r') (sym (same_first e e')))

Frames-agree :
    {bs bs' : List ℕ} {ms ms' : List (List ℕ)} {rest rest' : List ℕ} {code code' : Code}
    → bs ≡ bs'
    → Frames bs ms rest code
    → Frames bs' ms' rest' code'
    → (ms ≡ ms') × (rest ≡ rest') × (code ≡ code')
Frames-agree eq (partial p) (partial q) = (refl, eq, refl)
Frames-agree eq (partial (in_header h)) (bad l b) = absurd (omega (arith, ap length eq))
Frames-agree eq (partial (in_body _ g _)) (bad l b) = absurd (cc (ap decode_header eq))
Frames-agree eq (partial p) (whole {r = r} m v e f) = absurd (not_partial r v (eq ∙ e) p)
Frames-agree eq (bad l b) (partial (in_header h)) = absurd (omega (arith, ap length eq))
Frames-agree eq (bad l b) (partial (in_body _ g _)) = absurd (cc (ap decode_header eq))
Frames-agree eq (bad l b) (bad k c) = (refl, eq, refl)
Frames-agree eq (bad l b) (whole {r = r} m v e f) = absurd (not_bad r v (eq ∙ e) b)
Frames-agree eq (whole {r = r} m v e f) (partial p) = absurd (not_partial r v (sym eq ∙ e) p)
Frames-agree eq (whole {r = r} m v e f) (bad l b) = absurd (not_bad r v (sym eq ∙ e) b)
Frames-agree eq (whole {r = r} m v e f) (whole {r = r'} m' v' e' f') =
    let same = Frames-agree (same_rest r r' v v' e (eq ∙ e')) f f' in
    (ap₂ ◌∷◌ (same_first r r' v v' e (eq ∙ e')) same.0, same.1, same.2)

-- A stream is cut in one way only.
pub Frames-unique :
    {bs : List ℕ} {ms ms' : List (List ℕ)} {rest rest' : List ℕ} {code code' : Code}
    → Frames bs ms rest code
    → Frames bs ms' rest' code'
    → (ms ≡ ms') × (rest ≡ rest') × (code ≡ code')
Frames-unique f g = Frames-agree refl f g

-- What is left over is cut on with the bytes that follow.
pub Frames-append :
    {bs : List ℕ} {ms : List (List ℕ)} {rest : List ℕ} (more : List ℕ) {ms' : List (List ℕ)}
    {rest' : List ℕ} {code : Code}
    → Frames bs ms rest ok
    → Frames (rest ++ more) ms' rest' code
    → Frames (bs ++ more) (ms ++ ms') rest' code
Frames-append more (partial p) g = g
Frames-append more (whole {r = r} m v e f) g =
    whole m v (ap (λ t. t ++ more) e ∙ append_assoc m r more) (Frames-append more f g)

-- Messages one behind the other are cut at their ends.
pub Frames-concat : (ms : List (List ℕ)) → All IsMessage ms → Frames (concat ms) ms [] ok
Frames-concat [] h = partial (in_header (omega arith))
Frames-concat (m ∷ ms) h = whole m h.0 refl (Frames-concat ms h.1)
