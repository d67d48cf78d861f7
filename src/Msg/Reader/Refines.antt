-- ===== src/Msg/Reader/Refines.antt =====
-- MsgReader::parse of sockobj.cpp and the specification.
use mathlib.Core.Path.{subst}
use high_perf_server.Base.{
  ℕ, ◌+◌, ◌-◌, ◌≤◌, ◌<◌, ◌≡◌, refl, sym, ap, ◌∙◌, inl, inr, true, false, some, List, [], ◌++◌,
  arith, length, take, drop, length-append, length-take, take-append-drop, take_all, append_assoc,
  le→leb, leb-false, Bool-cases, dec_lt, lt→ltb, ltb-false,
}
use high_perf_server.Msg.Cache.{Cache, Alloc, overwrite, append}
use high_perf_server.Msg.Header.{decode_header, chk_header, chk_header_bounds}
use high_perf_server.Msg.Reader.Codes.{ok, bad_header}
use high_perf_server.Msg.Reader.Spec.{in_header, partial, bad, decode_header-append}
use high_perf_server.Msg.Reader.State.{
  Allocates, InHeader, Holds, header, body, overwrite_lem, append-Filled,
}
use high_perf_server.Msg.Reader.Cuts.{Cuts}
use high_perf_server.Msg.Reader.Rounds.{parse_header_good, parse_header_bad}
use high_perf_server.Msg.Reader.Body.{Does, parse_body_lem}
use high_perf_server.Msg.Reader.{
  SockBase, Parsed, finished, append_dummy, parse_header, parse_body, resume_header, parse,
}

module _ (alloc : Alloc) (allocates : Allocates alloc) where
  -- The socket whose header's buffer has been filled with `b`.
  abbrev filled_header : SockBase → List ℕ → SockBase
  filled_header s b = record s { hdr_buf = b; rdlen = s.rdlen + (20 - s.rdlen) }

  -- The header is still not whole.
  resume_short :
      (s : SockBase) {b : List ℕ} (buf : List ℕ)
      → length buf < 20 - s.rdlen
      → overwrite s.hdr_buf s.rdlen buf ≡ some b
      → resume_header alloc s buf
        ≡ some (finished (record s { hdr_buf = b; rdlen = s.rdlen + length buf }) ok)
  unfolding resume_header
  resume_short s buf h e = rw (leb-false _ _ h, e)

  resume_bad :
      (s : SockBase) {b : List ℕ} (buf : List ℕ)
      → 20 - s.rdlen ≤ length buf
      → overwrite s.hdr_buf s.rdlen (take (20 - s.rdlen) buf) ≡ some b
      → chk_header (decode_header b) ≡ false
      → resume_header alloc s buf
        ≡ some (finished (record s { hdr_buf = b; rdlen = s.rdlen + (20 - s.rdlen) }) bad_header)
  unfolding resume_header
  resume_bad s {b = b} buf h e wrong = rw (
    le→leb _ _ h,
    e,
    parse_header_bad alloc allocates (filled_header s b) (decode_header b) wrong,
  )

  resume_good :
      (s : SockBase) {b : List ℕ} {c c' : Cache} {p : Parsed} (buf : List ℕ)
      → 20 - s.rdlen ≤ length buf
      → overwrite s.hdr_buf s.rdlen (take (20 - s.rdlen) buf) ≡ some b
      → let s' : SockBase = record s { hdr_buf = b; rdlen = s.rdlen + (20 - s.rdlen) } in
        parse_header alloc s' (decode_header b) ≡ some (record s' { rcv_dummy = some c }, ok)
        → append c (take 20 b) ≡ some c'
        → parse_body alloc (record s' { rcv_dummy = some c' }) (drop (20 - s.rdlen) buf) ≡ some p
        → resume_header alloc s buf ≡ some p
  unfolding resume_header append_dummy
  resume_good s buf h e f g k = rw (le→leb _ _ h, e, f, g, k)

  module _ (s : SockBase) (bs buf : List ℕ) (v : InHeader s bs) where
    open v use {empty, room, at, short, kept}

    -- The bytes that the header lacks.
    lacks : ℕ
    lacks = 20 - s.rdlen

    head : List ℕ
    unfolding lacks
    head = bs ++ take lacks buf

    resume_header_short : length buf < lacks → Does alloc allocates bs (resume_header alloc) s buf
    unfolding lacks
    resume_header_short h =
        let (b, e, len, kept') =
          overwrite_lem s.hdr_buf s.rdlen buf bs (omega (arith, room)) kept at in
        let longer : length (bs ++ buf) < 20 = omega (arith, length-append bs buf, at) in
        (
          finished (record s { hdr_buf = b; rdlen = s.rdlen + length buf }) ok,
          resume_short s buf h e,
          record {
            ms = [];
            rest = bs ++ buf;
            frames = partial (in_header longer);
            sent = refl;
            holds = λ _. header (record {
              empty = empty;
              room = len ∙ room;
              at = omega (arith, length-append bs buf, at);
              short = longer;
              kept = kept';
            });
          },
        )

    module _ (fits : lacks ≤ length buf) where
      length-head : length head ≡ 20
      unfolding lacks head
      length-head = omega (
        arith,
        length-append bs (take (20 - s.rdlen) buf),
        length-take (20 - s.rdlen) buf,
        at,
        short,
        fits,
      )

      split_head : head ++ drop lacks buf ≡ bs ++ buf
      unfolding lacks head
      split_head =
          append_assoc bs (take lacks buf) (drop lacks buf)
          ∙ ap (λ t. bs ++ t) (take-append-drop lacks buf)

      -- The header's buffer holds the header.
      head_written : overwrite s.hdr_buf s.rdlen (take lacks buf) ≡ some head
      unfolding lacks head
      head_written =
          let (b, e, len, kept') =
            overwrite_lem s.hdr_buf s.rdlen (take lacks buf) bs
              (omega (arith, room, length-take lacks buf)) kept at in
          e
          ∙ ap some (
              sym (
                take_all (s.rdlen + length (take lacks buf)) b
                  (omega (arith, len, room, length-take lacks buf, fits, at, short)))
              ∙ kept')

      resume_header_bad :
          chk_header (decode_header head) ≡ false
          → Does alloc allocates bs (resume_header alloc) s buf
      unfolding lacks
      resume_header_bad wrong = (
        finished (record s { hdr_buf = head; rdlen = s.rdlen + lacks }) bad_header,
        resume_bad s buf fits head_written wrong,
        record {
          ms = [];
          rest = bs ++ buf;
          frames =
              bad
                (omega
                  (arith, length-head, ap length split_head, length-append head (drop lacks buf)))
                (rw
                  (
                    ← split_head,
                    decode_header-append head (drop lacks buf) (omega (arith, length-head)),
                  )
                  wrong);
          sent = refl;
          holds = λ e. cc;
        },
      )

      resume_header_good :
          chk_header (decode_header head) ≡ true
          → Does alloc allocates bs (resume_header alloc) s buf
      unfolding lacks
      resume_header_good good =
          let s' : SockBase = record s { hdr_buf = head; rdlen = s.rdlen + lacks } in
          let (c, e, w, cap) = parse_header_good alloc allocates s' (decode_header head) good in
          let bounds = chk_header_bounds (decode_header head) good in
          let (c', f, w', cap') = append-Filled head w (omega (arith, length-head, cap, bounds)) in
          let (p, g, k) =
            parse_body_lem alloc allocates (record s' { rcv_dummy = some c' }) head (drop lacks buf)
              (record {
                msg = c';
                held = refl;
                room = length-head;
                after = omega (arith, at, short);
                filled = w';
                long = omega (arith, length-head);
                good = good;
                sized = cap' ∙ cap;
                short = omega (arith, length-head, cap', cap, bounds);
              }) in
          (
            p,
            resume_good s buf fits head_written e
                (ap (append c) (take_all 20 head (omega (arith, length-head))) ∙ f) g,
            subst (λ t. Cuts t p) split_head k,
          )

    resume_header_lem : Does alloc allocates bs (resume_header alloc) s buf
    resume_header_lem = elim (dec_lt (length buf) lacks) [
      | yes h ↦ resume_header_short h
      | no h ↦ elim (Bool-cases (chk_header (decode_header head))) [
        | inl good ↦ resume_header_good (omega arith) good
        | inr wrong ↦ resume_header_bad (omega arith) wrong
      ]
    ]

  -- On a socket that holds `bs`, `parse` returns with no undefined behaviour, and has cut the bytes
  -- that it holds and those that arrive as the specification says.
  pub parse_lem :
      (s : SockBase) (bs buf : List ℕ)
      → Holds s bs
      → (p : Parsed) × (parse alloc s buf ≡ some p) × Cuts (bs ++ buf) p
  unfolding parse
  parse_lem s bs buf (header v) =
      rw (lt→ltb s.rdlen 20 (omega (arith, v.at, v.short))) (resume_header_lem s bs buf v)
  parse_lem s bs buf (body v) =
      rw (ltb-false s.rdlen 20 (omega (arith, v.after))) (parse_body_lem alloc allocates s bs buf v)
