-- ===== src/Msg/Reader/Body.antt =====
-- MsgReader::parseBody of sockobj.cpp: on a socket that has a good header the stream is cut as the
-- specification does.
use mathlib.Core.Option
use high_perf_server.Base.{
  ℕ, suc, ◌-◌, ◌≤◌, ◌<◌, ◌≡◌, refl, sym, ap, ◌∙◌, true, none, some, List, [], ◌∷◌, ◌++◌, arith,
  length, take, drop, length-append, length-take, take-append-drop, append_assoc, dec_lt,
}
use high_perf_server.Base.Int.{le→leb_pos, lt→leb_pos, lt→ltb_pos, pos}
use high_perf_server.Msg.Cache.{Cache, Alloc, append, flip, left}
use high_perf_server.Msg.Header.{decode_header, chk_header}
use high_perf_server.Msg.Reader.Codes.{ok}
use high_perf_server.Msg.Reader.Spec.{IsMessage, in_body, partial, decode_header-append}
use high_perf_server.Msg.Reader.State.{Allocates, InBody, body, append-Filled}
use high_perf_server.Msg.Reader.Cuts.{Cuts, Cuts-cons, flip-Filled, left_lem}
use high_perf_server.Msg.Reader.Loop.{loop}
use high_perf_server.Msg.Reader.{
  SockBase, Parsed, finished, sent_first, dispatch, append_dummy, next_loop, parse_next_body,
  deliver, parse_body,
}

module _ (alloc : Alloc) (allocates : Allocates alloc) where
  body_part :
      (s : SockBase) {c c' : Cache} (n : ℕ) (buf : List ℕ)
      → s.rcv_dummy ≡ some c
      → left c ≡ pos n
      → 0 < n
      → length buf < n
      → append c buf ≡ some c'
      → parse_body alloc s buf ≡ some (finished (record s { rcv_dummy = some c' }) ok)
  unfolding parse_body append_dummy
  body_part s n buf e l h lacks f = rw (e, l, lt→ltb_pos n h, lt→leb_pos _ _ lacks, f)

  body_whole :
      (s : SockBase) {c c' : Cache} {p : Parsed} (n : ℕ) (buf : List ℕ)
      → s.rcv_dummy ≡ some c
      → left c ≡ pos n
      → 0 < n
      → n ≤ length buf
      → append c (take n buf) ≡ some c'
      → next_loop alloc
          (suc (length (drop n buf)))
          (record s { rcv_dummy = none; rdlen = 0 })
          (drop n buf)
        ≡ some p
      → parse_body alloc s buf ≡ some (sent_first (flip c' ∷ []) p)
  unfolding parse_body append_dummy deliver dispatch parse_next_body
  body_whole s n buf e l h fits f g = rw (e, l, lt→ltb_pos n h, le→leb_pos _ _ fits, f, g)

  -- What `parse` is to do: it returns, and cuts the bytes that were there and those that come.
  abbrev pub Does : List ℕ → (SockBase → List ℕ → Option.Option Parsed) → SockBase → List ℕ → Type 0
  Does bs f s buf = (p : Parsed) × (f s buf ≡ some p) × Cuts (bs ++ buf) p

  module _ (s : SockBase) (bs buf : List ℕ) (v : InBody s bs) where
    open v use {msg, held, room, after, filled, long, good, sized, short}

    wants : ℕ
    wants = msg.capacity - msg.pos

    unfolded_wants : wants ≡ msg.capacity - length bs
    unfolding wants
    unfolded_wants = omega (arith, filled.at)

    left-wants : left msg ≡ pos wants
    unfolding wants
    left-wants = left_lem msg (omega (arith, filled.at, short))

    same_header : (more : List ℕ) → decode_header (bs ++ more) ≡ decode_header bs
    same_header more = decode_header-append bs more long

    parse_body_part : length buf < wants → Does bs (parse_body alloc) s buf
    parse_body_part lacks =
        let (c', f, v', cap) = append-Filled buf filled (omega (arith, unfolded_wants)) in
        (
          finished (record s { rcv_dummy = some c' }) ok,
          body_part s wants buf held left-wants (omega (arith, unfolded_wants, short)) lacks f,
          record {
            ms = [];
            rest = bs ++ buf;
            frames = partial (in_body longer good' (omega (arith, size', longest)));
            sent = refl;
            holds = λ _. body (record {
              msg = c';
              held = refl;
              room = room;
              after = after;
              filled = v';
              long = longer;
              good = good';
              sized = cap ∙ size';
              short = omega (arith, cap, longest);
            });
          },
        )
      where
        longer : 20 ≤ length (bs ++ buf)
        longer = omega (arith, length-append bs buf, long)

        longest : length (bs ++ buf) < msg.capacity
        longest = omega (arith, length-append bs buf, unfolded_wants, short)

        good' : chk_header (decode_header (bs ++ buf)) ≡ true
        good' = rw (same_header buf) good

        size' : msg.capacity ≡ (decode_header (bs ++ buf)).size
        size' = rw (same_header buf) sized

    parse_body_whole : wants ≤ length buf → Does bs (parse_body alloc) s buf
    parse_body_whole fits =
        let (c', f, v', cap) =
          append-Filled (take wants buf) filled
            (omega (arith, unfolded_wants, short, length-take wants buf)) in
        let (p, g, k) =
          loop alloc allocates (suc (length (drop wants buf))) (drop wants buf)
            (record s { rcv_dummy = none; rdlen = 0 })
            (record { empty = refl; room = room; at = refl; short = omega arith; kept = refl })
            (omega arith) in
        (
          sent_first (flip c' ∷ []) p,
          body_whole s wants buf held left-wants (omega (arith, unfolded_wants, short)) fits f g,
          Cuts-cons (bs ++ take wants buf) c' whole_message split
              (flip-Filled v' (omega (arith, cap, whole_length))) k,
        )
      where
        whole_length : length (bs ++ take wants buf) ≡ msg.capacity
        whole_length =
            omega (
              arith,
              length-append bs (take wants buf),
              length-take wants buf,
              unfolded_wants,
              short,
            )

        whole_message : IsMessage (bs ++ take wants buf)
        whole_message = record {
          good = rw (same_header (take wants buf)) good;
          sized = rw (same_header (take wants buf)) (whole_length ∙ sized);
        }

        split : bs ++ buf ≡ (bs ++ take wants buf) ++ drop wants buf
        split =
            ap (λ t. bs ++ t) (sym (take-append-drop wants buf))
            ∙ sym (append_assoc bs (take wants buf) (drop wants buf))

    pub parse_body_lem : Does bs (parse_body alloc) s buf
    parse_body_lem = elim (dec_lt (length buf) wants) [
      | yes lacks ↦ parse_body_part lacks
      | no fits ↦ parse_body_whole (omega arith)
    ]
