-- ===== src/Msg/Reader/Loop.antt =====
-- MsgReader::parseNextBody of sockobj.cpp: the loop cuts what is left of the stream, whatever the
-- buffers hold.
use mathlib.Core.Option
use high_perf_server.Base.{
  ℕ, zero, suc, ◌≤◌, ◌<◌, ◌≡◌, refl, sym, ap, ◌∙◌, inl, inr, true, false, none, some, List, [], ◌∷◌,
  arith, length, take, drop, length-take, length-drop, take-append-drop, take_cong, Bool-cases,
  dec_lt,
}
use high_perf_server.Base.Partial.{◌>>=◌}
use high_perf_server.Base.Int.{pos}
use high_perf_server.Msg.Cache.{Alloc, flip}
use high_perf_server.Msg.Header.{decode_header, chk_header, chk_header_bounds}
use high_perf_server.Msg.Reader.Codes.{ok, bad_header}
use high_perf_server.Msg.Reader.Spec.{in_header, in_body, partial, bad}
use high_perf_server.Msg.Reader.State.{
  Allocates, InHeader, header, body, overwrite_lem, append-Filled,
}
use high_perf_server.Msg.Reader.{SockBase, Parsed, finished, sent_first, go_on, next_loop}
use high_perf_server.Msg.Reader.Cuts.{Cuts, Cuts-cons, flip-Filled, new_left, take-IsMessage}
use high_perf_server.Msg.Reader.Rounds.{
  parse_header_good, next_loop_end, next_loop_step, round_short, round_bad, round_whole, round_part,
}

module _ (alloc : Alloc) (allocates : Allocates alloc) where
  -- The loop of `parseNextBody` on a socket that holds nothing.
  abbrev pub LoopCuts : ℕ → List ℕ → Type 0
  LoopCuts fuel buf =
      (s : SockBase)
      → InHeader s []
      → length buf < fuel
      → (p : Parsed) × (next_loop alloc fuel s buf ≡ some p) × Cuts buf p

  loop_short :
      (fuel : ℕ) (buf : List ℕ) → 0 < length buf → length buf < 20 → LoopCuts (suc fuel) buf
  loop_short fuel buf h short s idle enough =
      let (b, e, len, kept) =
        overwrite_lem s.hdr_buf 0 buf [] (omega (arith, idle.room)) refl refl in
      let s' : SockBase = record s { hdr_buf = b; rdlen = length buf } in
      (
        finished s' ok,
        next_loop_step alloc allocates fuel s buf h
            ∙ ap (λ r. r >>= (λ r. go_on alloc r (next_loop alloc fuel)))
                (round_short alloc allocates s buf short e)
            ∙ ap (Option.map (sent_first [])) (next_loop_end alloc allocates fuel s' (omega arith)),
        record {
          ms = [];
          rest = buf;
          frames = partial (in_header short);
          sent = refl;
          holds = λ _. header (record {
            empty = idle.empty;
            room = len ∙ idle.room;
            at = refl;
            short = short;
            kept = take_cong b (omega arith) ∙ kept;
          });
        },
      )

  loop_bad :
      (fuel : ℕ) (buf : List ℕ)
      → 20 ≤ length buf
      → chk_header (decode_header buf) ≡ false
      → LoopCuts (suc fuel) buf
  loop_bad fuel buf long wrong s idle enough = (
    finished s bad_header,
    next_loop_step alloc allocates fuel s buf (omega arith)
        ∙ ap (λ r. r >>= (λ r. go_on alloc r (next_loop alloc fuel)))
            (round_bad alloc allocates s buf long wrong),
    record { ms = []; rest = buf; frames = bad long wrong; sent = refl; holds = λ e. cc },
  )

  module _ (buf : List ℕ) (long : 20 ≤ length buf)
      (good : chk_header (decode_header buf) ≡ true) where
    loop_part : (fuel : ℕ) → length buf < (decode_header buf).size → LoopCuts (suc fuel) buf
    loop_part fuel lacks s idle enough =
        let n = (decode_header buf).size in
        let (c, e, v, cap) = parse_header_good alloc allocates s (decode_header buf) good in
        let (c', f, v', cap') = append-Filled buf v (omega (arith, cap)) in
        let s' : SockBase = record s { rcv_dummy = some c'; rdlen = 20 } in
        (
          finished s' ok,
          next_loop_step alloc allocates fuel s buf (omega arith)
              ∙ ap (λ r. r >>= (λ r. go_on alloc r (next_loop alloc fuel)))
                  (round_part alloc allocates s n buf long e (new_left c v ∙ ap pos cap) lacks f)
              ∙ ap (Option.map (sent_first []))
                  (next_loop_end alloc allocates fuel s' (omega arith)),
          record {
            ms = [];
            rest = buf;
            frames = partial (in_body long good lacks);
            sent = refl;
            holds = λ _. body (record {
              msg = c';
              held = refl;
              room = idle.room;
              after = refl;
              filled = v';
              long = long;
              good = good;
              sized = cap' ∙ cap;
              short = omega (arith, cap', cap);
            });
          },
        )

    loop_whole :
        (fuel : ℕ)
        → (decode_header buf).size ≤ length buf
        → LoopCuts fuel (drop (decode_header buf).size buf)
        → LoopCuts (suc fuel) buf
    loop_whole fuel fits ih s idle enough =
        let n = (decode_header buf).size in
        let (c, e, v, cap) = parse_header_good alloc allocates s (decode_header buf) good in
        let (c', f, v', cap') =
          append-Filled (take n buf) v (omega (arith, cap, length-take n buf)) in
        let s' : SockBase = record s { rcv_dummy = none; rdlen = 0 } in
        let (p, g, k) =
          ih s'
            (record { empty = refl; room = idle.room; at = refl; short = omega arith; kept = refl })
            (omega (arith, length-drop n buf, (chk_header_bounds (decode_header buf) good).0)) in
        (
          sent_first (flip c' ∷ []) p,
          next_loop_step alloc allocates fuel s buf (omega arith)
              ∙ ap (λ r. r >>= (λ r. go_on alloc r (next_loop alloc fuel)))
                  (round_whole alloc allocates s n buf long e (new_left c v ∙ ap pos cap) fits f)
              ∙ ap (Option.map (sent_first (flip c' ∷ []))) g,
          Cuts-cons (take n buf) c' (take-IsMessage buf long good fits)
              (sym (take-append-drop n buf))
              (flip-Filled v' (omega (arith, cap', cap, length-take n buf))) k,
        )

  pub loop : (fuel : ℕ) (buf : List ℕ) → LoopCuts fuel buf
  loop zero buf = λ s idle enough. absurd (omega arith)
  loop (suc fuel) [] = λ s idle enough. (
    finished s ok,
    next_loop_end alloc allocates (suc fuel) s (omega arith),
    record {
      ms = [];
      rest = [];
      frames = partial (in_header (omega arith));
      sent = refl;
      holds = λ _. header idle;
    },
  )
  loop (suc fuel) (x ∷ xs) =
      let buf = x ∷ xs in
      elim (dec_lt (length buf) 20) [
        | yes short ↦ loop_short fuel buf (omega arith) short
        | no long ↦ elim (Bool-cases (chk_header (decode_header buf))) [
          | inr wrong ↦ loop_bad fuel buf (omega arith) wrong
          | inl good ↦ elim (dec_lt (length buf) (decode_header buf).size) [
            | yes lacks ↦ loop_part buf (omega arith) good fuel lacks
            | no fits ↦
                loop_whole buf (omega arith) good fuel (omega arith)
                  (loop fuel (drop (decode_header buf).size buf))
          ]
        ]
      ]
