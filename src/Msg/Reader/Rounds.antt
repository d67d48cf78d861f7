-- ===== src/Msg/Reader/Rounds.antt =====
-- One round of the loop of MsgReader::parseNextBody of sockobj.cpp, on each of its branches.
use high_perf_server.Base.{
  ℕ, zero, suc, ◌≤◌, ◌<◌, ◌≡◌, refl, true, false, none, some, List, [], ◌∷◌, arith, length, take,
  drop, le→leb, leb-false, lt→ltb,
}
use high_perf_server.Base.Partial.{◌>>=◌}
use high_perf_server.Base.Int.{le→leb_pos, lt→leb_pos, pos}
use high_perf_server.Msg.Cache.{Cache, Alloc, overwrite, append, flip, left}
use high_perf_server.Msg.Header.{MsgHdr, decode_header, chk_header, creat, chk_header_bounds}
use high_perf_server.Msg.Reader.Codes.{ok, bad_header}
use high_perf_server.Msg.Reader.State.{Allocates, Filled, creat-Filled}
use high_perf_server.Msg.Reader.{
  SockBase, again, stop, finished, dispatch, append_dummy, parse_header, round_body, next_round,
  go_on, next_loop,
}

module _ (alloc : Alloc) (allocates : Allocates alloc) where
  pub parse_header_lem :
      (s : SockBase) (hdr : MsgHdr) {c : Cache}
      → chk_header hdr ≡ true
      → creat alloc hdr.size ≡ some (some c)
      → parse_header alloc s hdr ≡ some (record s { rcv_dummy = some c }, ok)
  unfolding parse_header
  parse_header_lem s hdr good e = rw (good, (chk_header_bounds hdr good).2, e)

  pub parse_header_good :
      (s : SockBase) (hdr : MsgHdr)
      → chk_header hdr ≡ true
      → (c : Cache) × (parse_header alloc s hdr ≡ some (record s { rcv_dummy = some c }, ok))
        × Filled c []
        × (c.capacity ≡ hdr.size)
  parse_header_good s hdr good =
      let (c, e, v, n) =
        creat-Filled alloc allocates hdr.size (omega (arith, (chk_header_bounds hdr good).0)) in
      (c, parse_header_lem s hdr good e, v, n)

  pub parse_header_bad :
      (s : SockBase) (hdr : MsgHdr)
      → chk_header hdr ≡ false
      → parse_header alloc s hdr ≡ some (s, bad_header)
  unfolding parse_header
  parse_header_bad s hdr wrong = rw wrong

  -- No bytes are left.
  pub next_loop_end :
      (fuel : ℕ) (s : SockBase) → 0 < fuel → next_loop alloc fuel s [] ≡ some (finished s ok)
  unfolding next_loop
  next_loop_end zero s h = absurd (omega arith)
  next_loop_end (suc fuel) s h = refl

  pub next_loop_step :
      (fuel : ℕ) (s : SockBase) (buf : List ℕ)
      → 0 < length buf
      → next_loop alloc (suc fuel) s buf
        ≡ (next_round alloc s buf >>= (λ r. go_on alloc r (next_loop alloc fuel)))
  unfolding next_loop
  next_loop_step fuel s buf h = rw (lt→ltb _ _ h, next_loop)

  -- The rest is less than a header: it is kept in the header's buffer.
  pub round_short :
      (s : SockBase) {b : List ℕ} (buf : List ℕ)
      → length buf < 20
      → overwrite s.hdr_buf 0 buf ≡ some b
      → next_round alloc s buf ≡ some (again (record s { hdr_buf = b; rdlen = length buf }) [] [])
  unfolding next_round
  round_short s buf h e = rw (leb-false _ _ h, e)

  pub round_bad :
      (s : SockBase) (buf : List ℕ)
      → 20 ≤ length buf
      → chk_header (decode_header buf) ≡ false
      → next_round alloc s buf ≡ some (stop s bad_header)
  unfolding next_round
  round_bad s buf h wrong = rw (le→leb _ _ h, parse_header_bad s (decode_header buf) wrong)

  -- A whole message is there: it is sent, and the loop goes on behind it.
  pub round_whole :
      (s : SockBase) {c c' : Cache} (n : ℕ) (buf : List ℕ)
      → 20 ≤ length buf
      → parse_header alloc s (decode_header buf) ≡ some (record s { rcv_dummy = some c }, ok)
      → left c ≡ pos n
      → n ≤ length buf
      → append c (take n buf) ≡ some c'
      → next_round alloc s buf
        ≡ some (again (record s { rcv_dummy = none; rdlen = 0 }) (flip c' ∷ []) (drop n buf))
  unfolding next_round round_body append_dummy dispatch
  round_whole s n buf h e l fits f = rw (le→leb _ _ h, e, l, le→leb_pos _ _ fits, f)

  -- The message is cut off: what there is of it is kept.
  pub round_part :
      (s : SockBase) {c c' : Cache} (n : ℕ) (buf : List ℕ)
      → 20 ≤ length buf
      → parse_header alloc s (decode_header buf) ≡ some (record s { rcv_dummy = some c }, ok)
      → left c ≡ pos n
      → length buf < n
      → append c buf ≡ some c'
      → next_round alloc s buf ≡ some (again (record s { rcv_dummy = some c'; rdlen = 20 }) [] [])
  unfolding next_round round_body append_dummy
  round_part s n buf h e l lacks f = rw (le→leb _ _ h, e, l, lt→leb_pos _ _ lacks, f)
