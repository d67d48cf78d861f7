-- ===== src/Msg/Reader.antt =====
-- Class MsgReader of sockobj.cpp: the bytes that arrive on a socket are cut into messages.
-- `const Byte buf[]` with `len` is the list of the bytes that are left. `none` is undefined
-- behaviour: a copy out of bounds, a null pointer that is followed, or a loop that is cut off.
pub mod Codes
pub mod Spec
pub mod State
pub mod Cuts
pub mod Rounds
pub mod Loop
pub mod Body
pub mod Refines
use mathlib.Core.Option
use high_perf_server.Base.{
  ℕ, zero, suc, ◌+◌, ◌-◌, ◌<◌, true, false, Option, none, some, List, [], ◌∷◌, ◌++◌, length, take,
  drop, ltb, leb, if◌then◌else◌,
}
use high_perf_server.Base.Partial.{◌>>=◌}
use high_perf_server.Base.Int.{pos, pos_part, ltb_ℤ, leb_ℤ, to_int32}
use high_perf_server.Msg.Cache.{Cache, Alloc, overwrite, append, flip, left}
use high_perf_server.Msg.Header.{MsgHdr, def_msg_header_size, decode_header, chk_header, creat}
use Codes.{Code, ok, bad_header, no_memory}

-- struct SockBase of datatype.h; `hdr_buf` is the union of `m_hdr` and `m_buf`. The address of the
-- peer is not part of the parser's state.
pub record SockBase : Type 0 where
  pub rcv_dummy : Option Cache
  pub rdlen : ℕ
  pub hdr_buf : List ℕ

-- What a call of `parse` leaves: the socket, the messages given to the director, and the code.
pub record Parsed : Type 0 where
  pub sock : SockBase
  pub sent : List Cache
  pub code : Code

-- One round of the loop of `parseNextBody`: it goes on with the rest of the bytes, or returns.
pub data Round : Type 0 where
  again : SockBase → List Cache → List ℕ → Round
  stop : SockBase → Code → Round

abbrev pub finished : SockBase → Code → Parsed
finished sock code = record { sock = sock; sent = []; code = code }

abbrev pub sent_first : List Cache → Parsed → Parsed
sent_first sent p = record p { sent = sent ++ p.sent }

unfoldable pub dispatch : SockBase → SockBase × List Cache
dispatch sock = elim sock.rcv_dummy [
  | none ↦ (sock, [])
  | some msg ↦ (record sock { rcv_dummy = none; rdlen = 0 }, flip msg ∷ [])
]

-- CacheCenter::append on the message that is being received.
unfoldable pub append_dummy : SockBase → List ℕ → Option SockBase
append_dummy sock buf = do
  msg ← sock.rcv_dummy
  msg' ← append msg buf
  some (record sock { rcv_dummy = some msg' })

module _ (alloc : Alloc) where
  unfoldable pub parse_header : SockBase → MsgHdr → Option (SockBase × Code)
  parse_header sock hdr =
      if chk_header hdr
      then creat alloc (pos_part (to_int32 hdr.size)) >>= (λ m. some (elim m [
        | none ↦ (sock, no_memory)
        | some msg ↦ (record sock { rcv_dummy = some msg }, ok)
      ]))
      else some (sock, bad_header)

  -- The loop's body behind a good header.
  unfoldable pub round_body : SockBase → List ℕ → Option Round
  round_body sock buf = do
    msg ← sock.rcv_dummy
    let n = pos_part (left msg)
    if leb_ℤ (left msg) (pos (length buf))
        then append_dummy sock (take n buf)
          >>= (λ s. let (s', sent) = dispatch s in some (again s' sent (drop n buf)))
        else append_dummy sock buf
          >>= (λ s. some (again (record s { rdlen = def_msg_header_size }) [] []))

  abbrev pub after_header : SockBase × Code → (SockBase → Option Round) → Option Round
  after_header (sock, ok) k = k sock
  after_header (sock, code) k = some (stop sock code)

  unfoldable pub next_round : SockBase → List ℕ → Option Round
  next_round sock buf =
      if leb def_msg_header_size (length buf)
      then parse_header sock (decode_header buf) >>= (λ r. after_header r (λ s. round_body s buf))
      else overwrite sock.hdr_buf 0 buf
        >>= (λ b. some (again (record sock { hdr_buf = b; rdlen = length buf }) [] []))

  abbrev pub go_on : Round → (SockBase → List ℕ → Option Parsed) → Option Parsed
  go_on (stop sock code) k = some (finished sock code)
  go_on (again sock sent rest) k = Option.map (sent_first sent) (k sock rest)

  unfoldable pub next_loop : ℕ → SockBase → List ℕ → Option Parsed
  next_loop zero sock buf = none
  next_loop (suc fuel) sock buf = elim (ltb 0 (length buf)) [
    | true ↦ next_round sock buf >>= (λ r. go_on r (next_loop fuel))
    | false ↦ some (finished sock ok)
  ]

  -- A round takes at least one byte away.
  unfoldable pub parse_next_body : SockBase → List ℕ → Option Parsed
  parse_next_body sock buf = next_loop (suc (length buf)) sock buf

  unfoldable pub deliver : SockBase → List ℕ → Option Parsed
  deliver sock buf =
      let (s, sent) = dispatch sock in Option.map (sent_first sent) (parse_next_body s buf)

  unfoldable pub parse_body : SockBase → List ℕ → Option Parsed
  parse_body sock buf = do
    msg ← sock.rcv_dummy
    let n = pos_part (left msg)
    if ltb_ℤ (pos 0) (left msg)
        then (if leb_ℤ (left msg) (pos (length buf))
            then append_dummy sock (take n buf) >>= (λ s. deliver s (drop n buf))
            else append_dummy sock buf >>= (λ s. some (finished s ok)))
        else deliver sock buf

  abbrev pub or_return : SockBase × Code → (SockBase → Option Parsed) → Option Parsed
  or_return (sock, ok) k = k sock
  or_return (sock, code) k = some (finished sock code)

  -- The header was cut off by the end of an earlier read.
  unfoldable pub resume_header : SockBase → List ℕ → Option Parsed
  resume_header sock buf =
      let n = def_msg_header_size - sock.rdlen in
      if leb n (length buf)
      then overwrite sock.hdr_buf sock.rdlen (take n buf) >>= (λ b.
        parse_header (record sock { hdr_buf = b; rdlen = sock.rdlen + n }) (decode_header b)
        >>= (λ r. or_return r (λ s.
            append_dummy s (take def_msg_header_size s.hdr_buf)
            >>= (λ s'. parse_body s' (drop n buf)))))
      else overwrite sock.hdr_buf sock.rdlen buf
        >>= (λ b. some (finished (record sock { hdr_buf = b; rdlen = sock.rdlen + length buf }) ok))

  unfoldable pub parse : SockBase → List ℕ → Option Parsed
  parse sock buf =
      if ltb sock.rdlen def_msg_header_size then resume_header sock buf else parse_body sock buf
