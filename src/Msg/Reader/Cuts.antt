-- ===== src/Msg/Reader/Cuts.antt =====
-- What a call of MsgReader::parse of sockobj.cpp is to leave, and the buffers that it dispatches.
use high_perf_server.Base.{
  ℕ, ◌-◌, ◌≤◌, ◌≡◌, sym, ap, ap₂, ◌∙◌, true, none, some, List, [], ◌∷◌, ◌++◌, map, arith, length,
  take, drop, length-take, take-append-drop, take_all,
}
use high_perf_server.Base.Int.{pos}
use high_perf_server.Msg.Cache.{Cache, append, flip, left}
use high_perf_server.Msg.Header.{decode_header, chk_header, chk_header_bounds}
use high_perf_server.Msg.Reader.Codes.{ok}
use high_perf_server.Msg.Reader.Spec.{IsMessage, Frames, whole, decode_header-append}
use high_perf_server.Msg.Reader.State.{Filled, Holds}
use high_perf_server.Msg.Reader.{SockBase, Parsed, sent_first, dispatch, append_dummy}

-- A message as the director gets it: the buffer is flipped, and holds the bytes of the message.
abbrev pub delivered : List ℕ → Cache
delivered m = record { capacity = length m; size = length m; pos = 0; bytes = m }

-- The stream `bs` has been cut: the whole messages are sent, and the socket holds what is left.
pub record Cuts (bs : List ℕ) (p : Parsed) : Type 0 where
  pub ms : List (List ℕ)
  pub rest : List ℕ
  pub frames : Frames bs ms rest p.code
  pub sent : p.sent ≡ map delivered ms
  pub holds : p.code ≡ ok → Holds p.sock rest

-- A full buffer is dispatched as its message.
pub flip-Filled :
    {c : Cache} {m : List ℕ} → Filled c m → length m ≡ c.capacity → flip c ≡ delivered m
unfolding flip
flip-Filled {c} {m} v e = cc (v.at, e, whole_bytes)
  where
    whole_bytes : c.bytes ≡ m
    whole_bytes = sym (take_all c.pos c.bytes (omega (arith, v.full, v.at))) ∙ v.kept

pub dispatch_lem :
    (s : SockBase) {c : Cache}
    → s.rcv_dummy ≡ some c
    → dispatch s ≡ (record s { rcv_dummy = none; rdlen = 0 }, flip c ∷ [])
unfolding dispatch
dispatch_lem s e = ground (arith, e)

pub append_dummy_lem :
    (s : SockBase) {c c' : Cache} (buf : List ℕ)
    → s.rcv_dummy ≡ some c
    → append c buf ≡ some c'
    → append_dummy s buf ≡ some (record s { rcv_dummy = some c' })
unfolding append_dummy
append_dummy_lem s buf e f = ground (arith, e, f)

pub left_lem : (c : Cache) → c.pos ≤ c.capacity → left c ≡ pos (c.capacity - c.pos)
unfolding left
left_lem c h = ground arith

-- A new message has room for its capacity.
pub new_left : (c : Cache) → Filled c [] → left c ≡ pos c.capacity
new_left c v = left_lem c (omega (arith, v.at)) ∙ ap pos (omega (arith, v.at))

-- The first `size` bytes of a stream that holds them are a message.
pub take-IsMessage :
    (buf : List ℕ)
    → 20 ≤ length buf
    → chk_header (decode_header buf) ≡ true
    → (decode_header buf).size ≤ length buf
    → IsMessage (take (decode_header buf).size buf)
take-IsMessage buf long good fits = record { good = rw same good; sized = len ∙ rw same }
  where
    m : List ℕ
    m = take (decode_header buf).size buf

    len : length m ≡ (decode_header buf).size
    len = omega (arith, length-take (decode_header buf).size buf)

    same : decode_header m ≡ decode_header buf
    same =
        sym (
          decode_header-append m (drop (decode_header buf).size buf)
            (omega (arith, len, chk_header_bounds (decode_header buf) good)))
        ∙ ap decode_header (take-append-drop (decode_header buf).size buf)

-- A message that is dispatched before the rest of the stream is cut.
pub Cuts-cons :
    {bs r : List ℕ} {p : Parsed} (m : List ℕ) (c : Cache)
    → IsMessage m
    → bs ≡ m ++ r
    → flip c ≡ delivered m
    → Cuts r p
    → Cuts bs (sent_first (flip c ∷ []) p)
Cuts-cons m c v e f k = record {
  ms = m ∷ k.ms;
  rest = k.rest;
  frames = whole m v e k.frames;
  sent = ap₂ ◌∷◌ f k.sent;
  holds = k.holds;
}
