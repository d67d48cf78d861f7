-- ===== src/Sock/Stream.antt =====
-- The byte stream of a connection, and one call of readNode (director.cpp, sockobj.cpp) on each kind
-- of answer.
use mathlib.Core.Option
use high_perf_server.Base.{
  ℕ, ◌≡◌, refl, sym, ap, ap₂, ◌∙◌, Bool, true, false, ◌||◌, some, List, [], ◌∷◌, ◌++◌, map, arith,
  append-nil, append_assoc, map-append, length-append,
}
use high_perf_server.Msg.Cache.{Cache, Alloc}
use high_perf_server.Msg.Reader.Codes.{Code, ok, bad_header, no_memory}
use high_perf_server.Msg.Reader.Spec.{
  Frames, partial, bad, whole, IsPartial, in_header, in_body, Frames-append, decode_header-append,
}
use high_perf_server.Msg.Reader.State.{Allocates, Holds, header, body}
use high_perf_server.Msg.Reader.Cuts.{delivered}
use high_perf_server.Msg.Reader.{SockBase, parse}
use high_perf_server.Sock.Read.{
  Recv, received, failed, eagain, eintr, other, RecvLen, got, nothing, eof, broken, recv_tcp, Conn,
  Served, served_first, read, comm_read_node, read_node, serve,
}

-- What recv(2) says by an answer: bytes of the stream, its end, nothing yet, or an error.
unfoldable pub meaning : Recv → RecvLen
meaning (received []) = eof
meaning (received (b ∷ bs)) = got (b ∷ bs)
meaning (failed eagain) = nothing
meaning (failed eintr) = nothing
meaning (failed other) = broken

pub recv_tcp-meaning : (r : Recv) → recv_tcp r ≡ meaning r
unfolding recv_tcp meaning
recv_tcp-meaning (received []) = refl
recv_tcp-meaning (received (b ∷ bs)) = ground arith
recv_tcp-meaning (failed eagain) = refl
recv_tcp-meaning (failed eintr) = refl
recv_tcp-meaning (failed other) = refl

-- The stream that a list of answers carries, up to the first failure, and whether there is one.
unfoldable pub stream_step : RecvLen → List ℕ → List ℕ
stream_step (got buf) rest = buf ++ rest
stream_step nothing rest = rest
stream_step eof rest = []
stream_step broken rest = []

unfoldable pub stream : List Recv → List ℕ
stream [] = []
stream (r ∷ rs) = stream_step (meaning r) (stream rs)

unfoldable pub fails_step : RecvLen → Bool → Bool
fails_step (got buf) rest = rest
fails_step nothing rest = rest
fails_step eof rest = true
fails_step broken rest = true

unfoldable pub fails : List Recv → Bool
fails [] = false
fails (r ∷ rs) = fails_step (meaning r) (fails rs)

abbrev pub is_error : Code → Bool
is_error ok = false
is_error bad_header = true
is_error no_memory = true

-- What the connection is to do with the stream `bs`, when some answers failed or none.
pub record Serves (bs : List ℕ) (failure : Bool) (s : Served) : Type 0 where
  pub ms : List (List ℕ)
  pub rest : List ℕ
  pub code : Code
  pub frames : Frames bs ms rest code
  pub sent : s.sent ≡ map delivered ms
  pub error : s.conn.rd_err ≡ (is_error code || failure)
  pub holds : s.conn.rd_err ≡ false → Holds s.conn.sock rest

-- Behind a bad header nothing is cut.
pub Frames-append_bad :
    {bs : List ℕ} {ms : List (List ℕ)} {rest : List ℕ} {code : Code} (more : List ℕ)
    → is_error code ≡ true
    → Frames bs ms rest code
    → Frames (bs ++ more) ms (rest ++ more) code
Frames-append_bad more e (partial p) = cc
Frames-append_bad more e (bad {bs = bs} long wrong) =
    bad (omega (arith, length-append bs more)) (rw (decode_header-append bs more long) wrong)
Frames-append_bad more e (whole {r = r} m v eq f) =
    whole m v (ap (λ t. t ++ more) eq ∙ append_assoc m r more) (Frames-append_bad more e f)

abbrev pub conn : SockBase → Bool → Conn
conn s failure = record { sock = s; rd_err = failure }

-- The start of the stream is cut with no error, and the connection goes on behind it.
pub Serves-append :
    {bs : List ℕ} (more : List ℕ) {ms : List (List ℕ)} {rest : List ℕ} {failure : Bool}
    (sent : List Cache) {s : Served}
    → Frames bs ms rest ok
    → sent ≡ map delivered ms
    → Serves (rest ++ more) failure s
    → Serves (bs ++ more) failure (served_first sent s)
Serves-append more {ms = ms} sent f e v = record {
  ms = ms ++ v.ms;
  rest = v.rest;
  code = v.code;
  frames = Frames-append more f v.frames;
  sent = ap₂ ◌++◌ e v.sent ∙ sym (map-append delivered ms v.ms);
  error = v.error;
  holds = v.holds;
}

pub Holds-IsPartial : {s : SockBase} {bs : List ℕ} → Holds s bs → IsPartial bs
Holds-IsPartial (header v) = in_header v.short
Holds-IsPartial (body v) = in_body v.long v.good (omega (arith, v.short, v.sized))

-- Nothing more is read.
pub Serves-end :
    (s : SockBase) (bs : List ℕ) (failure : Bool)
    → Holds s bs
    → Serves (bs ++ []) failure (record { conn = conn s failure; sent = [] })
Serves-end s bs failure h = record {
  ms = [];
  rest = bs;
  code = ok;
  frames = rw (append-nil bs) (partial (Holds-IsPartial h));
  sent = refl;
  error = refl;
  holds = λ _. h;
}

module _ (alloc : Alloc) (allocates : Allocates alloc) where
  -- A connection that has failed stays as it is.
  pub serve_failed :
      (rs : List Recv) (s : SockBase)
      → serve alloc (conn s true) rs ≡ some (record { conn = conn s true; sent = [] })
  unfolding serve read_node
  serve_failed [] s = refl
  serve_failed (r ∷ rs) s = ap (Option.map (served_first [])) (serve_failed rs s)

  module _ (r : Recv) (rs : List Recv) (s : SockBase) where
    pub serve_got :
        (buf : List ℕ) (s' : SockBase) (sent : List Cache) (code : Code)
        → recv_tcp r ≡ got buf
        → parse alloc s buf ≡ some (record { sock = s'; sent = sent; code = code })
        → serve alloc (conn s false) (r ∷ rs)
          ≡ Option.map (served_first sent) (serve alloc (conn s' (is_error code)) rs)
    unfolding serve read_node comm_read_node read
    serve_got buf s' sent ok e f = rw (e, f, read)
    serve_got buf s' sent bad_header e f = rw (e, f, read)
    serve_got buf s' sent no_memory e f = rw (e, f, read)

    pub serve_nothing :
        recv_tcp r ≡ nothing
        → serve alloc (conn s false) (r ∷ rs)
          ≡ Option.map (served_first []) (serve alloc (conn s false) rs)
    unfolding serve read_node comm_read_node read
    serve_nothing e = rw (e, read)

    pub serve_eof :
        recv_tcp r ≡ eof
        → serve alloc (conn s false) (r ∷ rs)
          ≡ Option.map (served_first []) (serve alloc (conn s true) rs)
    unfolding serve read_node comm_read_node read
    serve_eof e = rw (e, read)

    pub serve_broken :
        recv_tcp r ≡ broken
        → serve alloc (conn s false) (r ∷ rs)
          ≡ Option.map (served_first []) (serve alloc (conn s true) rs)
    unfolding serve read_node comm_read_node read
    serve_broken e = rw (e, read)
