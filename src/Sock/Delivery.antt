-- ===== src/Sock/Delivery.antt =====
-- What a connection gives the dealer of its byte stream (readNode of director.cpp and sockobj.cpp,
-- called again and again).
use mathlib.Core.Option
use high_perf_server.Base.{
  ℕ, ◌≡◌, refl, sym, ap, ◌∙◌, Bool, true, false, some, List, [], ◌∷◌, ◌++◌, map, arith, length,
  concat, All, append-nil, append_assoc,
}
use high_perf_server.Msg.Cache.{Cache, Alloc}
use high_perf_server.Msg.Reader.Codes.{Code, ok, bad_header, no_memory}
use high_perf_server.Msg.Reader.Spec.{Frames, IsMessage, Frames-unique, Frames-concat}
use high_perf_server.Msg.Reader.State.{Allocates, Holds, header}
use high_perf_server.Msg.Reader.Cuts.{delivered, Cuts}
use high_perf_server.Msg.Reader.Refines.{parse_lem}
use high_perf_server.Msg.Reader.{SockBase, parse}
use high_perf_server.Sock.Read.{
  Recv, RecvLen, got, nothing, eof, broken, Conn, Served, served_first, serve, new_conn,
}
use high_perf_server.Sock.Stream.{
  meaning, recv_tcp-meaning, stream_step, fails_step, stream, fails, is_error, Serves,
  Serves-append, Serves-end, Frames-append_bad, conn, serve_failed, serve_got, serve_nothing,
  serve_eof, serve_broken,
}

module _ (alloc : Alloc) (allocates : Allocates alloc) where
  abbrev Outcome : List ℕ → Conn → List Recv → Type 0
  Outcome bs c rs =
      (s : Served) × (serve alloc c rs ≡ some s) × Serves (bs ++ stream rs) (fails rs) s

  -- The rest of the answers, from any state of the socket.
  abbrev Later : List Recv → Type 0
  Later rs = (t : SockBase) (held : List ℕ) → Holds t held → Outcome held (conn t false) rs

  module _ (r : Recv) (rs : List Recv) (s : SockBase) (bs : List ℕ) where
    -- The stream and the failure of the answers, computed one step.
    step-Outcome :
        (st : List ℕ) (failure : Bool) (q : Served)
        → stream (r ∷ rs) ≡ st
        → fails (r ∷ rs) ≡ failure
        → serve alloc (conn s false) (r ∷ rs) ≡ some q
        → Serves (bs ++ st) failure q
        → Outcome bs (conn s false) (r ∷ rs)
    step-Outcome st failure q e f g v = (q, g, rw (e, f) v)

    stream_got : {buf : List ℕ} → meaning r ≡ got buf → stream (r ∷ rs) ≡ buf ++ stream rs
    unfolding stream stream_step
    stream_got e = rw e

    fails_got : {buf : List ℕ} → meaning r ≡ got buf → fails (r ∷ rs) ≡ fails rs
    unfolding fails fails_step
    fails_got e = rw e

    -- The chunk ends the connection: its messages up to the bad header have been sent.
    Outcome-bad :
        (buf : List ℕ) (s' : SockBase) (sent : List Cache) (code : Code)
        → is_error code ≡ true
        → meaning r ≡ got buf
        → parse alloc s buf ≡ some (record { sock = s'; sent = sent; code = code })
        → Cuts (bs ++ buf) (record { sock = s'; sent = sent; code = code })
        → Outcome bs (conn s false) (r ∷ rs)
    Outcome-bad buf s' sent code wrong e f v =
        step-Outcome (buf ++ stream rs) (fails rs)
          (record { conn = conn s' true; sent = sent ++ [] }) (stream_got e) (fails_got e)
          (serve_got alloc allocates r rs s buf s' sent code (recv_tcp-meaning r ∙ e) f
            ∙ rw wrong (ap (Option.map (served_first sent)) (serve_failed alloc allocates rs s')))
          (record {
            ms = v.ms;
            rest = v.rest ++ stream rs;
            code = code;
            frames =
                rw (← append_assoc bs buf (stream rs))
                  (Frames-append_bad (stream rs) wrong v.frames);
            sent = append-nil sent ∙ v.sent;
            error = rw wrong;
            holds = λ h. cc;
          })

    Outcome-got :
        (buf : List ℕ) (s' : SockBase) (sent : List Cache) (code : Code)
        → meaning r ≡ got buf
        → parse alloc s buf ≡ some (record { sock = s'; sent = sent; code = code })
        → Cuts (bs ++ buf) (record { sock = s'; sent = sent; code = code })
        → Later rs
        → Outcome bs (conn s false) (r ∷ rs)
    Outcome-got buf s' sent ok e f v later =
        let (q, g, w) = later s' v.rest (v.holds refl) in
        step-Outcome (buf ++ stream rs) (fails rs) (served_first sent q) (stream_got e)
          (fails_got e)
          (serve_got alloc allocates r rs s buf s' sent ok (recv_tcp-meaning r ∙ e) f
            ∙ ap (Option.map (served_first sent)) g)
          (rw (← append_assoc bs buf (stream rs))
            (Serves-append (stream rs) sent v.frames v.sent w))
    Outcome-got buf s' sent bad_header e f v later = Outcome-bad buf s' sent bad_header refl e f v
    Outcome-got buf s' sent no_memory e f v later = Outcome-bad buf s' sent no_memory refl e f v

  serve-Outcome :
      (rs : List Recv) (s : SockBase) (bs : List ℕ) → Holds s bs → Outcome bs (conn s false) rs
  unfolding serve stream fails stream_step fails_step
  serve-Outcome [] s bs h =
      (record { conn = conn s false; sent = [] }, refl, Serves-end s bs false h)
  serve-Outcome (r ∷ rs) s bs h = go (meaning r) refl (serve-Outcome rs)
    where
      go : (l : RecvLen) → meaning r ≡ l → Later rs → Outcome bs (conn s false) (r ∷ rs)
      go (got buf) e later =
          let (p, f, v) = parse_lem alloc allocates s bs buf h in
          Outcome-got r rs s bs buf p.sock p.sent p.code e f v later
      go nothing e later =
          let (q, g, w) = later s bs h in
          step-Outcome r rs s bs (stream rs) (fails rs) q (rw (e, stream_step)) (rw (e, fails_step))
            (serve_nothing alloc allocates r rs s (recv_tcp-meaning r ∙ e)
              ∙ ap (Option.map (served_first [])) g)
            w
      go eof e later =
          step-Outcome r rs s bs [] true (record { conn = conn s true; sent = [] })
            (rw (e, stream_step)) (rw (e, fails_step))
            (serve_eof alloc allocates r rs s (recv_tcp-meaning r ∙ e)
              ∙ ap (Option.map (served_first [])) (serve_failed alloc allocates rs s))
            (Serves-end s bs true h)
      go broken e later =
          step-Outcome r rs s bs [] true (record { conn = conn s true; sent = [] })
            (rw (e, stream_step)) (rw (e, fails_step))
            (serve_broken alloc allocates r rs s (recv_tcp-meaning r ∙ e)
              ∙ ap (Option.map (served_first [])) (serve_failed alloc allocates rs s))
            (Serves-end s bs true h)

new_conn-Holds : (hdr : List ℕ) → length hdr ≡ 20 → Holds (new_conn hdr).sock []
new_conn-Holds hdr h =
    header (record { empty = refl; room = h; at = refl; short = omega arith; kept = refl })

module _ (alloc : Alloc) (allocates : Allocates alloc) (hdr : List ℕ) (room : length hdr ≡ 20) where
  -- On a new connection, when allocations succeed, the calls of `readNode` for any answers of the
  -- kernel return without undefined behaviour. The messages that are sent on are the whole messages
  -- of the byte stream in their order, each with its own bytes, position 0 and its length for size.
  -- The connection is marked as failed exactly if the stream has a bad header at a message's start
  -- or an answer was an error or the end; otherwise it holds the bytes that are left over.
  pub serve-Serves :
      (rs : List Recv)
      → (s : Served) × (serve alloc (new_conn hdr) rs ≡ some s) × Serves (stream rs) (fails rs) s
  serve-Serves rs =
      serve-Outcome alloc allocates rs (new_conn hdr).sock [] (new_conn-Holds hdr room)

  -- On a new connection, when allocations succeed: if the byte stream is the messages `ms` one behind
  -- the other and no answer fails, exactly these
  -- messages are sent on, in order, and the connection is not marked as failed, however the kernel
  -- cuts the stream into answers.
  pub serve_messages :
      (rs : List Recv) (ms : List (List ℕ))
      → All IsMessage ms
      → stream rs ≡ concat ms
      → fails rs ≡ false
      → (s : Served) × (serve alloc (new_conn hdr) rs ≡ some s)
        × (s.sent ≡ map delivered ms)
        × (s.conn.rd_err ≡ false)
  serve_messages rs ms v e f =
      let (s, g, w) = serve-Serves rs in
      let whole : Frames (stream rs) ms [] ok = rw e (Frames-concat ms v) in
      let same = Frames-unique w.frames whole in
      (s, g, w.sent ∙ ap (map delivered) same.0, w.error ∙ rw (same.2, f))

  -- On a new connection, when allocations succeed: two lists of answers that carry the same bytes and both fail or both do not lead to the same
  -- messages and the same mark, however they are cut.
  pub serve_chunking :
      (rs rs' : List Recv) (s s' : Served)
      → stream rs ≡ stream rs'
      → fails rs ≡ fails rs'
      → serve alloc (new_conn hdr) rs ≡ some s
      → serve alloc (new_conn hdr) rs' ≡ some s'
      → (s.sent ≡ s'.sent) × (s.conn.rd_err ≡ s'.conn.rd_err)
  serve_chunking rs rs' s s' e f g g' =
      let (q, h, w) = serve-Serves rs in
      let (q', h', w') = serve-Serves rs' in
      let again : Frames (stream rs) w'.ms w'.rest w'.code = rw e w'.frames in
      let same = Frames-unique w.frames again in
      let first : s ≡ q = cc (sym g ∙ h) in
      let second : s' ≡ q' = cc (sym g' ∙ h') in
      (
        rw (first, second) (w.sent ∙ ap (map delivered) same.0 ∙ sym w'.sent),
        rw (first, second) (w.error ∙ rw (same.2, f, w'.error)),
      )
