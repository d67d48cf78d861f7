-- ===== src/Tests/Reading.antt =====
-- Runs of the reader (sockobj.cpp), and its theorems at concrete streams.
use high_perf_server.Base.{
  ℕ, ◌≡◌, refl, false, none, some, List, [], ◌∷◌, ◌++◌, map, concat, replicate, take, drop,
  length-replicate,
}
use high_perf_server.Msg.Cache.{Alloc, overwrite, append, flip, left, prepend}
use high_perf_server.Msg.Header.{decode_header, chk_header, encode_header, creat}
use high_perf_server.Msg.Reader.Spec.{IsMessage}
use high_perf_server.Msg.Reader.State.{Allocates}
use high_perf_server.Msg.Reader.Cuts.{delivered}
use high_perf_server.Msg.Reader.{
  parse, parse_header, parse_body, resume_header, deliver, parse_next_body, next_loop, next_round,
  round_body, append_dummy, dispatch,
}
use high_perf_server.Sock.Read.{
  Recv, received, failed, eagain, recv_tcp, read, comm_read_node, read_node, serve, new_conn,
  Served,
}
use high_perf_server.Sock.Stream.{meaning, stream, fails, stream_step, fails_step, Serves}
use high_perf_server.Sock.Delivery.{serve-Serves, serve_messages, serve_chunking}

-- An allocator that gives bytes of value 7.
abbrev pub sevens : Alloc
sevens n = some (replicate n 7)

pub sevens-Allocates : Allocates sevens
sevens-Allocates n = (replicate n 7, refl, length-replicate n 7)

abbrev pub blank : List ℕ
blank = replicate 20 0

-- A message of 22 bytes.
abbrev pub hello : List ℕ
hello =
    22 ∷ 0 ∷ 0 ∷ 0 ∷ 1 ∷ 0 ∷ 0 ∷ 0 ∷ 0 ∷ 0 ∷ 0 ∷ 0 ∷ 0 ∷ 0 ∷ 0 ∷ 0 ∷ 0x14 ∷ 8 ∷ 103 ∷ 0 ∷ 65 ∷ 66
    ∷ []

pub hello-IsMessage : IsMessage hello
unfolding decode_header chk_header
hello-IsMessage = record { good = refl; sized = refl }

-- Two messages in three pieces, with a pause.
abbrev pub pieces : List Recv
pieces =
    received (take 7 hello)
    ∷ failed eagain
    ∷ received (drop 7 hello ++ take 21 hello)
    ∷ received (drop 21 hello)
    ∷ []

abbrev pub at_once : List Recv
at_once = received (hello ++ hello) ∷ []

pieces-stream : stream pieces ≡ concat (hello ∷ hello ∷ [])
unfolding stream stream_step meaning
pieces-stream = refl

pub at_once-stream : stream at_once ≡ concat (hello ∷ hello ∷ [])
unfolding stream stream_step meaning
at_once-stream = refl

pieces-fails : fails pieces ≡ false
unfolding fails fails_step meaning
pieces-fails = refl

pub at_once-fails : fails at_once ≡ false
unfolding fails fails_step meaning
at_once-fails = refl

serve_messages_example :
    (s : Served) × (serve sevens (new_conn blank) pieces ≡ some s)
    × (s.sent ≡ map delivered (hello ∷ hello ∷ []))
    × (s.conn.rd_err ≡ false)
serve_messages_example =
    serve_messages sevens sevens-Allocates blank refl pieces (hello ∷ hello ∷ [])
      (hello-IsMessage, (hello-IsMessage, tt)) pieces-stream pieces-fails

serve-Serves_example :
    (s : Served) × (serve sevens (new_conn blank) pieces ≡ some s)
    × Serves (stream pieces) (fails pieces) s
serve-Serves_example = serve-Serves sevens sevens-Allocates blank refl pieces

abbrev served : List Recv → Served
served rs = (serve-Serves sevens sevens-Allocates blank refl rs).0

serve_chunking_example :
    ((served pieces).sent ≡ (served at_once).sent)
    × ((served pieces).conn.rd_err ≡ (served at_once).conn.rd_err)
serve_chunking_example =
    serve_chunking sevens sevens-Allocates blank refl pieces at_once (served pieces)
      (served at_once) pieces_stream_same pieces_fails_same
      (serve-Serves sevens sevens-Allocates blank refl pieces).1
      (serve-Serves sevens sevens-Allocates blank refl at_once).1
  where
    pieces_stream_same : stream pieces ≡ stream at_once
    pieces_stream_same = rw (pieces-stream, at_once-stream)

    pieces_fails_same : fails pieces ≡ fails at_once
    pieces_fails_same = rw (pieces-fails, at_once-fails)

-- The run itself, with the buffers that the director gets.
pieces_run :
    serve sevens (new_conn blank) pieces
    ≡ some (record {
      conn = record {
        sock = record { rcv_dummy = none; rdlen = 0; hdr_buf = take 20 hello };
        rd_err = false;
      };
      sent = delivered hello ∷ delivered hello ∷ [];
    })
unfolding serve read_node comm_read_node read recv_tcp parse parse_header parse_body resume_header
    deliver parse_next_body next_loop next_round round_body append_dummy dispatch overwrite append
    flip left prepend decode_header chk_header encode_header creat
pieces_run = refl
