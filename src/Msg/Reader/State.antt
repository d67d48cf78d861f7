-- ===== src/Msg/Reader/State.antt =====
-- The state of a socket between two reads (sockobj.cpp, msgcenter.cpp): which bytes of a message
-- that is not yet whole it holds.
use high_perf_server.Base.{
  ℕ, ◌+◌, ◌≤◌, ◌<◌, ◌≡◌, refl, sym, ap, ◌∙◌, true, none, some, List, [], ◌++◌, arith, length, take,
  drop, length-append, length-take, length-drop, take-append_length, append_assoc, le→leb,
  take_cong,
}
use high_perf_server.Msg.Cache.{Cache, Alloc, overwrite, append, prepend}
use high_perf_server.Msg.Header.{MsgHdr, decode_header, chk_header, creat, encode_header, fresh}
use high_perf_server.Msg.Reader.{SockBase}

-- `new` gives as many bytes as are asked for, and does not fail.
abbrev pub Allocates : Alloc → Type 0
Allocates alloc = (n : ℕ) → (b : List ℕ) × (alloc n ≡ some b) × (length b ≡ n)

-- The bytes `bs` have been appended to the buffer.
pub record Filled (c : Cache) (bs : List ℕ) : Type 0 where
  pub full : length c.bytes ≡ c.capacity
  pub at : c.pos ≡ length bs
  pub kept : take c.pos c.bytes ≡ bs

pub overwrite_fits :
    (bytes : List ℕ) (at : ℕ) (src : List ℕ)
    → at + length src ≤ length bytes
    → overwrite bytes at src ≡ some (take at bytes ++ (src ++ drop (at + length src) bytes))
unfolding overwrite
overwrite_fits bytes at src h = rw (le→leb _ _ h)

length-overwritten :
    (bytes : List ℕ) (at : ℕ) (src : List ℕ)
    → at + length src ≤ length bytes
    → length (take at bytes ++ (src ++ drop (at + length src) bytes)) ≡ length bytes
length-overwritten bytes at src h = omega (
  arith,
  length-append (take at bytes) (src ++ drop (at + length src) bytes),
  length-append src (drop (at + length src) bytes),
  length-take at bytes,
  length-drop (at + length src) bytes,
)

take-overwritten :
    (bytes : List ℕ) (at : ℕ) (src bs : List ℕ)
    → take at bytes ≡ bs
    → at ≡ length bs
    → take (at + length src) (take at bytes ++ (src ++ drop (at + length src) bytes)) ≡ bs ++ src
take-overwritten bytes at src bs h e =
    take_cong _ (omega (arith, length-append bs src))
    ∙ ap (take (length (bs ++ src))) (
        ap (λ t. t ++ (src ++ drop (at + length src) bytes)) h
        ∙ sym (append_assoc bs src (drop (at + length src) bytes)))
    ∙ take-append_length (bs ++ src) (drop (at + length src) bytes)

-- The bytes of `src` behind the `at` bytes that are there already.
pub overwrite_lem :
    (bytes : List ℕ) (at : ℕ) (src bs : List ℕ)
    → at + length src ≤ length bytes
    → take at bytes ≡ bs
    → at ≡ length bs
    → (b : List ℕ) × (overwrite bytes at src ≡ some b)
      × (length b ≡ length bytes)
      × (take (at + length src) b ≡ bs ++ src)
overwrite_lem bytes at src bs h k e = (
  take at bytes ++ (src ++ drop (at + length src) bytes),
  overwrite_fits bytes at src h,
  length-overwritten bytes at src h,
  take-overwritten bytes at src bs k e,
)

-- `append` adds the bytes of `src` if the buffer has room for them.
pub append-Filled :
    {c : Cache} {bs : List ℕ} (src : List ℕ)
    → Filled c bs
    → length bs + length src ≤ c.capacity
    → (c' : Cache) × (append c src ≡ some c') × Filled c' (bs ++ src) × (c'.capacity ≡ c.capacity)
unfolding append
append-Filled {c} {bs} src v h =
    let (b, e, len, kept) = overwrite_lem c.bytes c.pos src bs (omega arith) v.kept v.at in
    (
      record c { bytes = b; pos = c.pos + length src },
      rw e,
      record { full = len ∙ v.full; at = omega (arith, length-append bs src); kept = kept },
      refl,
    )

length-encode_header : (h : MsgHdr) → length (encode_header h) ≡ 20
unfolding encode_header
length-encode_header h = omega arith

-- A new message has all its bytes, and none of them is filled.
pub creat-Filled :
    (alloc : Alloc)
    → Allocates alloc
    → (n : ℕ) → 20 ≤ n
    → (c : Cache) × (creat alloc n ≡ some (some c)) × Filled c [] × (c.capacity ≡ n)
unfolding creat prepend
creat-Filled alloc ok n h =
    let (b, e, len) = ok n in
    let (b', e', len', _) =
      overwrite_lem b 0 (encode_header (fresh n)) [] (omega (arith, length-encode_header (fresh n)))
        refl refl in
    (
      record { capacity = n; size = 0; pos = 0; bytes = b' },
      ground (arith, e, e'),
      record { full = len' ∙ len; at = refl; kept = refl },
      refl,
    )

-- Less than a header has arrived.
pub record InHeader (s : SockBase) (bs : List ℕ) : Type 0 where
  pub empty : s.rcv_dummy ≡ none
  pub room : length s.hdr_buf ≡ 20
  pub at : s.rdlen ≡ length bs
  pub short : length bs < 20
  pub kept : take s.rdlen s.hdr_buf ≡ bs

-- The header has arrived and is good, and the message is not whole.
pub record InBody (s : SockBase) (bs : List ℕ) : Type 0 where
  pub msg : Cache
  pub held : s.rcv_dummy ≡ some msg
  pub room : length s.hdr_buf ≡ 20
  pub after : s.rdlen ≡ 20
  pub filled : Filled msg bs
  pub long : 20 ≤ length bs
  pub good : chk_header (decode_header bs) ≡ true
  pub sized : msg.capacity ≡ (decode_header bs).size
  pub short : length bs < msg.capacity

pub data Holds (s : SockBase) (bs : List ℕ) : Type 0 where
  header : InHeader s bs → Holds s bs
  body : InBody s bs → Holds s bs
