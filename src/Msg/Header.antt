-- ===== src/Msg/Header.antt =====
-- struct MsgHdr of msgtype.h (packed, little-endian), MsgReader::chkHeader of sockobj.cpp and
-- MsgCenter::creat of msgcenter.cpp. A field holds the bits of its word.
use mathlib.Core.Option
use high_perf_server.Base.{
  ℕ, ◌+◌, ◌*◌, ◌/◌, ◌%◌, ◌^◌, ◌<◌, ◌≡◌, Bool, true, ◌&&◌, Option, none, some, List, [], ◌∷◌, ◌++◌,
  arith, get_or, take, ◌==◌, get_or-take,
}
use high_perf_server.Base.Int.{pos, ltb_ℤ, to_int32, pos_part}
use high_perf_server.Msg.Cache.{Cache, Alloc, prepend, overwrite}

pub record MsgHdr : Type 0 where
  pub size : ℕ  -- Int32
  pub seq : ℕ
  pub crc : ℕ
  pub retcode : ℕ
  pub version : ℕ
  pub cmd : ℕ

abbrev pub def_msg_ver : ℕ
def_msg_ver = 0x0814

abbrev pub def_msg_header_size : ℕ
def_msg_header_size = 20

abbrev pub max_msg_size : ℕ
max_msg_size = 0x500000

abbrev pub byte_at : List ℕ → ℕ → ℕ
byte_at bs i = get_or bs i 0

u16_at : List ℕ → ℕ → ℕ
u16_at bs i = byte_at bs i + byte_at bs (i + 1) * 2 ^ 8

u32_at : List ℕ → ℕ → ℕ
unfolding u16_at
u32_at bs i = u16_at bs i + u16_at bs (i + 2) * 2 ^ 16

-- `(const MsgHdr*)buf`
unfoldable pub decode_header : List ℕ → MsgHdr
unfolding u16_at u32_at
decode_header bs = record {
  size = u32_at bs 0;
  seq = u32_at bs 4;
  crc = u32_at bs 8;
  retcode = u32_at bs 12;
  version = u16_at bs 16;
  cmd = u16_at bs 18;
}

u16_bytes : ℕ → List ℕ
u16_bytes n = n % 2 ^ 8 ∷ n / 2 ^ 8 % 2 ^ 8 ∷ []

u32_bytes : ℕ → List ℕ
unfolding u16_bytes
u32_bytes n = u16_bytes (n % 2 ^ 16) ++ u16_bytes (n / 2 ^ 16)

-- The bytes that a header occupies in memory.
unfoldable pub encode_header : MsgHdr → List ℕ
unfolding u16_bytes u32_bytes
encode_header h =
    u32_bytes h.size
    ++ (u32_bytes h.seq
        ++ (u32_bytes h.crc ++ (u32_bytes h.retcode ++ (u16_bytes h.version ++ u16_bytes h.cmd))))

unfoldable pub chk_header : MsgHdr → Bool
chk_header hdr =
    ltb_ℤ (to_int32 hdr.size) (pos max_msg_size)
    && ltb_ℤ (pos def_msg_header_size) (to_int32 hdr.size)
    && (hdr.version == def_msg_ver)
    && (hdr.crc == 0)

-- The header that `creat` writes.
abbrev pub fresh : ℕ → MsgHdr
fresh size = record { size = size; seq = 0; crc = 0; retcode = 0; version = def_msg_ver; cmd = 0 }

-- MsgCenter::creat: the header is cleared and gets the version and the size. `some none` is the
-- null pointer of a failed allocation, `none` a header that leaves the allocated bytes.
unfoldable pub creat : Alloc → ℕ → Option (Option Cache)
creat alloc size = elim (prepend alloc size) [
  | none ↦ some none
  | some c ↦
      Option.map (λ b. some (record c { bytes = b }))
        (overwrite c.bytes 0 (encode_header (fresh size)))
]

pub decode_header-take : (bs : List ℕ) → decode_header (take 20 bs) ≡ decode_header bs
unfolding decode_header
decode_header-take bs = cc (
  at 0 (omega arith),
  at 1 (omega arith),
  at 2 (omega arith),
  at 3 (omega arith),
  at 4 (omega arith),
  at 5 (omega arith),
  at 6 (omega arith),
  at 7 (omega arith),
  at 8 (omega arith),
  at 9 (omega arith),
  at 10 (omega arith),
  at 11 (omega arith),
  at 12 (omega arith),
  at 13 (omega arith),
  at 14 (omega arith),
  at 15 (omega arith),
  at 16 (omega arith),
  at 17 (omega arith),
  at 18 (omega arith),
  at 19 (omega arith),
)
  where
    at : (i : ℕ) → i < 20 → byte_at (take 20 bs) i ≡ byte_at bs i
    at i h = get_or-take 20 i bs 0 h

-- A header that is written and read again is unchanged.
pub decode-encode :
    (h : MsgHdr) (rest : List ℕ)
    → h.size < 2 ^ 32
    → h.seq < 2 ^ 32
    → h.crc < 2 ^ 32
    → h.retcode < 2 ^ 32
    → h.version < 2 ^ 16
    → h.cmd < 2 ^ 16
    → decode_header (encode_header h ++ rest) ≡ h
unfolding decode_header encode_header
decode-encode h rest a b c d e f = ground arith

pub chk_header_bounds :
    (h : MsgHdr)
    → chk_header h ≡ true
    → (20 < h.size) × (h.size < max_msg_size) × (pos_part (to_int32 h.size) ≡ h.size)
unfolding chk_header
chk_header_bounds h e = ground arith
