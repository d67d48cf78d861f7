-- ===== src/Sock/Address.antt =====
-- The addresses of sockutil.cpp, and Parser::parseAddr of config.cpp. inet_pton and inet_ntop, which
-- read and print the address of a host, are parameters.
use high_perf_server.Base.{
  ℕ, ◌+◌, ◌-◌, ◌*◌, ◌/◌, ◌%◌, ◌<◌, ◌≡◌, refl, ap, Bool, true, false, ◌&&◌, Option, none, some, List,
  [], ◌∷◌, ◌==◌, ltb, if◌then◌else◌, take, arith, ltb→lt,
}
use mathlib.Core.Path.{subst}
use high_perf_server.Base.Int.{ℤ, pos, negsuc}
use high_perf_server.Base.Partial.{◌>>=◌, >>=-eq-some}
use high_perf_server.Config.{Text}
use high_perf_server.Config.Text.{c_string}
use high_perf_server.Config.Global.{atoi}

abbrev pub af_inet : ℕ
af_inet = 2

abbrev pub def_ip_size : ℕ
def_ip_size = 32

-- htons and ntohs on a little-endian host.
unfoldable pub swap_bytes : ℕ → ℕ
swap_bytes n = n % 256 * 256 + n / 256

-- sockaddr_in. The address of a host is 4 bytes.
pub record SockAddr : Type 0 where
  pub sin_family : ℕ
  pub sin_port : ℕ
  pub sin_addr : List ℕ

pub record TcpParam : Type 0 where
  pub ip : Text
  pub port : ℤ
  pub addr : SockAddr

-- The address of the host a and a port.
abbrev pub addr_of : ℕ → List ℕ → SockAddr
addr_of port a = record { sin_family = af_inet; sin_port = swap_bytes (port % 65536); sin_addr = a }

module _ (inet_ntop : List ℕ → Option Text) where
  -- parseAddr of sockutil.cpp: the host and the port.
  unfoldable pub parse_addr : SockAddr → Option (Text × ℕ)
  parse_addr src = inet_ntop src.sin_addr >>= (λ ip. some (ip, swap_bytes src.sin_port))

  -- getPeerInfo, with what getpeername gives.
  unfoldable pub get_peer_info : Option SockAddr → Option (Text × ℕ)
  get_peer_info name = name >>= parse_addr

  -- getLocalInfo, with what getsockname gives.
  unfoldable pub get_local_info : Option SockAddr → Option (Text × ℕ)
  get_local_info name = name >>= parse_addr

-- The text before and behind the last colon (strrchr).
abbrev pub last_colon : Text → Option (Text × Text)
last_colon [] = none
last_colon (c ∷ cs) = elim (last_colon cs) [
  | some parts ↦ some (c ∷ (parts.0), parts.1)
  | none ↦ if c == 58 then some ([], cs) else none
]

module _ (inet_pton : Text → Option (List ℕ)) where
  -- creatAddr: the address, or none for -1.
  unfoldable pub creat_addr : Text → ℤ → Option SockAddr
  creat_addr ip (pos port) =
      if ltb 0 port && ltb port 65536 then (inet_pton ip >>= (λ a. some (addr_of port a))) else none
  creat_addr ip (negsuc n) = none

  -- buildParam; strncpy takes as much as fits into `m_ip`.
  unfoldable pub build_param : Text → ℤ → Option TcpParam
  build_param ip port =
      let m_ip = take (def_ip_size - 1) (c_string ip) in
      creat_addr m_ip port >>= (λ a. some (record { ip = m_ip; port = port; addr = a }))

  -- Parser::parseAddr.
  unfoldable pub parse_url : Text → Option TcpParam
  parse_url url = last_colon url >>= (λ parts. build_param (parts.0) (atoi (parts.1)))

swap_twice : (n : ℕ) → n < 65536 → swap_bytes (swap_bytes (n % 65536)) ≡ n
unfolding swap_bytes
swap_twice n h = omega arith

and_both : (a b : Bool) → (a && b) ≡ true → (a ≡ true) × (b ≡ true)
and_both true b h = (refl, h)
and_both false b h = cc

guarded :
    {A : Type 0} (b : Bool) (o : Option A) (x : A)
    → (if b then o else none) ≡ some x
    → (b ≡ true) × (o ≡ some x)
guarded true o x h = (refl, h)
guarded false o x h = cc

-- An address has a port from 1 to 65535, and parseAddr gives back the host and the port that it was
-- made of. It holds where inet_ntop prints the host as it was written.
pub creat_addr-parse_addr :
    (inet_pton : Text → Option (List ℕ)) (inet_ntop : List ℕ → Option Text)
    → (ip : Text) (port : ℤ) (addr : SockAddr)
    → ((a : List ℕ) → inet_pton ip ≡ some a → inet_ntop a ≡ some ip)
    → creat_addr inet_pton ip port ≡ some addr
    → (p : ℕ) × (port ≡ pos p) × (0 < p) × (p < 65536) × (parse_addr inet_ntop addr ≡ some (ip, p))
unfolding creat_addr parse_addr
creat_addr-parse_addr inet_pton inet_ntop ip (negsuc n) addr prints h = cc
creat_addr-parse_addr inet_pton inet_ntop ip (pos p) addr prints h =
    let (e, f) =
      guarded (ltb 0 p && ltb p 65536) (inet_pton ip >>= (λ a. some (addr_of p a))) addr h in
    let (above, below) = and_both (ltb 0 p) (ltb p 65536) e in
    let (a, g, k) = >>=-eq-some (inet_pton ip) (λ a. some (addr_of p a)) f in
    let q : addr_of p a ≡ addr = cc in
    let r = ltb→lt p 65536 below in
    (
      p,
      refl,
      ltb→lt 0 p above,
      r,
      subst (λ d. parse_addr inet_ntop d ≡ some (ip, p)) q
          (rw (prints a g) (ap (λ n. some (ip, n)) (swap_twice p r))),
    )
