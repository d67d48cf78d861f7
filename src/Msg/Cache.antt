-- ===== src/Msg/Cache.antt =====
-- Class CacheCenter of msgcenter.cpp: a buffer of fixed capacity with a position and a size. The
-- address of the buffer is the value itself; a copy that leaves the allocated bytes is `none`.
use mathlib.Core.Option
use high_perf_server.Base.{
  ℕ, ◌+◌, Option, none, some, List, ◌++◌, length, take, drop, leb, if◌then◌else◌,
}
use high_perf_server.Base.Int.{ℤ, sub_ℕ}

-- struct CacheCenter::_internal, with the bytes behind it.
pub record Cache : Type 0 where
  pub capacity : ℕ
  pub size : ℕ
  pub pos : ℕ
  pub bytes : List ℕ

-- What `new Byte[n]` gives: `n` bytes of any content, or nothing.
abbrev pub Alloc : Type 0
Alloc = ℕ → Option (List ℕ)

-- memcpy of `src` to offset `at` of `bytes`.
unfoldable pub overwrite : List ℕ → ℕ → List ℕ → Option (List ℕ)
overwrite bytes at src =
    if leb (at + length src) (length bytes)
    then some (take at bytes ++ (src ++ drop (at + length src) bytes))
    else none

unfoldable pub prepend : Alloc → ℕ → Option Cache
prepend alloc capacity =
    Option.map (λ b. record { capacity = capacity; size = 0; pos = 0; bytes = b }) (alloc capacity)

unfoldable pub rewind : Cache → Cache
rewind c = record c { pos = 0; size = 0 }

unfoldable pub flip : Cache → Cache
flip c = record c { size = c.pos; pos = 0 }

unfoldable pub skip : Cache → ℕ → Cache
skip c n = record c { pos = c.pos + n }

unfoldable pub set : Cache → ℕ → Cache
set c n = record c { pos = n }

unfoldable pub left : Cache → ℤ
left c = sub_ℕ c.capacity c.pos

unfoldable pub remain : Cache → ℤ
remain c = sub_ℕ c.size c.pos

-- The bytes from the address that `buffer` returns on.
unfoldable pub buffer : Cache → List ℕ
buffer c = drop c.pos c.bytes

unfoldable pub append : Cache → List ℕ → Option Cache
append c buf =
    Option.map (λ b. record c { bytes = b; pos = c.pos + length buf }) (overwrite c.bytes c.pos buf)

unfoldable pub copy : Cache → List ℕ → Option Cache
copy c buf = Option.map (λ b. record c { bytes = b }) (overwrite c.bytes c.pos buf)
