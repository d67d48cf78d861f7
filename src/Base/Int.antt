-- ===== src/Base/Int.antt =====
-- Signed integers over the native numbers, as far as the 32-bit `int` of the code needs them.
use high_perf_server.Base.Tests.{ltb, leb, if◌then◌else◌}
use Prim.Native.Nat.{ℕ, suc, ◌+◌, ◌-◌, ◌^◌, ◌≤◌, ◌<◌}
use mathlib.Core.Path.{◌≡◌}
use mathlib.Core.Bool.{Bool, true, false}
use native.Mathlib.Omega.{arith}

-- `negsuc n` is -(n + 1).
pub data ℤ : Type 0 where
  pos : ℕ → ℤ
  negsuc : ℕ → ℤ

abbrev pub pos_part : ℤ → ℕ
pos_part (pos n) = n
pos_part (negsuc n) = 0

abbrev pub neg_part : ℤ → ℕ
neg_part (pos n) = 0
neg_part (negsuc n) = suc n

abbrev pub ltb_ℤ : ℤ → ℤ → Bool
ltb_ℤ a b = ltb (pos_part a + neg_part b) (pos_part b + neg_part a)

-- The bits of a 32-bit word read as an `int`.
abbrev pub to_int32 : ℕ → ℤ
to_int32 u = if ltb u (2 ^ 31) then pos u else negsuc (2 ^ 32 - 1 - u)

abbrev pub leb_ℤ : ℤ → ℤ → Bool
leb_ℤ a b = leb (pos_part a + neg_part b) (pos_part b + neg_part a)

-- a - b, as an integer.
abbrev pub sub_ℕ : ℕ → ℕ → ℤ
sub_ℕ a b = if leb b a then pos (a - b) else negsuc (b - a - 1)

-- The tests on two numbers are those of ℕ.
pub le→leb_pos : (a b : ℕ) → a ≤ b → leb (a + 0) (b + 0) ≡ true
le→leb_pos a b h = ground arith

pub lt→leb_pos : (a b : ℕ) → b < a → leb (a + 0) (b + 0) ≡ false
lt→leb_pos a b h = ground arith

pub lt→ltb_pos : (n : ℕ) → 0 < n → ltb (0 + 0) (n + 0) ≡ true
lt→ltb_pos n h = ground arith
