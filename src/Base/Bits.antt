-- ===== src/Base/Bits.antt =====
-- The bits of a word, and what `|`, `&`, `^` and shifts do to them.
use Prim.Native.Nat.{
  ℕ, zero, suc, ◌+◌, ◌*◌, ◌/◌, ◌%◌, ◌^◌, ◌≤◌, ◌<◌, min, max, digits, bitwise, differ, bit_and,
  bit_or, bit_xor, bit_and-bitwise, bit_or-bitwise, bit_xor-bitwise,
}
use mathlib.Core.Path.{◌≡◌, refl, sym, ap, ◌∙◌}
use mathlib.Core.Logic.{◌≢◌}
use mathlib.Core.Bool.{Bool, true, ◌&&◌}
use native.Mathlib.Omega.{arith}
use native.Mathlib.Nat.{pow-suc}

-- Bit `i` of a number, 0 or 1.
unfoldable pub bit : ℕ → ℕ → ℕ
bit zero n = n % 2
bit (suc i) n = bit i (n / 2)

-- The recursion on digits that the operations stand for does not depend on its fuel.
module _ (z : ℕ → ℕ) (f : ℕ → ℕ → ℕ) where
  same_digits : (j k a b : ℕ) → a ≤ j → a ≤ k → digits z f j a b ≡ digits z f k a b
  same_digits j k zero b p q = at_zero j k
    where
      at_zero : (j k : ℕ) → digits z f j zero b ≡ digits z f k zero b
      at_zero zero zero = refl
      at_zero zero (suc k) = refl
      at_zero (suc j) zero = refl
      at_zero (suc j) (suc k) = refl
  same_digits zero k (suc a) b p q = absurd (omega arith)
  same_digits (suc j) zero (suc a) b p q = absurd (omega arith)
  same_digits (suc j) (suc k) (suc a) b p q =
      ap (λ (d : ℕ). d * 2 + f (suc a % 2) (b % 2))
        (same_digits j k (suc a / 2) (b / 2) (omega arith) (omega arith))

  low_digit :
      (a b : ℕ)
      → bitwise z f (suc a) b ≡ bitwise z f (suc a / 2) (b / 2) * 2 + f (suc a % 2) (b % 2)
  low_digit a b =
      ap (λ (d : ℕ). d * 2 + f (suc a % 2) (b % 2))
        (same_digits a (suc a / 2) (suc a / 2) (b / 2) (omega arith) (omega arith))

bit_xor_digit : (a b : ℕ) → bit_xor a b ≡ bit_xor (a / 2) (b / 2) * 2 + differ (a % 2) (b % 2)
bit_xor_digit zero b = simp bit_xor-bitwise (omega arith)
bit_xor_digit (suc a) b = simp bit_xor-bitwise (low_digit (λ y. y) differ a b)

bit_or_digit : (a b : ℕ) → bit_or a b ≡ bit_or (a / 2) (b / 2) * 2 + max (a % 2) (b % 2)
bit_or_digit zero b = simp bit_or-bitwise (omega arith)
bit_or_digit (suc a) b = simp bit_or-bitwise (low_digit (λ y. y) max a b)

bit_and_digit : (a b : ℕ) → bit_and a b ≡ bit_and (a / 2) (b / 2) * 2 + min (a % 2) (b % 2)
bit_and_digit zero b = simp bit_and-bitwise (omega arith)
bit_and_digit (suc a) b = simp bit_and-bitwise (low_digit (λ y. 0) min a b)

differ_digits : (x y : ℕ) → x < 2 → y < 2 → differ x y < 2
differ_digits zero y p q = q
differ_digits (suc x) zero p q = p
differ_digits (suc x) (suc y) p q = differ_digits x y (omega arith) (omega arith)

pub bit-le : (i n : ℕ) → bit i n ≤ 1
unfolding bit
bit-le zero n = omega arith
bit-le (suc i) n = bit-le i (n / 2)

pub bit-zero : (i : ℕ) → bit i 0 ≡ 0
unfolding bit
bit-zero zero = refl
bit-zero (suc i) = bit-zero i

pub bit-bit_or : (i a b : ℕ) → bit i (bit_or a b) ≡ max (bit i a) (bit i b)
unfolding bit
bit-bit_or zero a b = omega (arith, bit_or_digit a b)
bit-bit_or (suc i) a b = ap (bit i) (omega (arith, bit_or_digit a b)) ∙ bit-bit_or i (a / 2) (b / 2)

pub bit-bit_and : (i a b : ℕ) → bit i (bit_and a b) ≡ min (bit i a) (bit i b)
unfolding bit
bit-bit_and zero a b = omega (arith, bit_and_digit a b)
bit-bit_and (suc i) a b =
    ap (bit i) (omega (arith, bit_and_digit a b)) ∙ bit-bit_and i (a / 2) (b / 2)

pub bit-bit_xor : (i a b : ℕ) → bit i (bit_xor a b) ≡ differ (bit i a) (bit i b)
unfolding bit
bit-bit_xor zero a b =
    omega (arith, bit_xor_digit a b, differ_digits (a % 2) (b % 2) (omega arith) (omega arith))
bit-bit_xor (suc i) a b = ap (bit i) halves ∙ bit-bit_xor i (a / 2) (b / 2)
  where
    halves : bit_xor a b / 2 ≡ bit_xor (a / 2) (b / 2)
    halves =
        omega (arith, bit_xor_digit a b, differ_digits (a % 2) (b % 2) (omega arith) (omega arith))

-- A number is its bits.
pub bit_ext_fuel : (k a b : ℕ) → a + b ≤ k → ((i : ℕ) → bit i a ≡ bit i b) → a ≡ b
unfolding bit
bit_ext_fuel k zero zero h e = refl
bit_ext_fuel zero a b h e = omega arith
bit_ext_fuel (suc k) a b h e =
    omega (arith, e 0, bit_ext_fuel k (a / 2) (b / 2) (omega arith) (λ i. e (suc i)))

pub bit_ext : (a b : ℕ) → ((i : ℕ) → bit i a ≡ bit i b) → a ≡ b
bit_ext a b e = bit_ext_fuel (a + b) a b (omega arith) e

pub bit-pow_self : (k : ℕ) → bit k (2 ^ k) ≡ 1
unfolding bit
bit-pow_self zero = refl
bit-pow_self (suc k) = ap (bit k) (omega (arith, pow-suc 2 k)) ∙ bit-pow_self k

pub bit-pow_ne : (i k : ℕ) → i ≢ k → bit i (2 ^ k) ≡ 0
unfolding bit
bit-pow_ne zero zero h = absurd (h refl)
bit-pow_ne zero (suc k) h = omega (arith, pow-suc 2 k)
bit-pow_ne (suc i) zero h = bit-zero i
bit-pow_ne (suc i) (suc k) h =
    ap (bit i) (omega (arith, pow-suc 2 k)) ∙ bit-pow_ne i k (λ e. h (ap suc e))

-- Bit `i` of the upper half.
pub bit_half : (i n : ℕ) → bit i (n / 2 ^ 16) ≡ bit (i + 16) n
unfolding bit
bit_half i n = ap (bit i) sixteen ∙ ap (λ (k : ℕ). bit k n) (sym ups)
  where
    sixteen : n / 2 ^ 16 ≡ n / 2 / 2 / 2 / 2 / 2 / 2 / 2 / 2 / 2 / 2 / 2 / 2 / 2 / 2 / 2 / 2
    sixteen = omega arith

    ups :
        i + 16
        ≡ suc (
            suc
              (suc (suc (suc (suc (suc (suc (suc (suc (suc (suc (suc (suc (suc (suc i)))))))))))))))
    ups = omega arith

-- A test that is run on each of the first `n` numbers.
unfoldable pub passes : (ℕ → Bool) → ℕ → Bool
passes test zero = true
passes test (suc n) = passes test n && test n

pub passes_each : (test : ℕ → Bool) (n i : ℕ) → i < n → passes test n ≡ true → test i ≡ true
unfolding passes
passes_each test zero i below all = absurd (omega arith)
passes_each test (suc n) i below all = ground (arith, passes_each test n i)
