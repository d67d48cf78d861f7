-- ===== src/Task/Door/Words.antt =====
-- What the operations of BitDoor (tasker.cpp) do to the bits of a word, and what they return.
use Prim.Native.Nat.{bit_and, differ}
use high_perf_server.Base.{
  ℕ, zero, suc, ◌+◌, ◌-◌, ◌^◌, ◌≤◌, ◌<◌, min, max, ◌≡◌, refl, ap, inl, inr, ◌↔◌, true, arith, ◌==◌,
  ==_iff, Bool-cases, if◌then◌else◌,
}
use high_perf_server.Base.Bits.{
  bit, bit-le, bit-bit_or, bit-bit_and, bit_ext, bit-pow_self, bit-pow_ne, passes, passes_each,
}
use high_perf_server.Task.Atomic.{add_bit}
use high_perf_server.Task.Door.{low_bits, high_bits, mask_bits}

abbrev pub low : ℕ → ℕ → ℕ
low i s = bit i s

abbrev pub high : ℕ → ℕ → ℕ
high i s = bit (i + 16) s

-- The task waits for event `i`, which has not arrived.
abbrev pub Awaits : ℕ → ℕ → Type 0
Awaits i s = (high i s ≡ 1) × (low i s ≡ 0)

low_table : passes (λ i. low_bits i == 2 ^ i) 16 ≡ true
unfolding passes low_bits
low_table = refl

high_table : passes (λ i. high_bits i == 2 ^ (i + 16)) 16 ≡ true
unfolding passes low_bits high_bits
high_table = refl

pub low_bits_lem : (i : ℕ) → i < 16 → low_bits i ≡ 2 ^ i
low_bits_lem i h = (==_iff _ _).0 (passes_each (λ j. low_bits j == 2 ^ j) 16 i h low_table)

pub high_bits_lem : (i : ℕ) → i < 16 → high_bits i ≡ 2 ^ (i + 16)
high_bits_lem i h =
    (==_iff _ _).0 (passes_each (λ j. high_bits j == 2 ^ (j + 16)) 16 i h high_table)

-- The bits of the tables.
pub bit-low_bits : (j i : ℕ) → i < 16 → bit j (low_bits i) ≡ (if j == i then 1 else 0)
bit-low_bits j i h = rw (low_bits_lem i h) (ground (arith, bit-pow_self i, bit-pow_ne j i))

pub bit-high_bits : (j i : ℕ) → i < 16 → bit j (high_bits i) ≡ (if j == i + 16 then 1 else 0)
bit-high_bits j i h =
    rw (high_bits_lem i h) (ground (arith, bit-pow_self (i + 16), bit-pow_ne j (i + 16)))

bit-mask_bits :
    (j i : ℕ)
    → i < 16
    → bit j (mask_bits i) ≡ max (if j == i then 1 else 0) (if j == i + 16 then 1 else 0)
unfolding mask_bits
bit-mask_bits j i h = rw (bit-bit_or, bit-low_bits j i h, bit-high_bits j i h)

pub old-add_bit : (s n : ℕ) → (add_bit s n).1 ≡ s
unfolding add_bit
old-add_bit s n = ground arith

-- A flag is added to the bits that are there.
pub bit-add_bit : (i s n : ℕ) → bit i (add_bit s n).0 ≡ max (bit i s) (bit i n)
unfolding add_bit
bit-add_bit i s n = elim (Bool-cases (n == bit_and s n)) [
  | inl has ↦
      rw has
        (omega (arith, ap (bit i) ((==_iff n (bit_and s n)).0 has), bit-bit_and i s n, bit-le i s))
  | inr lacks ↦ rw lacks (bit-bit_or i s n)
]

masked_bit :
    (j s i : ℕ)
    → i < 16
    → bit j (bit_and s (mask_bits i))
      ≡ min (bit j s) (max (if j == i then 1 else 0) (if j == i + 16 then 1 else 0))
masked_bit j s i h = rw (bit-bit_and, bit-mask_bits j i h)

-- The test of `checkin`: the event is awaited, and has not arrived.
pub awaited_test :
    (s i : ℕ) → i < 16 → ((high_bits i == bit_and s (mask_bits i)) ≡ true) ↔ Awaits i s
awaited_test s i h = (fwd, bwd)
  where
    fwd : ((high_bits i == bit_and s (mask_bits i)) ≡ true) → Awaits i s
    fwd t =
        let e = (==_iff (high_bits i) (bit_and s (mask_bits i))).0 t in
        ground (
          arith,
          ap (bit i) e,
          ap (bit (i + 16)) e,
          masked_bit i s i h,
          masked_bit (i + 16) s i h,
          bit-high_bits i i h,
          bit-high_bits (i + 16) i h,
          bit-le i s,
          bit-le (i + 16) s,
        )

    bwd : Awaits i s → (high_bits i == bit_and s (mask_bits i)) ≡ true
    bwd (a, b) = (==_iff (high_bits i) (bit_and s (mask_bits i))).1 (
        bit_ext (high_bits i) (bit_and s (mask_bits i))
          (λ j. ground (arith, a, b, masked_bit j s i h, bit-high_bits j i h)))

-- The test of `checkout`: the event has arrived, and is not awaited.
pub arrived_test :
    (s i : ℕ)
    → i < 16
    → ((low_bits i == bit_and s (mask_bits i)) ≡ true) ↔ ((low i s ≡ 1) × (high i s ≡ 0))
arrived_test s i h = (fwd, bwd)
  where
    fwd : ((low_bits i == bit_and s (mask_bits i)) ≡ true) → (low i s ≡ 1) × (high i s ≡ 0)
    fwd t =
        let e = (==_iff (low_bits i) (bit_and s (mask_bits i))).0 t in
        ground (
          arith,
          ap (bit i) e,
          ap (bit (i + 16)) e,
          masked_bit i s i h,
          masked_bit (i + 16) s i h,
          bit-low_bits i i h,
          bit-low_bits (i + 16) i h,
          bit-le i s,
          bit-le (i + 16) s,
        )

    bwd : (low i s ≡ 1) × (high i s ≡ 0) → (low_bits i == bit_and s (mask_bits i)) ≡ true
    bwd (a, b) = (==_iff (low_bits i) (bit_and s (mask_bits i))).1 (
        bit_ext (low_bits i) (bit_and s (mask_bits i))
          (λ j. ground (arith, a, b, masked_bit j s i h, bit-low_bits j i h)))

pub differ-min : (x y : ℕ) → x ≤ 1 → y ≤ 1 → differ x (min y x) ≡ x - min y x
differ-min zero y p q = omega arith
differ-min (suc zero) zero p q = refl
differ-min (suc (suc x)) zero p q = absurd (omega arith)
differ-min (suc zero) (suc zero) p q = refl
differ-min (suc (suc x)) (suc y) p q = absurd (omega arith)
differ-min (suc zero) (suc (suc y)) p q = absurd (omega arith)
