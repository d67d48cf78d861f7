-- ===== src/Task/Door/Laws.antt =====
-- The operations of BitDoor (tasker.cpp) in terms of the bits of a word.
use Prim.Native.Nat.{bit_and, bit_xor}
use high_perf_server.Base.{
  ℕ, ◌+◌, ◌-◌, ◌/◌, ◌^◌, ◌≤◌, ◌<◌, min, max, ◌≡◌, refl, sym, ap, ◌∙◌, ◌≢◌, ◌⊎◌, inl, inr, Bool,
  true, false, not, ◌||◌, arith, ◌==◌, Bool-cases, lt→ltb, le→leb, if◌then◌else◌,
}
use high_perf_server.Base.Bits.{bit, bit-le, bit-zero, bit-bit_and, bit-bit_xor, bit_ext, bit_half}
use high_perf_server.Task.Atomic.{set_bit, cas_bit}
use high_perf_server.Task.Door.Words.{
  low, high, Awaits, bit-low_bits, bit-high_bits, bit-add_bit, old-add_bit, awaited_test,
  arrived_test, differ-min,
}
use high_perf_server.Task.Door.{
  low_bits, high_bits, mask_bits, lock, release, checkin, checkin_event, checkin_end, checkout,
}

-- Every event that is waited for has arrived.
abbrev pub Covered : ℕ → Type 0
Covered s = (i : ℕ) → high i s ≡ 1 → low i s ≡ 1

abbrev pub NoHigh : ℕ → Type 0
NoHigh s = (i : ℕ) → high i s ≡ 0

abbrev pub Marked : ℕ → Type 0
Marked s = (i : ℕ) × (bit i s ≡ 1)

pub Marked-ne-zero : {s : ℕ} → Marked s → s ≢ 0
Marked-ne-zero (i, h) e = omega (arith, h, ap (bit i) e, bit-zero i)

pub NoHigh-small : (s : ℕ) → s < 2 ^ 16 → NoHigh s
NoHigh-small s h i = sym (bit_half i s) ∙ ap (bit i) (omega arith) ∙ bit-zero i

checkin_is_event : (s ev : ℕ) → 1 ≤ ev → ev < 15 → checkin s ev ≡ checkin_event s ev
unfolding checkin
checkin_is_event s ev a b = rw (le→leb 1 ev a, lt→ltb ev 15 b)

-- An event that arrives adds its low bit.
pub bit-checkin :
    (i s ev : ℕ)
    → 1 ≤ ev
    → ev < 15
    → bit i (checkin s ev).0 ≡ max (bit i s) (if i == ev then 1 else 0)
bit-checkin i s ev a b =
    ap (λ (r : ℕ × Bool). bit i r.0) (checkin_is_event s ev a b)
    ∙ unfold checkin_event in
      (bit-add_bit i s (low_bits ev)) ∙ ap (max (bit i s)) (bit-low_bits i ev (omega arith))

checkin_value :
    (s ev : ℕ)
    → 1 ≤ ev
    → ev < 15
    → (checkin s ev).1 ≡ ((s == 0) || (high_bits ev == bit_and s (mask_bits ev)))
checkin_value s ev a b =
    ap (λ (r : ℕ × Bool). r.1) (checkin_is_event s ev a b)
    ∙ unfold checkin_event in
      ap (λ (o : ℕ). (o == 0) || (high_bits ev == bit_and o (mask_bits ev)))
        (old-add_bit s (low_bits ev))

-- An event asks for its task to be queued if the word is 0 or the task waits for the event.
pub checkin_yes : (s ev : ℕ) → 1 ≤ ev → ev < 15 → (s ≡ 0) ⊎ Awaits ev s → (checkin s ev).1 ≡ true
checkin_yes s ev a b h =
    ground (arith, h, checkin_value s ev a b, (awaited_test s ev (omega arith)).1)

pub checkin_no :
    (s ev : ℕ) → 1 ≤ ev → ev < 15 → s ≢ 0 → (Awaits ev s → ⊥) → (checkin s ev).1 ≡ false
checkin_no s ev a b h k =
    let test : (high_bits ev == bit_and s (mask_bits ev)) ≡ true → ⊥ =
      λ t. k ((awaited_test s ev (omega arith)).0 t) in
    ground (arith, h, checkin_value s ev a b, test)

checkin_is_end : (s : ℕ) → checkin s 15 ≡ checkin_end s
unfolding checkin
checkin_is_end s = refl

-- The bits by which `checkin` compares the two halves.
half_bit :
    (i s : ℕ)
    → bit i (bit_xor (s / 2 ^ 16) (bit_and s (s / 2 ^ 16))) ≡ high i s - min (low i s) (high i s)
half_bit i s =
    bit-bit_xor i (s / 2 ^ 16) (bit_and s (s / 2 ^ 16))
    ∙ rw (bit-bit_and i s (s / 2 ^ 16), bit_half i s)
        (differ-min (high i s) (low i s) (bit-le (i + 16) s) (bit-le i s))

end_value :
    (s : ℕ)
    → (checkin s 15).1 ≡ ((s == 0) || not (bit_xor (s / 2 ^ 16) (bit_and s (s / 2 ^ 16)) == 0))
unfolding checkin checkin_end set_bit
end_value s = refl

-- The end asks for its task to be queued if the word is 0 or the task waits for any event.
pub end_yes : (s i : ℕ) → (s ≡ 0) ⊎ Awaits i s → (checkin s 15).1 ≡ true
end_yes s i (inl e) = ground (arith, end_value s)
end_yes s i (inr (a, b)) = ground (
  arith,
  end_value s,
  half_bit i s,
  bit-zero i,
  Bool-cases (bit_xor (s / 2 ^ 16) (bit_and s (s / 2 ^ 16)) == 0),
)

pub end_no : (s : ℕ) → s ≢ 0 → Covered s → (checkin s 15).1 ≡ false
end_no s h c = ground (arith, h, end_value s, all_zero)
  where
    all_zero : bit_xor (s / 2 ^ 16) (bit_and s (s / 2 ^ 16)) ≡ 0
    all_zero =
        bit_ext _ 0
          (λ i. ground (arith, half_bit i s, bit-zero i, bit-le (i + 16) s, bit-le i s, c i))

pub end_word : (s : ℕ) → (checkin s 15).0 ≡ 0xFFFF
unfolding checkin checkin_end set_bit
end_word s = refl

-- Any other event is refused.
pub checkin_invalid : (s ev : ℕ) → (ev ≡ 0) ⊎ (15 < ev) → checkin s ev ≡ (s, false)
unfolding checkin
checkin_invalid s ev h = ground arith

-- To wait for an event adds its high bit, and fails if the event has arrived.
pub bit-checkout :
    (i s ev : ℕ) → ev < 16 → bit i (checkout s ev).0 ≡ max (bit i s) (if i == ev + 16 then 1 else 0)
unfolding checkout
bit-checkout i s ev h = bit-add_bit i s (high_bits ev) ∙ ap (max (bit i s)) (bit-high_bits i ev h)

checkout_value : (s ev : ℕ) → (checkout s ev).1 ≡ not (low_bits ev == bit_and s (mask_bits ev))
unfolding checkout
checkout_value s ev =
    ap (λ (o : ℕ). not (low_bits ev == bit_and o (mask_bits ev))) (old-add_bit s (high_bits ev))

pub checkout_no : (s ev : ℕ) → ev < 16 → low ev s ≡ 1 → high ev s ≡ 0 → (checkout s ev).1 ≡ false
checkout_no s ev h a b = ground (arith, checkout_value s ev, (arrived_test s ev h).1 (a, b))

pub checkout_yes : (s ev : ℕ) → ev < 16 → low ev s ≡ 0 → (checkout s ev).1 ≡ true
checkout_yes s ev h a =
    let test : (low_bits ev == bit_and s (mask_bits ev)) ≡ true → ⊥ =
      λ t. omega (arith, (arrived_test s ev h).0 t) in
    ground (arith, checkout_value s ev, test)

pub release_one : release 1 ≡ (0, true)
unfolding release cas_bit low_bits
release_one = refl

pub release_other : (s : ℕ) → s ≢ 1 → release s ≡ (s, false)
unfolding release cas_bit low_bits
release_other s h = ground arith

pub lock_lem : (s : ℕ) → lock s ≡ (1, s)
unfolding lock set_bit low_bits
lock_lem s = refl
