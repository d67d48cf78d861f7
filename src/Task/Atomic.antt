-- ===== src/Task/Atomic.antt =====
-- Class BitTool of tasker.cpp: updates of a 32-bit word that other threads update too.
use Prim.Native.Nat.{bit_and, bit_or, bit_and-bitwise}
use high_perf_server.Base.{
  ℕ, ◌≡◌, ◌⊎◌, Bool, true, false, none, some, Option, List, [], ◌∷◌, ◌++◌, ◌≢◌, arith, ◌==◌,
  if◌then◌else◌,
}

-- How a call of `addBit` ends: what it returns, and the value that it stores, if it stores one.
pub record Added : Type 0 where
  pub old : ℕ
  pub stored : Option ℕ

-- BitTool::addBit. `cells` is the value of the word at each compare-exchange, whatever the other
-- threads have made of it; `none` is a loop that is still running when the list ends.
unfoldable pub add_bit_loop : ℕ → ℕ → List ℕ → Option Added
add_bit_loop n retval [] =
    if n == bit_and retval n then some (record { old = retval; stored = none }) else none
add_bit_loop n retval (cell ∷ cells) =
    let rest = add_bit_loop n cell cells in
    if n == bit_and retval n
    then some (record { old = retval; stored = none })
    else if cell == retval
    then some (record { old = retval; stored = some (bit_or retval n) })
    else rest

unfoldable pub add_bit_run : ℕ → List ℕ → Option Added
add_bit_run n cells = add_bit_loop n 0 cells

-- The same as one indivisible step: the new word and the value that is returned.
unfoldable pub add_bit : ℕ → ℕ → ℕ × ℕ
add_bit state n = if n == bit_and state n then (state, state) else (bit_or state n, state)

-- BitTool::setBit: the new word and the old one.
unfoldable pub set_bit : ℕ → ℕ → ℕ × ℕ
set_bit state n = (n, state)

-- BitTool::isMember
unfoldable pub is_member : ℕ → ℕ → Bool
is_member state n = n == bit_and n state

-- BitTool::casBit: the new word and whether it was stored.
unfoldable pub cas_bit : ℕ → ℕ → ℕ → ℕ × Bool
cas_bit state newval oldval = if state == oldval then (newval, true) else (state, false)

-- `v` is one of the values.
abbrev pub Among : ℕ → List ℕ → Type 0
Among v [] = ⊥
Among v (x ∷ xs) = (v ≡ x) ⊎ Among v xs

-- The value that a call leaves in a word that was `old` at the end of the call.
abbrev pub word_after : Added → ℕ
word_after r = elim r.stored [ none ↦ r.old | some v ↦ v ]

add_bit_loop_lem :
    (n retval : ℕ) (cells : List ℕ) (r : Added)
    → add_bit_loop n retval cells ≡ some r
    → (((r.old ≡ retval) × ((n == bit_and retval n) ≡ true)) ⊎ Among r.old cells)
      × (add_bit r.old n ≡ (word_after r, r.old))
unfolding add_bit_loop add_bit
add_bit_loop_lem n retval [] r e = ground arith
add_bit_loop_lem n retval (cell ∷ cells) r e = ground (arith, add_bit_loop_lem n cell cells r)

zero-bit_and : (n : ℕ) → bit_and 0 n ≡ 0
zero-bit_and n = bit_and-bitwise 0 n

-- However the other threads change the word between its attempts, a call of `addBit` with a flag
-- that is not 0, if it returns, has had the effect of one indivisible step: what it returns is a
-- value that the word had at one of its attempts, and what it leaves there is that value with the
-- flag added.
pub add_bit_run-add_bit :
    (n : ℕ) (cells : List ℕ) (r : Added)
    → n ≢ 0
    → add_bit_run n cells ≡ some r
    → Among r.old cells × (add_bit r.old n ≡ (word_after r, r.old))
unfolding add_bit_run
add_bit_run-add_bit n cells r h e = ground (arith, add_bit_loop_lem n 0 cells r e, zero-bit_and n)

add_bit_loop_twice :
    (n retval v : ℕ) (before after : List ℕ)
    → add_bit_loop n retval (before ++ v ∷ v ∷ after) ≢ none
unfolding add_bit_loop
add_bit_loop_twice n retval v [] after = ground arith
add_bit_loop_twice n retval v (cell ∷ before) after =
    ground (arith, add_bit_loop_twice n cell v before after)

-- A call of `addBit` ends as soon as two of its attempts in a row find the same value.
pub add_bit_run_ends :
    (n v : ℕ) (before after : List ℕ) → add_bit_run n (before ++ v ∷ v ∷ after) ≢ none
unfolding add_bit_run
add_bit_run_ends n v before after = add_bit_loop_twice n 0 v before after
