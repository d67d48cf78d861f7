-- ===== src/Task/Binary.antt =====
-- Class BinaryDoor of tasker.cpp: the word by which a worker and its producers agree on who is to
-- wake the worker. Each function gives the new word and what it returns.
use high_perf_server.Base.{ℕ, ◌≡◌, ◌≢◌, refl, ap, ◌∙◌, Bool, arith, ◌==◌}
use high_perf_server.Base.Bits.{bit, bit-le, bit-zero}
use high_perf_server.Task.Atomic.{add_bit, set_bit, cas_bit}
use high_perf_server.Task.Door.Words.{old-add_bit, bit-add_bit}

abbrev pub def_lock_flag : ℕ
def_lock_flag = 1

abbrev pub def_login_flag : ℕ
def_login_flag = 2

unfoldable pub login : ℕ → ℕ × Bool
login state = let (state', old) = add_bit state def_login_flag in (state', old == 0)

unfoldable pub lock : ℕ → ℕ
lock state = (set_bit state def_lock_flag).0

unfoldable pub release : ℕ → ℕ × Bool
release state = cas_bit state 0 def_lock_flag

pub login_first : (state : ℕ) → (login state).1 ≡ (state == 0)
unfolding login
login_first state = ap (λ (old : ℕ). old == 0) (old-add_bit state 2)

two_bit : bit 1 2 ≡ 1
unfolding bit
two_bit = refl

one_bit : bit 1 1 ≡ 0
unfolding bit
one_bit = refl

login_flag : (state : ℕ) → bit 1 (login state).0 ≡ 1
unfolding login
login_flag state = bit-add_bit 1 state 2 ∙ omega (arith, bit-le 1 state, two_bit)

pub login_ne_zero : (state : ℕ) → (login state).0 ≢ 0
login_ne_zero state e = omega (arith, login_flag state, ap (bit 1) e, bit-zero 1)

pub login_ne_one : (state : ℕ) → (login state).0 ≢ 1
login_ne_one state e = omega (arith, login_flag state, ap (bit 1) e, one_bit)
