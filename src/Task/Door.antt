-- ===== src/Task/Door.antt =====
-- Class BitDoor of tasker.cpp. A word has a low bit for each event that has arrived and a high bit
-- for each event that its task waits for. Each function gives the new word and what it returns.
pub mod Words
pub mod Laws
use Prim.Native.Nat.{bit_and, bit_or, bit_xor}
use high_perf_server.Base.{
  ℕ, ◌*◌, ◌/◌, ◌%◌, ◌^◌, Bool, true, false, not, ◌&&◌, ◌||◌, ltb, leb, ◌==◌, if◌then◌else◌,
}
use high_perf_server.Events.{bit_event_lock, bit_event_norm, bit_event_end, bit_event_max}
use high_perf_server.Task.Atomic.{add_bit, set_bit, cas_bit, is_member}

-- The tables that the constructor fills, at an index below `bit_event_max`.
unfoldable pub low_bits : ℕ → ℕ
low_bits i = 2 ^ i % 2 ^ 32

unfoldable pub high_bits : ℕ → ℕ
high_bits i = low_bits i * 2 ^ 16 % 2 ^ 32

unfoldable pub mask_bits : ℕ → ℕ
mask_bits i = bit_or (low_bits i) (high_bits i)

unfoldable pub is_eof : ℕ → Bool
is_eof state = is_member state (low_bits bit_event_end)

unfoldable pub lock : ℕ → ℕ × ℕ
lock state = set_bit state (low_bits bit_event_lock)

unfoldable pub release : ℕ → ℕ × Bool
release state = cas_bit state 0 (low_bits bit_event_lock)

checkin_event : ℕ → ℕ → ℕ × Bool
checkin_event state ev =
    let (state', old) = add_bit state (low_bits ev) in
    (state', (old == 0) || (high_bits ev == bit_and old (mask_bits ev)))

checkin_end : ℕ → ℕ × Bool
checkin_end state =
    let (state', old) = set_bit state 0xFFFF in
    let high = old / 2 ^ 16 in (state', (old == 0) || not (bit_xor high (bit_and old high) == 0))

unfoldable pub checkin : ℕ → ℕ → ℕ × Bool
unfolding checkin_event checkin_end
checkin state ev =
    if leb bit_event_norm ev && ltb ev bit_event_end
    then checkin_event state ev
    else if ev == bit_event_end
    then checkin_end state
    else (state, false)

unfoldable pub checkout : ℕ → ℕ → ℕ × Bool
checkout state ev =
    let (state', old) = add_bit state (high_bits ev) in
    (state', not (low_bits ev == bit_and old (mask_bits ev)))
