-- ===== src/Events.antt =====
-- enum BIT_EVENT_TYPE of tasker.h.
use high_perf_server.Base.{ℕ}

abbrev pub bit_event_lock : ℕ
bit_event_lock = 0

abbrev pub bit_event_norm : ℕ
bit_event_norm = 1

abbrev pub bit_event_custom : ℕ
bit_event_custom = 2

abbrev pub bit_event_read : ℕ
bit_event_read = 3

abbrev pub bit_event_write : ℕ
bit_event_write = 4

abbrev pub bit_event_deal : ℕ
bit_event_deal = 5

abbrev pub bit_event_flow_ctl : ℕ
bit_event_flow_ctl = 6

abbrev pub bit_event_error : ℕ
bit_event_error = 7

abbrev pub bit_event_end : ℕ
bit_event_end = 15

abbrev pub bit_event_max : ℕ
bit_event_max = 16

abbrev pub bit_event_in : ℕ
bit_event_in = 17
