-- ===== src/Timer.antt =====
-- Class TickTimer of ticktimer.cpp: a wheel of two levels of 256 slots for the timers of a thread.
-- A list of a slot is a List, its first element first. A timer is known by the number `id`; it stands
-- in at most one slot, and is unhashed when it stands in none.
pub mod Wheel
pub mod Turn
pub mod Firing
use high_perf_server.Base.{
  ℕ, zero, suc, ◌+◌, ◌-◌, ◌*◌, ◌/◌, ◌%◌, ◌^◌, Bool, true, false, ◌||◌, not, List, [], ◌∷◌, ◌++◌,
  length, ltb, ◌==◌, if◌then◌else◌,
}

abbrev pub tv_1_size : ℕ
tv_1_size = 256

abbrev pub tv_2_size : ℕ
tv_2_size = 256

-- struct TimerEle of datatype.h, without its links.
pub record TimerEle : Type 0 where
  pub id : ℕ
  pub expires : ℕ
  pub interval : ℕ

pub record TickTimer : Type 0 where
  pub size : ℕ
  pub now : ℕ  -- `m_tick`
  pub time : ℕ
  pub tv1 : ℕ → List TimerEle
  pub tv2 : ℕ → List TimerEle

-- hlist_add to slot `k` of an array.
abbrev pub hlist_add : (ℕ → List TimerEle) → ℕ → TimerEle → ℕ → List TimerEle
hlist_add tv k ele i = if i == k then ele ∷ tv i else tv i

abbrev pub clear : (ℕ → List TimerEle) → ℕ → ℕ → List TimerEle
clear tv k i = if i == k then [] else tv i

unfoldable pub without : ℕ → List TimerEle → List TimerEle
without id [] = []
without id (e ∷ es) = let rest = without id es in if e.id == id then rest else e ∷ rest

unfoldable pub hashed_in : ℕ → List TimerEle → Bool
hashed_in id [] = false
hashed_in id (e ∷ es) = let rest = hashed_in id es in (e.id == id) || rest

unfoldable pub hashed_below : ℕ → ℕ → (ℕ → List TimerEle) → Bool
hashed_below zero id tv = false
hashed_below (suc n) id tv = hashed_in id (tv n) || hashed_below n id tv

-- The negation of hlist_unhashed.
unfoldable pub hashed : TickTimer → ℕ → Bool
hashed t id = hashed_below tv_1_size id t.tv1 || hashed_below tv_2_size id t.tv2

unfoldable pub del_timer : TickTimer → ℕ → TickTimer
del_timer t id =
    if hashed t id
    then record t {
      tv1 = λ i. without id (t.tv1 i);
      tv2 = λ i. without id (t.tv2 i);
      size = (t.size + 2 ^ 32 - 1) % 2 ^ 32;
    }
    else t

-- The last part of `modTimer`, behind `delTimer`.
unfoldable pub place : TickTimer → ℕ → ℕ → TickTimer
place t id timeout =
    let expires = (t.now + timeout) % 2 ^ 32 in
    let ele : TimerEle = record { id = id; expires = expires; interval = timeout } in
    let size = (t.size + 1) % 2 ^ 32 in
    if ltb timeout tv_1_size
    then record t { size = size; tv1 = hlist_add t.tv1 (expires % 256) ele }
    else record t { size = size; tv2 = hlist_add t.tv2 (expires / 256 % 256) ele }

unfoldable pub mod_timer : TickTimer → ℕ → ℕ → TickTimer
mod_timer t id timeout = place (del_timer t id) id timeout

unfoldable pub add_timer : TickTimer → TimerEle → TickTimer
add_timer t ele = mod_timer t ele.id ele.interval

abbrev count_below : ℕ → (ℕ → List TimerEle) → ℕ
count_below zero tv = 0
count_below (suc n) tv = length (tv n) + count_below n tv

unfoldable pub stop : TickTimer → TickTimer
stop t =
    let gone = count_below tv_1_size t.tv1 + count_below tv_2_size t.tv2 in
    record t { tv1 = λ _. []; tv2 = λ _. []; size = (t.size + (2 ^ 32 - gone % 2 ^ 32)) % 2 ^ 32 }

-- The loop that moves a slot of the second level to the first.
unfoldable pub spread : List TimerEle → (ℕ → List TimerEle) → ℕ → List TimerEle
spread [] tv1 = tv1
spread (e ∷ es) tv1 = spread es (hlist_add tv1 (e.expires % 256) e)

unfoldable pub cascade : TickTimer → TickTimer
cascade t =
    let slot = t.now / 256 % 256 in
    if t.now % 256 == 0
    then record t { tv1 = spread (t.tv2 slot) t.tv1; tv2 = clear t.tv2 slot }
    else t

-- What `doTimeout` of the thread does to the wheel.
abbrev pub Dealer : Type 0
Dealer = TimerEle → TickTimer → TickTimer

unfoldable pub fire : Dealer → List TimerEle → TickTimer → TickTimer
fire dealer [] t = t
fire dealer (e ∷ es) t =
    fire dealer es (dealer e (record t { size = (t.size + 2 ^ 32 - 1) % 2 ^ 32 }))

-- `tick` up to the list that it takes from its slot: that list, and the wheel without it.
unfoldable pub turn : ℕ → TickTimer → List TimerEle × TickTimer
turn cnt t =
    let t' = cascade (record t { now = (t.now + 1) % 2 ^ 32; time = (t.time + cnt) % 2 ^ 32 }) in
    let slot = t'.now % 256 in (t'.tv1 slot, record t' { tv1 = clear t'.tv1 slot })

unfoldable pub tick : Dealer → ℕ → TickTimer → TickTimer
tick dealer cnt t = let (due, t') = turn cnt t in fire dealer due t'

-- A timer as its constructor makes it.
abbrev pub new_timer : TickTimer
new_timer = record { size = 0; now = 0; time = 0; tv1 = λ _. []; tv2 = λ _. [] }
