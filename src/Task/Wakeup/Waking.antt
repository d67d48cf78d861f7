-- ===== src/Task/Wakeup/Waking.antt =====
-- How a worker that waits comes back to its loop (tasker.cpp).
use high_perf_server.Base.{
  ℕ, zero, suc, ◌<◌, ◌≡◌, refl, ap, ◌∙◌, Bool, true, arith, ◌==◌, if◌then◌else◌, ℕ_discrete, dec_lt,
}
use high_perf_server.Task.Binary.{login}
use high_perf_server.Task.Wakeup.{locking, waiting, Worker, log_in, ring, wake, Reach}
use high_perf_server.Task.Wakeup.Invariant.{waiting-Safe, log_in_lem}

-- The steps by which the calls that have begun come to their ends, and the worker leaves its wait. No
-- new push, no call of `stopRun` and no `alarm` of one is among them.
pub data Settle (s : Worker) : Worker → Type 0 where
  logs : (rest : ℕ) → s.pushed ≡ suc rest → Settle s (log_in s rest)
  alarms : (rest : ℕ) → s.ringing ≡ suc rest → Settle s (ring s rest)
  returns : s.phase ≡ waiting → 0 < s.bell → Settle s (wake s)

pub data From (s : Worker) : Worker → Type 0 where
  here : From s s
  there : {t u : Worker} → From s t → Settle t u → From s u

-- By such steps alone, the worker comes back to its loop, with the work still in its queue.
abbrev pub Woken : Worker → Type 0
Woken s = (t : Worker) × From s t × (t.phase ≡ locking) × (t.pending ≡ s.pending)

pred : (n : ℕ) → 0 < n → (k : ℕ) × (n ≡ suc k)
pred zero h = absurd (omega arith)
pred (suc k) h = (k, refl)

belled : (s : Worker) → s.phase ≡ waiting → 0 < s.bell → Woken s
unfolding wake
belled s e h = (wake s, there here (returns e h), refl, refl)

From-append : {s t u : Worker} → From s t → From t u → From s u
From-append f here = f
From-append f (there g step) = there (From-append f g) step

after : {s t : Worker} → Settle s t → t.pending ≡ s.pending → Woken t → Woken s
after step same (u, f, p, q) = (u, From-append (there here step) f, p, q ∙ same)

ring_lem :
    (s : Worker) (rest : ℕ)
    → s.running ≡ true
    → ring s rest ≡ record s { ringing = rest; bell = suc s.bell }
unfolding ring
ring_lem s rest on =
    ap (λ (b : Bool). record s { ringing = rest; bell = if b then suc s.bell else s.bell }) on

rung : (s : Worker) → s.phase ≡ waiting → s.running ≡ true → 0 < s.ringing → Woken s
rung s e on h =
    let (k, q) = pred s.ringing h in
    let step : Settle s (record s { ringing = k; bell = suc s.bell }) =
      rw (← ring_lem s k on) (alarms k q) in
    after step refl (belled _ e (omega arith))

logged_in :
    (s : Worker) → s.phase ≡ waiting → s.running ≡ true → s.door ≡ 0 → 0 < s.pushed → Woken s
logged_in s e on free h =
    let (k, q) = pred s.pushed h in
    let step : Settle s (called k) = rw (← log_in_lem s k) (logs k q) in
    after step refl (rung (called k) e on (rw free (omega arith)))
  where
    called : ℕ → Worker
    called k = record s {
      door = (login s.door).0;
      pushed = k;
      ringing = if s.door == 0 then suc s.ringing else s.ringing;
    }

-- From every reachable state in which the worker waits while it is to run and a push has not been
-- spliced, some steps of the calls of `resume` that have begun, and the return of its wait, lead the
-- worker back to its loop, with what was pushed still in its queue. There is no further push, no
-- `stopRun` and no interruption of poll(2) among these steps.
pub work_is_found :
    {s : Worker} → Reach s → s.phase ≡ waiting → s.running ≡ true → 0 < s.pending → Woken s
work_is_found {s} r e on work =
    let (h, free, called) = waiting-Safe r e in
    elim (dec_lt 0 s.bell) [
      | yes b ↦ belled s e b
      | no b ↦ elim (dec_lt 0 s.ringing) [
        | yes g ↦ rung s e on g
        | no g ↦ elim (ℕ_discrete s.door 0) [
          | yes z ↦ logged_in s e on z (free z work)
          | no n ↦ absurd (omega (arith, called n on, b, g))
        ]
      ]
    ]
