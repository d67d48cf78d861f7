-- ===== src/Task/Wakeup/Invariant.antt =====
-- What holds of a worker while it waits (Tasker::run, resume and stopRun of tasker.cpp).
use high_perf_server.Base.{
  ℕ, suc, ◌+◌, ◌<◌, ◌≡◌, ◌≢◌, refl, ap, inl, inr, Bool, true, false, arith, ◌==◌, ==_iff,
  if◌then◌else◌, Bool-cases, ℕ_discrete,
}
use mathlib.Core.Path.{subst}
use high_perf_server.Task.Atomic.{cas_bit}
use high_perf_server.Task.Binary.{login, release, login_first, login_ne_zero, login_ne_one}
use high_perf_server.Task.Wakeup.{
  Phase, starting, locking, testing, splicing, running_tasks, releasing, waiting, exited, Worker,
  push, log_in, ring, stop_run, ring_stop, advance, wake, Step, pushes, logs_in, rings, stops,
  rings_stop, advances, wakes, interrupted, Reach, start, later,
}

-- A worker that was stopped is, or will be, rung for.
abbrev pub Heard : Worker → Type 0
Heard s = s.running ≡ false → 0 < s.bell + s.stopping

-- While the door is locked and nobody has logged in, who has pushed is about to log in.
abbrev pub Announced : ℕ → Worker → Type 0
Announced door s = s.door ≡ door → 0 < s.pending → 0 < s.pushed

-- Who has logged in at a free door has rung, or is about to.
abbrev pub Called : Worker → Type 0
Called s = s.door ≢ 0 → s.running ≡ true → 0 < s.bell + s.ringing

abbrev pub Safe : Phase → Worker → Type 0
Safe starting s = Unit {0}
Safe locking s = Unit {0}
Safe testing s = Unit {0}
Safe splicing s = Heard s
Safe running_tasks s = Heard s × Announced 1 s
Safe releasing s = Heard s × Announced 1 s
Safe waiting s = Heard s × Announced 0 s × Called s
Safe exited s = Unit {0}

-- A step that keeps each of the four facts keeps them together.
Safe-map :
    (p : Phase) (s t : Worker)
    → (Heard s → Heard t)
    → (Announced 1 s → Announced 1 t)
    → (Announced 0 s → Announced 0 t)
    → (Called s → Called t)
    → Safe p s
    → Safe p t
Safe-map starting s t f g h k v = v
Safe-map locking s t f g h k v = v
Safe-map testing s t f g h k v = v
Safe-map splicing s t f g h k v = f v
Safe-map running_tasks s t f g h k v = (f v.0, g v.1)
Safe-map releasing s t f g h k v = (f v.0, g v.1)
Safe-map waiting s t f g h k v = (f v.0, h v.1, k v.2)
Safe-map exited s t f g h k v = v

pub log_in_lem :
    (s : Worker) (rest : ℕ)
    → log_in s rest ≡ record s {
      door = (login s.door).0;
      pushed = rest;
      ringing = if s.door == 0 then suc s.ringing else s.ringing;
    }
unfolding log_in
log_in_lem s rest = rw (login_first s.door)

log_in-Safe :
    (p : Phase) (s : Worker) (rest : ℕ) → s.pushed ≡ suc rest → Safe p s → Safe p (log_in s rest)
log_in-Safe p s rest e v = rw (log_in_lem s rest) (
    Safe-map p s _ (λ h. h) (λ h o. absurd (login_ne_one s.door o))
      (λ h o. absurd (login_ne_zero s.door o)) (λ h o r. ground (arith, h, r)) v)

ring-Safe :
    (p : Phase) (s : Worker) (rest : ℕ) → s.ringing ≡ suc rest → Safe p s → Safe p (ring s rest)
unfolding ring
ring-Safe p s rest e v = elim (Bool-cases s.running) [
  | inl on ↦ Safe-map p s _ (λ h o. cc) (λ h. h) (λ h. h) (λ h o r. rw on (omega arith)) v
  | inr off ↦ Safe-map p s _ (λ h o. rw off (h off)) (λ h. h) (λ h. h) (λ h o r. cc) v
]

module _ (s : Worker) where
  abbrev halted : Worker
  halted = record s { running = false; stopping = suc s.stopping }

  stop_run_on : s.running ≡ true → stop_run s ≡ halted
  unfolding stop_run
  stop_run_on e = ap (λ (b : Bool). if b then halted else s) e

  stop_run_off : s.running ≡ false → stop_run s ≡ s
  unfolding stop_run
  stop_run_off e = ap (λ (b : Bool). if b then halted else s) e

  stop_run-Safe : Safe s.phase s → Safe (stop_run s).phase (stop_run s)
  stop_run-Safe v = elim (Bool-cases s.running) [
    | inl on ↦
        rw (stop_run_on on)
          (Safe-map s.phase s halted (λ h o. omega arith) (λ h. h) (λ h. h) (λ h o r. absurd cc) v)
    | inr off ↦ rw (stop_run_off off) v
  ]

release_lem : (d : ℕ) → release d ≡ (if d == 1 then (0, true) else (d, false))
unfolding release cas_bit
release_lem d = refl

-- The steps of the loop itself.
advance-Safe :
    (p : Phase) (done : Bool) (s : Worker)
    → s.phase ≡ p
    → Safe p s
    → Safe (advance p done s).phase (advance p done s)
unfolding advance
advance-Safe starting done s e v = tt
advance-Safe locking done s e v = tt
advance-Safe testing done s e v = elim (Bool-cases s.running) [
  | inl on ↦ rw on (λ o. absurd cc)
  | inr off ↦ rw off tt
]
advance-Safe splicing done s e v = (v, λ o m. absurd (omega (arith, m)))
advance-Safe running_tasks true s e v = v
advance-Safe running_tasks false s e v = tt
advance-Safe releasing done s e v = rw (release_lem s.door) (elim (Bool-cases (s.door == 1)) [
  | inl locked ↦ rw locked (v.0, λ o m. v.1 ((==_iff s.door 1).0 locked) m, λ o r. absurd (o refl))
  | inr free ↦ rw free tt
])
advance-Safe waiting done s e v = rw e v
advance-Safe exited done s e v = rw e v

Step-Safe : {s t : Worker} → Step s t → Safe s.phase s → Safe t.phase t
unfolding push ring_stop wake log_in ring
Step-Safe {s} pushes v =
    Safe-map s.phase s _ (λ h. h) (λ h o m. omega arith) (λ h o m. omega arith) (λ h. h) v
Step-Safe {s} (logs_in rest e) v = log_in-Safe s.phase s rest e v
Step-Safe {s} (rings rest e) v = ring-Safe s.phase s rest e v
Step-Safe {s} stops v = stop_run-Safe s v
Step-Safe {s} (rings_stop rest e) v =
    Safe-map s.phase s _ (λ h o. omega arith) (λ h. h) (λ h. h) (λ h o r. omega arith) v
Step-Safe {s} (advances done) v = advance-Safe s.phase done s refl v
Step-Safe (wakes e h) v = tt

Reach-Safe : {s : Worker} → Reach s → Safe s.phase s
Reach-Safe start = tt
Reach-Safe (later r step) = Step-Safe step (Reach-Safe r)
Reach-Safe (interrupted r e) = tt

pub waiting-Safe : {s : Worker} → Reach s → s.phase ≡ waiting → Safe waiting s
waiting-Safe {s} r e = subst (λ (p : Phase). Safe p s) e (Reach-Safe r)

-- In every reachable state in which the worker waits while it is to run and a push has not been
-- spliced, the eventfd is set, or a producer is at `login`, or at the `alarm` behind it.
pub work_is_announced :
    {s : Worker}
    → Reach s
    → s.phase ≡ waiting
    → s.running ≡ true
    → 0 < s.pending
    → 0 < s.bell + s.ringing + s.pushed
work_is_announced {s} r e on work =
    let (h, free, called) = waiting-Safe r e in
    elim (ℕ_discrete s.door 0) [
      | yes z ↦ omega (arith, free z work)
      | no n ↦ omega (arith, called n on)
    ]

-- In every reachable state in which the worker waits though it has been stopped, the eventfd is set,
-- or the caller of `stopRun` is at its `alarm`.
pub stop_is_announced :
    {s : Worker} → Reach s → s.phase ≡ waiting → s.running ≡ false → 0 < s.bell + s.stopping
stop_is_announced r e off = (waiting-Safe r e).0 off
