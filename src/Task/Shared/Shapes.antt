-- ===== src/Task/Shared/Shapes.antt =====
-- The states of a shared task (class Pooler of tasker.cpp): what the word, the queues and the worker
-- say together.
use high_perf_server.Base.{ℕ, ◌≤◌, ◌<◌, ◌≡◌, true, false}
use high_perf_server.Task.Door.Words.{Awaits}
use high_perf_server.Task.Door.Laws.{Covered, NoHigh, Marked}
use high_perf_server.Task.Shared.{Shared, Visit, away, inside, claims}

-- What the word says where the worker stands in the task.
abbrev pub Plain : Visit → ℕ → Type 0
Plain away w = Unit {0}
Plain (inside _) w = NoHigh w

-- The task has one claim: it is queued, about to be, or run, and each awaited event has arrived.
pub record Busy (s : Shared) : Type 0 where
  pub one : claims s ≡ 1
  pub here : s.gone ≡ false
  pub fresh : s.ends ≡ 0
  pub marked : Marked s.word
  pub covered : Covered s.word
  pub plain : Plain s.visit s.word

-- It has no claim, and no event has come since its last run.
pub record Idle (s : Shared) : Type 0 where
  pub none : claims s ≡ 0
  pub here : s.gone ≡ false
  pub fresh : s.ends ≡ 0
  pub clear : s.word ≡ 0

-- It has no claim, and waits for event `ev` alone.
pub record Waiting (s : Shared) (ev : ℕ) : Type 0 where
  pub none : claims s ≡ 0
  pub here : s.gone ≡ false
  pub fresh : s.ends ≡ 0
  pub awaits : Awaits ev s.word
  pub alone : (i : ℕ) → Awaits i s.word → i ≡ ev
  pub event : (2 ≤ ev) × (ev < 15)

-- It has been dropped for good.
pub record Gone (s : Shared) : Type 0 where
  pub none : claims s ≡ 0
  pub gone : s.gone ≡ true
  pub once : s.ends ≤ 1
  pub marked : Marked s.word
  pub covered : Covered s.word

pub data Shape (s : Shared) : Type 0 where
  busy : Busy s → Shape s
  idle : Idle s → Shape s
  waiting : (ev : ℕ) → Waiting s ev → Shape s
  gone : Gone s → Shape s
