-- ===== src/Task/Wakeup.antt =====
-- How a worker sleeps and is woken: Tasker::run, resume and stopRun of tasker.cpp, with the eventfd of
-- EventWaiter (taskpool.cpp) for `wait` and `alarm`, and addTask, which pushes a task and resumes the
-- worker. Each step is one access to shared memory, or one section under the pool's lock.
pub mod Invariant
pub mod Waking
use high_perf_server.Base.{ℕ, zero, suc, ◌<◌, ◌≡◌, Bool, true, false, if◌then◌else◌}
use high_perf_server.Task.Binary.{login, lock, release}

-- The places of the loop of `run` between two accesses.
pub data Phase : Type 0 where
  starting : Phase  -- before `m_running` is set
  locking : Phase  -- at `m_door.lock()`
  testing : Phase  -- at `while (m_running)`
  splicing : Phase  -- in `doTasks`, at `__splice`
  running_tasks : Phase  -- behind it
  releasing : Phase  -- at `m_door.release()`
  waiting : Phase  -- in `wait()`
  exited : Phase

pub record Worker : Type 0 where
  pub door : ℕ  -- `m_state` of the door
  pub running : Bool  -- `m_running`
  pub bell : ℕ  -- the count of the eventfd
  pub phase : Phase
  pub pending : ℕ  -- pushes that the worker has not spliced
  pub pushed : ℕ  -- producers that have pushed, at `login`
  pub ringing : ℕ  -- producers that were the first, at the test of `m_running`
  pub stopping : ℕ  -- callers of `stopRun` at `alarm`

unfoldable pub push : Worker → Worker
push s = record s { pending = suc s.pending; pushed = suc s.pushed }

-- `resume`, up to the test of what `login` returns.
unfoldable pub log_in : Worker → ℕ → Worker
log_in s rest =
    let (door, need_fire) = login s.door in
    record s {
      door = door;
      pushed = rest;
      ringing = if need_fire then suc s.ringing else s.ringing;
    }

-- The rest of it.
unfoldable pub ring : Worker → ℕ → Worker
ring s rest = record s { ringing = rest; bell = if s.running then suc s.bell else s.bell }

unfoldable pub stop_run : Worker → Worker
stop_run s = if s.running then record s { running = false; stopping = suc s.stopping } else s

unfoldable pub ring_stop : Worker → ℕ → Worker
ring_stop s rest = record s { stopping = rest; bell = suc s.bell }

-- One step of `run`. `done` is what `doTasks` returns, which is left open.
unfoldable pub advance : Phase → Bool → Worker → Worker
advance starting done s = record s { running = true; phase = locking }
advance locking done s = record s { door = lock s.door; phase = testing }
advance testing done s = record s { phase = if s.running then splicing else exited }
advance splicing done s = record s { pending = 0; phase = running_tasks }
advance running_tasks done s = record s { phase = if done then releasing else locking }
advance releasing done s =
    let (door, free) = release s.door in
    record s { door = door; phase = if free then waiting else locking }
advance waiting done s = s
advance exited done s = s

-- waitEvent returns when the eventfd can be read, which resets it.
unfoldable pub wake : Worker → Worker
wake s = record s { bell = 0; phase = locking }

pub data Step (s : Worker) : Worker → Type 0 where
  pushes : Step s (push s)
  logs_in : (rest : ℕ) → s.pushed ≡ suc rest → Step s (log_in s rest)
  rings : (rest : ℕ) → s.ringing ≡ suc rest → Step s (ring s rest)
  stops : Step s (stop_run s)
  rings_stop : (rest : ℕ) → s.stopping ≡ suc rest → Step s (ring_stop s rest)
  advances : (done : Bool) → Step s (advance s.phase done s)
  wakes : s.phase ≡ waiting → 0 < s.bell → Step s (wake s)

-- A worker as its constructors make it, with the count that creatEventFd gives.
abbrev pub new_worker : Worker
new_worker = record {
  door = 0;
  running = false;
  bell = 1;
  phase = starting;
  pending = 0;
  pushed = 0;
  ringing = 0;
  stopping = 0;
}

pub data Reach : Worker → Type 0 where
  start : Reach new_worker
  later : {s t : Worker} → Reach s → Step s t → Reach t
  -- poll(2) is interrupted, and `wait` returns.
  interrupted : {s : Worker} → Reach s → s.phase ≡ waiting → Reach (record s { phase = locking })
