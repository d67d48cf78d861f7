-- ===== src/Task/Shared.antt =====
-- One task of a worker (class Pooler of tasker.cpp), shared by any number of producers, which check
-- events in and then push the task, and by the worker, which splices the queue, locks the task, runs
-- it and releases it. Each step is one access to shared memory, or one section under the pool's lock.
pub mod Shapes
pub mod Arrived
pub mod CheckIn
pub mod Visits
pub mod Invariant
pub mod Arrivals
pub mod Lost
use high_perf_server.Base.{
  ℕ, suc, ◌+◌, ◌≡◌, Bool, true, false, ◌||◌, not, ◌&&◌, ◌==◌, ltb, leb, if◌then◌else◌,
}
use high_perf_server.Events.{bit_event_norm, bit_event_end, bit_event_in}
use high_perf_server.Task.Door.{is_eof, lock, checkin}
use high_perf_server.Task.Pooler.{do_task, finish_task}

-- Where the worker stands: elsewhere, or in the task, with the word that it found there.
pub data Visit : Type 0 where
  away : Visit
  inside : ℕ → Visit

pub record Shared : Type 0 where
  pub word : ℕ  -- `m_state` of the task
  pub adding : ℕ  -- producers between `checkin` and `__add`
  pub lock_root : ℕ  -- how often the task stands in `m_lock_root`
  pub safe_root : ℕ  -- and in `m_safe_root`, but for the place where it is being run
  pub visit : Visit
  pub gone : Bool  -- the worker has dropped the task for good
  pub ends : ℕ  -- calls of `procTaskEnd`

abbrev pub visits : Visit → ℕ
visits away = 0
visits (inside _) = 1

-- The claims on the task: places in a queue, held or about to be taken.
abbrev pub claims : Shared → ℕ
claims s = s.adding + s.lock_root + s.safe_root + visits s.visit

-- Events for which `consume` takes its last branch: the task is out of the queue, and stays locked.
abbrev pub leaves : ℕ → Bool
leaves ret = not (leb bit_event_norm ret && ltb ret bit_event_end) && not (ret == bit_event_in)

unfoldable pub check_in : Shared → ℕ → Shared
check_in s ev =
    let (word, added) = checkin s.word ev in
    record s { word = word; adding = if added then suc s.adding else s.adding }

unfoldable pub visit_task : Shared → ℕ → Shared
visit_task s rest =
    let (word, old) = lock s.word in record s { word = word; safe_root = rest; visit = inside old }

-- The word changes and the node is unlinked in one step. A producer that pushes the node in between
-- writes its link, which the worker has read before.
unfoldable pub leave_task : Shared → ℕ → ℕ → Shared
leave_task s old ret =
    let event = do_task old ret in
    let (word, done) = finish_task s.word event in
    record s {
      word = word;
      visit = away;
      safe_root = if done then s.safe_root else suc s.safe_root;
      gone = s.gone || leaves event;
      ends = if is_eof old then suc s.ends else s.ends;
    }

-- The steps; `ret` is what the worker's `procTask` returns, which is left open.
pub data Step (s : Shared) : Shared → Type 0 where
  checks_in : (ev : ℕ) → Step s (check_in s ev)
  adds :
      (rest : ℕ)
      → s.adding ≡ suc rest
      → Step s (record s { adding = rest; lock_root = suc s.lock_root })
  splices : Step s (record s { lock_root = 0; safe_root = s.safe_root + s.lock_root })
  locks : (rest : ℕ) → s.safe_root ≡ suc rest → s.visit ≡ away → Step s (visit_task s rest)
  finishes : (old ret : ℕ) → s.visit ≡ inside old → Step s (leave_task s old ret)

-- A task as INIT_TASK makes it.
abbrev pub fresh_task : Shared
fresh_task = record {
  word = 0;
  adding = 0;
  lock_root = 0;
  safe_root = 0;
  visit = away;
  gone = false;
  ends = 0;
}

pub data Reach : Shared → Type 0 where
  start : Reach fresh_task
  later : {s t : Shared} → Reach s → Step s t → Reach t
