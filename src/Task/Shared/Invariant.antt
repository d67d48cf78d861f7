-- ===== src/Task/Shared/Invariant.antt =====
-- A task that any number of producers share with its worker (class Pooler of tasker.cpp): its shape,
-- its places in the queues and its events in the states that it reaches.
use high_perf_server.Base.{ℕ, suc, ◌+◌, ◌≤◌, ◌<◌, ◌≡◌, refl, ap, ◌∙◌, true, arith}
use high_perf_server.Task.Door.Words.{Awaits}
use high_perf_server.Task.Shared.{
  Shared, visits, claims, check_in, Step, checks_in, adds, splices, locks, finishes, Reach, start,
  later,
}
use high_perf_server.Task.Shared.Shapes.{Gone, Shape, busy, idle, waiting, gone}
use high_perf_server.Task.Shared.CheckIn.{check_in-Shape}
use high_perf_server.Task.Shared.Visits.{visit_task-Shape, leave_task-Shape}

-- A task that moves from one queue to another has as many claims as before.
module _ (s : Shared) (a l r : ℕ) (same : a + l + r ≡ s.adding + s.lock_root + s.safe_root) where
  abbrev moved : Shared
  moved = record s { adding = a; lock_root = l; safe_root = r }

  claims-moved : claims moved ≡ claims s
  claims-moved = omega (arith, same)

  moved-Shape : Shape s → Shape moved
  moved-Shape (busy v) = busy (record {
    one = claims-moved ∙ v.one;
    here = v.here;
    fresh = v.fresh;
    marked = v.marked;
    covered = v.covered;
    plain = v.plain;
  })
  moved-Shape (idle v) =
      idle
        (record { none = claims-moved ∙ v.none; here = v.here; fresh = v.fresh; clear = v.clear })
  moved-Shape (waiting ev v) = waiting ev (record {
    none = claims-moved ∙ v.none;
    here = v.here;
    fresh = v.fresh;
    awaits = v.awaits;
    alone = v.alone;
    event = v.event;
  })
  moved-Shape (gone v) = gone (record {
    none = claims-moved ∙ v.none;
    gone = v.gone;
    once = v.once;
    marked = v.marked;
    covered = v.covered;
  })

Step-Shape : {s t : Shared} → Step s t → Shape s → Shape t
Step-Shape {s} (checks_in ev) v = check_in-Shape s ev v
Step-Shape {s} (adds rest e) v =
    moved-Shape s rest (suc s.lock_root) s.safe_root (omega (arith, e)) v
Step-Shape {s} splices v = moved-Shape s s.adding 0 (s.safe_root + s.lock_root) (omega arith) v
Step-Shape {s} (locks rest e f) v = visit_task-Shape s rest e f v
Step-Shape {s} (finishes old ret e) v = leave_task-Shape s old ret e v

pub Reach-Shape : {s : Shared} → Reach s → Shape s
Reach-Shape start = idle (record { none = refl; here = refl; fresh = refl; clear = refl })
Reach-Shape (later r step) = Step-Shape step (Reach-Shape r)

Shape-claims : (s : Shared) → Shape s → claims s ≤ 1
Shape-claims s (busy v) = omega (arith, v.one)
Shape-claims s (idle v) = omega (arith, v.none)
Shape-claims s (waiting ev v) = omega (arith, v.none)
Shape-claims s (gone v) = omega (arith, v.none)

-- In every state that a task reaches by check-ins of any events, pushes, splices and runs with any
-- results, in any order, the producers that are about to push it, its places in the two queues and
-- the run of it together are at most one. So no node of it is linked into a queue twice.
pub queued_once : {s : Shared} → Reach s → claims s ≤ 1
queued_once {s} r = Shape-claims s (Reach-Shape r)

Shape-ends : (s : Shared) → Shape s → s.ends ≤ 1
Shape-ends s (busy v) = omega (arith, v.fresh)
Shape-ends s (idle v) = omega (arith, v.fresh)
Shape-ends s (waiting ev v) = omega (arith, v.fresh)
Shape-ends s (gone v) = v.once

Shape-gone : (s : Shared) → s.gone ≡ true → Shape s → Gone s
Shape-gone s e (busy v) = cc
Shape-gone s e (idle v) = cc
Shape-gone s e (waiting ev v) = cc
Shape-gone s e (gone v) = v

-- The states that a task reaches from a given one.
pub data From (s : Shared) : Shared → Type 0 where
  here : From s s
  there : {t u : Shared} → From s t → Step t u → From s u

Gone-kept : {t u : Shared} → Gone t → Step t u → u.gone ≡ true
unfolding check_in
Gone-kept v (checks_in ev) = v.gone
Gone-kept v (adds rest e) = v.gone
Gone-kept v splices = v.gone
Gone-kept {t} v (locks rest e f) = absurd (omega (arith, v.none, e))
Gone-kept {t} v (finishes old ret e) = absurd (omega (arith, v.none, ap visits e))

From-Gone : {s t : Shared} → Gone s → From s t → Gone t
From-Gone g here = g
From-Gone {s} g (there {t} {u} f step) =
    let v = From-Gone g f in Shape-gone u (Gone-kept v step) (Step-Shape step (gone v))

-- In every reachable state the end of a task has been processed at most once.
pub ended_once : {s : Shared} → Reach s → s.ends ≤ 1
ended_once {s} r = Shape-ends s (Reach-Shape r)

-- Once the worker has dropped a reachable task, the task stays dropped, in no queue and not run,
-- whatever steps follow.
pub gone_for_good :
    {s t : Shared} → Reach s → s.gone ≡ true → From s t → (t.gone ≡ true) × (claims t ≡ 0)
gone_for_good {s} r e f = let g = From-Gone (Shape-gone s e (Reach-Shape r)) f in (g.gone, g.none)

-- What brings a task with no claim back: any event from 1 to 14 if none has come since it was run,
-- or the one event that its word asks for and has not got.
pub data Answers (s : Shared) : Type 0 where
  to_all : s.word ≡ 0 → ((ev : ℕ) → 1 ≤ ev → ev < 15 → claims (check_in s ev) ≡ 1) → Answers s
  to_one :
      (ev : ℕ)
      → Awaits ev s.word
      → ((i : ℕ) → Awaits i s.word → i ≡ ev)
      → claims (check_in s ev) ≡ 1
      → Answers s
