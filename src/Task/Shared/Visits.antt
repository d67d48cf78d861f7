-- ===== src/Task/Shared/Visits.antt =====
-- The worker's part: Pooler::consume (tasker.cpp) locks a task, runs it and lets go of it.
use high_perf_server.Base.{
  ℕ, suc, ◌+◌, ◌≤◌, ◌<◌, ◌≡◌, refl, ap, ◌∙◌, inl, inr, Bool, true, false, ◌||◌, arith, ◌==◌,
  Bool-cases, dec_lt, ℕ_discrete, if◌then◌else◌,
}
use high_perf_server.Base.Bits.{bit, bit-le}
use high_perf_server.Task.Door.Words.{low, high}
use high_perf_server.Task.Door.Laws.{
  Covered, NoHigh, Marked, NoHigh-small, bit-checkout, checkout_no, checkout_yes, release_one,
  release_other, lock_lem,
}
use high_perf_server.Task.Door.{is_eof, checkout, release}
use high_perf_server.Task.Pooler.{do_task, finish_task}
use high_perf_server.Task.Shared.{
  Shared, Visit, away, inside, visits, claims, leaves, visit_task, leave_task,
}
use high_perf_server.Task.Shared.Shapes.{
  Plain, Busy, Waiting, Gone, Shape, busy, idle, waiting, gone,
}

-- What `finish_task` does, by the event.
data Verdict (w ret : ℕ) : Type 0 where
  frees : ret ≡ 1 → finish_task w ret ≡ release w → Verdict w ret
  awaits : 2 ≤ ret → ret < 15 → finish_task w ret ≡ checkout w ret → Verdict w ret
  stays : ret ≡ 17 → finish_task w ret ≡ (w, false) → Verdict w ret
  drops : leaves ret ≡ true → finish_task w ret ≡ (w, true) → Verdict w ret

pub finish_norm : (w : ℕ) → finish_task w 1 ≡ release w
unfolding finish_task
finish_norm w = refl

pub finish_event : (w ret : ℕ) → 2 ≤ ret → ret < 15 → finish_task w ret ≡ checkout w ret
unfolding finish_task
finish_event w ret a b = ground arith

verdict : (w ret : ℕ) → Verdict w ret
unfolding finish_task
verdict w ret = elim (ℕ_discrete ret 1) [
  | yes e ↦ frees e (ground arith)
  | no n ↦ elim (ℕ_discrete ret 17) [
    | yes e ↦ stays e (ground arith)
    | no m ↦ elim (dec_lt ret 15) [
      | no h ↦ drops (ground arith) (ground arith)
      | yes h ↦ elim (dec_lt ret 1) [
        | yes z ↦ drops (ground arith) (ground arith)
        | no p ↦ awaits (omega arith) h (ground arith)
      ]
    ]
  ]
]

-- The state after `leave_task`, when the task has not ended and when it has.
module _ (s : Shared) (old ret : ℕ) where
  pub leave_going :
      (w : ℕ) (done : Bool)
      → is_eof old ≡ false
      → finish_task s.word ret ≡ (w, done)
      → leave_task s old ret ≡ record s {
        word = w;
        visit = away;
        safe_root = if done then s.safe_root else suc s.safe_root;
        gone = s.gone || leaves ret;
      }
  unfolding leave_task do_task
  leave_going w done e f = rw (e, f)

  leave_ended :
      is_eof old ≡ true
      → leave_task s old ret ≡ record s { visit = away; gone = s.gone || true; ends = suc s.ends }
  unfolding leave_task do_task finish_task
  leave_ended e = rw e

or_true : (b : Bool) → (b || true) ≡ true
or_true true = refl
or_true false = refl

module _ (s : Shared) (old : ℕ) (at : s.visit ≡ inside old) (v : Busy s) where
  visited : visits s.visit ≡ 1
  visited = rw at

  pub word_NoHigh : NoHigh s.word
  word_NoHigh = plain s.visit at v.plain
    where
      plain : (u : Visit) → u ≡ inside old → Plain u s.word → NoHigh s.word
      plain away e p = cc
      plain (inside o) e p = p

  ended-Gone : (ret : ℕ) → is_eof old ≡ true → Gone (leave_task s old ret)
  ended-Gone ret e = rw (leave_ended s old ret e) (record {
    none = omega (arith, v.one, visited);
    gone = or_true s.gone;
    once = omega (arith, v.fresh);
    marked = v.marked;
    covered = v.covered;
  })

  module _ (ret : ℕ) (on : is_eof old ≡ false) where
    -- The task stays in the queue.
    kept :
        (w : ℕ)
        → finish_task s.word ret ≡ (w, false)
        → leaves ret ≡ false
        → Marked w
        → Covered w
        → Busy (leave_task s old ret)
    kept w f l m c = rw (leave_going s old ret w false on f) (record {
      one = omega (arith, v.one, visited);
      here = rw (v.here, l);
      fresh = v.fresh;
      marked = m;
      covered = c;
      plain = tt;
    })

    NoHigh-Covered : (w : ℕ) → NoHigh w → Covered w
    NoHigh-Covered w h i e = absurd (omega (arith, h i))

    freed : ret ≡ 1 → finish_task s.word ret ≡ release s.word → Shape (leave_task s old ret)
    freed e f = elim (ℕ_discrete s.word 1) [
      | yes o ↦ idle (
          rw (leave_going s old ret 0 true on (f ∙ ap release o ∙ release_one)) (record {
            none = omega (arith, v.one, visited);
            here = rw (v.here, e);
            fresh = v.fresh;
            clear = refl;
          }))
      | no n ↦ busy (kept s.word (f ∙ release_other s.word n) (rw e) v.marked v.covered)
    ]

    -- The task waits, unless the event has arrived in the meantime.
    module _ (a : 2 ≤ ret) (b : ret < 15) (f : finish_task s.word ret ≡ checkout s.word ret) where
      abbrev next : ℕ
      next = (checkout s.word ret).0

      next-high : (i : ℕ) → high i next ≡ (if i == ret then 1 else 0)
      next-high i = bit-checkout (i + 16) s.word ret (omega arith) ∙ ground (arith, word_NoHigh i)

      next-low : (i : ℕ) → i < 16 → low i next ≡ low i s.word
      next-low i h = bit-checkout i s.word ret (omega arith) ∙ ground arith

      not_leaves : leaves ret ≡ false
      not_leaves = ground arith

      arrived : low ret s.word ≡ 1 → Shape (leave_task s old ret)
      arrived l = busy (
          kept next
            (f
              ∙ ap (λ (d : Bool). (next, d))
                  (checkout_no s.word ret (omega arith) l (word_NoHigh ret)))
            not_leaves (ret, next-low ret (omega arith) ∙ l)
            (λ i h. ground (arith, next-high i, h, next-low ret (omega arith), l)))

      pub not_arrived : low ret s.word ≡ 0 → Waiting (leave_task s old ret) ret
      not_arrived l =
          (rw
            (leave_going s old ret next true on
              (f ∙ ap (λ (d : Bool). (next, d)) (checkout_yes s.word ret (omega arith) l)))
            (record {
              none = omega (arith, v.one, visited);
              here = rw (v.here, not_leaves);
              fresh = v.fresh;
              awaits = (next-high ret ∙ ground arith, next-low ret (omega arith) ∙ l);
              alone = λ i h. ground (arith, next-high i, h.0);
              event = (a, b);
            }))

      awaiting : Shape (leave_task s old ret)
      awaiting = elim (ℕ_discrete (low ret s.word) 1) [
        | yes e ↦ arrived e
        | no n ↦ waiting ret (not_arrived (omega (arith, bit-le ret s.word)))
      ]

    dropped :
        leaves ret ≡ true → finish_task s.word ret ≡ (s.word, true) → Gone (leave_task s old ret)
    dropped l f = rw (leave_going s old ret s.word true on f) (record {
      none = omega (arith, v.one, visited);
      gone = rw l (or_true s.gone);
      once = omega (arith, v.fresh);
      marked = v.marked;
      covered = v.covered;
    })

    going : Shape (leave_task s old ret)
    going = elim (verdict s.word ret) [
      | frees e f ↦ freed e f
      | awaits a b f ↦ awaiting a b f
      | stays e f ↦ busy (kept s.word f (rw e) v.marked v.covered)
      | drops l f ↦ gone (dropped l f)
    ]

  pub leave_task-Busy : (ret : ℕ) → Shape (leave_task s old ret)
  leave_task-Busy ret = elim (Bool-cases (is_eof old)) [
    | inl e ↦ gone (ended-Gone ret e)
    | inr e ↦ going ret e
  ]

-- Only a task with a claim is run, or can be pushed, or locked.
pub none_visited : (s : Shared) (old : ℕ) → s.visit ≡ inside old → claims s ≡ 0 → ⊥
none_visited s old e h = omega (arith, ap visits e)

pub leave_task-Shape :
    (s : Shared) (old ret : ℕ) → s.visit ≡ inside old → Shape s → Shape (leave_task s old ret)
leave_task-Shape s old ret e (busy v) = leave_task-Busy s old e v ret
leave_task-Shape s old ret e (idle v) = absurd (none_visited s old e v.none)
leave_task-Shape s old ret e (waiting ev v) = absurd (none_visited s old e v.none)
leave_task-Shape s old ret e (gone v) = absurd (none_visited s old e v.none)

pub visit_task_lem :
    (s : Shared) (rest : ℕ)
    → visit_task s rest ≡ record s { word = 1; safe_root = rest; visit = inside s.word }
unfolding visit_task
visit_task_lem s rest = rw (lock_lem s.word)

pub visit_task-Shape :
    (s : Shared) (rest : ℕ)
    → s.safe_root ≡ suc rest
    → s.visit ≡ away
    → Shape s
    → Shape (visit_task s rest)
visit_task-Shape s rest e f (busy v) = rw (visit_task_lem s rest) (
    busy (record {
      one = omega (arith, v.one, ap visits f, e);
      here = v.here;
      fresh = v.fresh;
      marked = (0, unfold bit in refl);
      covered = λ i h. absurd (omega (arith, h, NoHigh-small 1 (omega arith) i));
      plain = NoHigh-small 1 (omega arith);
    }))
visit_task-Shape s rest e f (idle v) = absurd (omega (arith, v.none, e))
visit_task-Shape s rest e f (waiting ev v) = absurd (omega (arith, v.none, e))
visit_task-Shape s rest e f (gone v) = absurd (omega (arith, v.none, e))
