-- ===== src/Tests/Tasks.antt =====
-- Runs of one shared task (tasker.cpp), at which the theorems on tasks are applied.
use high_perf_server.Base.{◌≤◌, ◌≡◌, ◌≢◌, refl, true, false, none, some, [], ◌∷◌, arith}
use high_perf_server.Task.Atomic.{
  Added, add_bit, set_bit, is_member, Among, word_after, add_bit_loop, add_bit_run,
  add_bit_run-add_bit, add_bit_run_ends,
}
use high_perf_server.Task.Door.{low_bits, high_bits, mask_bits, is_eof, lock, checkin, checkout}
use high_perf_server.Task.Pooler.{do_task, finish_task}
use high_perf_server.Task.Shared.{
  Shared, inside, claims, check_in, visit_task, leave_task, checks_in, adds, splices, locks,
  finishes, Reach, start, later, fresh_task,
}
use high_perf_server.Task.Shared.Invariant.{here, there, queued_once, ended_once, gone_for_good}
use high_perf_server.Task.Shared.Lost.{now, next, Noticed, never_lost}

-- An event makes a producer push the task, and the worker takes it.
abbrev checked : Shared
checked = check_in fresh_task 1

abbrev pushed : Shared
pushed = record checked { adding = 0; lock_root = 1 }

abbrev spliced : Shared
spliced = record pushed { lock_root = 0; safe_root = 1 }

abbrev visited : Shared
visited = visit_task spliced 0

-- Its run ends in a wait for event 2, or in its removal.
abbrev left : Shared
left = leave_task visited 2 2

abbrev removed : Shared
removed = leave_task visited 2 0

pushed-Reach : Reach pushed
unfolding check_in checkin add_bit low_bits high_bits mask_bits
pushed-Reach = later (later start (checks_in 1)) (adds 0 refl)

visited-Reach : Reach visited
unfolding check_in checkin add_bit low_bits high_bits mask_bits
visited-Reach = later (later pushed-Reach splices) (locks 0 refl refl)

in_two : visited.visit ≡ inside 2
unfolding visit_task lock set_bit check_in checkin add_bit low_bits high_bits mask_bits
in_two = refl

removed-Reach : Reach removed
removed-Reach = later visited-Reach (finishes 2 0 in_two)

removed_gone : removed.gone ≡ true
unfolding leave_task do_task finish_task checkout is_eof is_member visit_task lock set_bit check_in
    checkin add_bit low_bits high_bits mask_bits
removed_gone = refl

queued_once_example : claims visited ≤ 1
queued_once_example = queued_once visited-Reach

ended_once_example : removed.ends ≤ 1
ended_once_example = ended_once removed-Reach

gone_for_good_example : ((check_in removed 15).gone ≡ true) × (claims (check_in removed 15) ≡ 0)
gone_for_good_example = gone_for_good removed-Reach removed_gone (there here (checks_in 15))

-- Another thread sets flag 1 between the two attempts of a call that sets flag 2.
raced : Added
raced = record { old = 1; stored = some 3 }

raced_run : add_bit_run 2 (1 ∷ 1 ∷ []) ≡ some raced
unfolding add_bit_run add_bit_loop raced
raced_run = refl

add_bit_run-add_bit_example :
    Among raced.old (1 ∷ 1 ∷ []) × (add_bit raced.old 2 ≡ (word_after raced, raced.old))
add_bit_run-add_bit_example =
    add_bit_run-add_bit 2 (1 ∷ 1 ∷ []) raced (λ e. omega (arith, e)) raced_run

add_bit_run_ends_example : add_bit_run 2 (1 ∷ 1 ∷ []) ≢ none
add_bit_run_ends_example = add_bit_run_ends 2 1 [] []

visited_on : is_eof 2 ≡ false
unfolding is_eof is_member low_bits
visited_on = refl

-- Event 3 comes while the task is run, then event 1, and the run ends in a wait for event 2.
abbrev interrupted : Shared
interrupted = check_in (check_in visited 3) 1

interrupted-visit : interrupted.visit ≡ inside 2
unfolding visit_task lock set_bit check_in checkin add_bit low_bits high_bits mask_bits
interrupted-visit = refl

never_lost_example : Noticed 3 2 (leave_task interrupted 2 2)
never_lost_example =
    never_lost 2 3 2 visited-Reach in_two visited_on (omega arith) (omega arith)
      (next now (checks_in 1) interrupted-visit) (omega arith) (omega arith)
