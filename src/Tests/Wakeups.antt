-- ===== src/Tests/Wakeups.antt =====
-- A run of a worker (tasker.cpp) in which a push meets the worker on its way to sleep.
use high_perf_server.Base.{◌+◌, ◌<◌, refl, true, false, arith}
use high_perf_server.Task.Atomic.{set_bit, cas_bit}
use high_perf_server.Task.Binary.{lock, release}
use high_perf_server.Task.Wakeup.{
  Worker, running_tasks, waiting, push, stop_run, advance, pushes, stops, advances, Reach, start,
  later,
}
use high_perf_server.Task.Wakeup.Invariant.{work_is_announced, stop_is_announced}
use high_perf_server.Task.Wakeup.Waking.{Woken, work_is_found}

-- The worker has found nothing to do, and a producer pushes before it releases the door.
abbrev idle : Worker
idle = record {
  door = 1;
  running = true;
  bell = 1;
  phase = running_tasks;
  pending = 0;
  pushed = 0;
  ringing = 0;
  stopping = 0;
}

idle-Reach : Reach idle
unfolding advance lock set_bit
idle-Reach =
    later (later (later (later start (advances true)) (advances true)) (advances true))
      (advances true)

abbrev asleep : Worker
asleep = record idle { door = 0; phase = waiting; pending = 1; pushed = 1 }

asleep-Reach : Reach asleep
unfolding advance push release cas_bit
asleep-Reach = later (later (later idle-Reach (advances true)) pushes) (advances true)

abbrev stopped : Worker
stopped = record asleep { running = false; stopping = 1 }

stopped-Reach : Reach stopped
unfolding stop_run
stopped-Reach = later asleep-Reach stops

work_is_announced_example : 0 < asleep.bell + asleep.ringing + asleep.pushed
work_is_announced_example = work_is_announced asleep-Reach refl refl (omega arith)

stop_is_announced_example : 0 < stopped.bell + stopped.stopping
stop_is_announced_example = stop_is_announced stopped-Reach refl refl

work_is_found_example : Woken asleep
work_is_found_example = work_is_found asleep-Reach refl refl (omega arith)
