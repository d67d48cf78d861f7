-- ===== src/Task/Pooler.antt =====
-- What the body of the loop of Pooler::consume (tasker.cpp) does with one task.
use high_perf_server.Base.{ℕ, Bool, true, false, ◌&&◌, ltb, leb, ◌==◌, if◌then◌else◌}
use high_perf_server.Events.{bit_event_norm, bit_event_custom, bit_event_end, bit_event_in}
use high_perf_server.Task.Door.{is_eof, release, checkout}

-- Pooler::doTask: the event that it returns when the worker's `procTask` returns `ret`.
unfoldable pub do_task : ℕ → ℕ → ℕ
do_task old_state ret = if is_eof old_state then bit_event_end else ret

-- The new word, and whether the task leaves the queue.
unfoldable pub finish_task : ℕ → ℕ → ℕ × Bool
finish_task state ret =
    if leb bit_event_norm ret && ltb ret bit_event_custom
    then release state
    else if leb bit_event_custom ret && ltb ret bit_event_end
    then checkout state ret
    else if ret == bit_event_in
    then (state, false)
    else (state, true)
