-- ===== src/Task.antt =====
-- The scheduling of tasks (tasker.h, tasker.cpp): the words that hold the events of a task, the
-- queues of a worker, and the door by which a worker sleeps and is woken.
pub mod Atomic
pub mod Door
pub mod Pooler
pub mod Shared
pub mod Binary
pub mod Wakeup
