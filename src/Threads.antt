-- ===== src/Threads.antt =====
-- sysprog/lecture_examples/6_threads: threads that share memory, as relations between the states
-- before and after a step.
pub mod Totals
pub mod Futex
pub mod Detach
pub mod Stacks
pub mod BadDetach
pub mod Condvar
