-- ===== src/Fuzzer.antt =====
-- fuzzer.h and fuzzer.cpp, class Fuzzer: the queue of samples, the jobs that threads take from it,
-- and the states of a session. What the children model is in their comments.
pub mod Entries
pub mod Minimizer
pub mod Minimized
pub mod Stable
pub mod Queue
pub mod Schedule
pub mod Handout
pub mod Threads
pub mod Saved
pub mod Magic
pub mod Order
pub mod Consistent
pub mod Jobs
pub mod Invariant
pub mod Session
pub mod Waiting
mod Examples
