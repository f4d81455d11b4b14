-- ===== src/Growth.antt =====
-- What a run of any part of controllers/ does to the trace as a whole: it only adds calls, so that what
-- grows with each call is not smaller after the run than before it; and the time slept is bounded.
pub mod Machines
pub mod Extends
pub mod Rounds
pub mod Cost
pub mod Sleeping
