-- ===== src/Kept.antt =====
-- What a round of `Reconcile` leaves alone of the control plane object that it patches at its end.
pub mod Unchanged
pub mod Machines
pub mod Rounds
