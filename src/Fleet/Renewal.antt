-- ===== src/Fleet/Renewal.antt =====
-- A rolling upgrade over many rounds of `Reconcile`.
pub mod Plan
pub mod Server
pub mod Boot
pub mod Scale
pub mod Machines
pub mod Rounds
