-- ===== src/Fleet.antt =====
-- The machines of a control plane over many rounds of `Reconcile`: what an API server that keeps them
-- answers, as a number of machines that depends on the calls so far.
pub mod Count
pub mod Deletes
pub mod Round
pub mod Sizes
pub mod Serving
pub mod Progress
pub mod Renewal
pub mod Removal
