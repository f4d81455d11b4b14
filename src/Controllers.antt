-- ===== src/Controllers.antt =====
-- The package controllers/.
pub mod Kubeconfig
pub mod Owned
pub mod Boot
pub mod ScaleDown
pub mod Upgrade
pub mod Machines
pub mod Delete
pub mod Status
pub mod Reconcile
