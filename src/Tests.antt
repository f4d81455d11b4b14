-- ===== src/Tests.antt =====
-- Runs of the model on concrete data, and the theorems at inputs that meet their hypotheses.
mod World
mod Fleet
mod Kubeconfig
mod Nodes
mod Setup
mod Progress
mod Machines
mod Rounds
mod Renewal
mod Removal
mod DeepCopy
mod Kept
