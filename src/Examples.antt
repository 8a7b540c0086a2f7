-- ===== src/Examples.antt =====
-- The theorems applied to concrete inputs.
mod Jobs
mod Storage
mod Machine
mod Retries
mod Lvm
mod Images
mod Work
mod Api
mod Daemon
