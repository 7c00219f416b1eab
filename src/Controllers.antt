-- ===== src/Controllers.antt =====
-- The controllers (internal/controller) and the secrets they read (internal/credmanager). What a
-- call of the Kubernetes client returns is a field of `Client`; logging and metrics are left out.
pub mod Client
pub mod Credentials
pub mod Health
pub mod Status
pub mod Pods
pub mod Externals
pub mod Policies
pub mod Egress
pub mod Collect
pub mod Nodes
pub mod Users
pub mod Mappers
pub mod Notified
pub mod Triggered
pub mod Accepted
pub mod Resolved
pub mod Stored
pub mod Readiness
pub mod Rollout
pub mod Ended
pub mod Applied
pub mod Known
pub mod Gathered
pub mod Kept
pub mod Collected
pub mod Reconciled
mod RunTests
mod StatusTests
mod Tests
