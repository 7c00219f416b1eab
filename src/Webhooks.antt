-- ===== src/Webhooks.antt =====
-- The admission webhooks: internal/webhook. Each validation returns the list of its field errors;
-- the webhook admits an object when the list is empty (`ToAggregate` is then nil), on creation and
-- on update alike, and admits every deletion.
pub mod Errors
pub mod Nodes
pub mod Policies
pub mod Users
pub mod Externals
pub mod Admitted
pub mod Served
mod Tests
