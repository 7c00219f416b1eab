-- ===== src/ApiServer.antt =====
-- The subscription API: internal/apiserver. It computes the configuration of a client.
pub mod Targets
pub mod Endpoints
pub mod Outbounds
pub mod Policies
pub mod Config
pub mod Json
pub mod Default
pub mod Requests
pub mod Encoded
pub mod Handler
pub mod Authorised
pub mod Granted
pub mod Collected
pub mod Relayed
pub mod Dns
pub mod Template
pub mod DnsTags
pub mod DnsDistinct
pub mod Managed
pub mod Merged
pub mod Apart
pub mod Offered
pub mod Reached
pub mod Unreached
pub mod Logins
pub mod Grouped
pub mod Offers
pub mod Dangling
mod Tests
mod EntryTests
mod ConfigTests
mod TemplateTests
mod HandlerTests
mod RelayedTests
