-- ===== src/Api.antt =====
-- The custom resources of the operator: api/v1alpha1. `Platform` holds the third-party code that
-- the program calls (Kubernetes selectors and name checks, regular expressions, addresses and
-- hashes), as parameters of the model.
pub mod Platform
pub mod Objects
pub mod Conditions
pub mod Selector
