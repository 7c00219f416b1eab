-- ===== src/Controllers/Client.antt =====
-- The Kubernetes client, as the answers that its calls give during one reconciliation.
use singbox_operator.Base.{String, Option, List, StringMap}
use singbox_operator.Api.Objects.{SingBoxNode, ExternalOutbound, User, UserGroup, EgressPolicy}

-- `failed` is an error other than NotFound.
pub data Got {ℓ} (A : Type ℓ) : Type ℓ where
  found : A → Got A
  not_found failed : Got A

-- A list call is by namespace, and `none` is its error. A get call is by namespace and name.
pub record Client : Type 0 where
  pub list_nodes : String → Option (List SingBoxNode)
  pub list_externals : String → Option (List ExternalOutbound)
  pub list_users : String → Option (List User)
  pub list_policies : String → Option (List EgressPolicy)
  pub get_node : String → String → Got SingBoxNode
  pub get_group : String → String → Got UserGroup
  -- The data of a Secret.
  pub get_secret : String → String → Got (StringMap String)
