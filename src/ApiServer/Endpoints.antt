-- ===== src/ApiServer/Endpoints.antt =====
-- findEntryEndpoint and supportsProtocol: internal/apiserver/client_config.go; isSingBoxNodeReady:
-- handler.go.
use Prim.Native.Char.{Char, code}
use singbox_operator.Base.{
  nat_eq, String, Bool, true, not, Option, none, some, List, [], ◌∷◌, any, cut_at, atoi, ℤ, ◌==◌,
  if◌then◌else◌,
}
use singbox_operator.Api.Objects.{Condition, SingBoxNode}
use singbox_operator.Api.Conditions.{find_condition}

abbrev pub is_colon : Char → Bool
is_colon c = nat_eq (code c) b':'

pub record Parts : Type 0 where
  pub protocol : String
  pub address : String
  pub port : String

-- strings.SplitN(ep, ":", 3), where it has three parts.
unfoldable pub split_three : String → Option Parts
split_three ep = elim (cut_at is_colon ep) [
  | none ↦ none
  | some (a, rest) ↦ elim (cut_at is_colon rest) [
    | none ↦ none
    | some (b, c) ↦ some (record { protocol = a; address = b; port = c })
  ]
]

pub record Endpoint : Type 0 where
  pub address : String
  pub port : ℤ

abbrev pub with_port : String → Option ℤ → Option Endpoint
with_port address none = none
with_port address (some n) = some (record { address = address; port = n })

-- The endpoint that one text gives for a protocol; the loop goes on where it gives none.
abbrev pub endpoint_of : String → Option Parts → Option Endpoint
endpoint_of protocol none = none
endpoint_of protocol (some p) =
    if not (p.protocol == protocol) then none else with_port p.address (atoi p.port)

unfoldable pub find_entry_endpoint : List String → String → Option Endpoint
find_entry_endpoint [] protocol = none
find_entry_endpoint (ep ∷ eps) protocol = elim (endpoint_of protocol (split_three ep)) [
  | none ↦ find_entry_endpoint eps protocol
  | some e ↦ some e
]

unfoldable pub supports_protocol : SingBoxNode → String → Bool
supports_protocol node protocol = any (λ p. p.protocol == protocol) node.spec.supported_protocols

-- A node without the condition is ready.
abbrev pub is_true_or_absent : Option Condition → Bool
is_true_or_absent none = true
is_true_or_absent (some c) = c.status == "True"

unfoldable pub is_sing_box_node_ready : SingBoxNode → Bool
is_sing_box_node_ready node = is_true_or_absent (find_condition "NodeReady" node.status.conditions)
