-- ===== src/Webhooks/Tests.antt =====
-- The webhooks on small objects, and their theorems at them.
use singbox_operator.Engine.Policies.{policies_for_node}
use singbox_operator.Engine.Config.{compute_config}
use singbox_operator.Base.{inl, true, [], ◌∷◌, ◌≡◌, refl, is_empty}
use singbox_operator.Api.Objects.{SingBoxNode, has_role}
use singbox_operator.Webhooks.Errors.{invalid, element}
use singbox_operator.Webhooks.Nodes.{
  in_node_port_range, is_valid_hostname, address_errors, protocol_errors, port_errors, role_errors,
  entry_errors, inbound_errors, validate_sing_box_node,
}
use singbox_operator.Webhooks.Admitted.{valid_node, validate_sing_box_node_iff}
use singbox_operator.Webhooks.Served.{validate_sing_box_node-compute_config}
use singbox_operator.Samples.{platform, webhook, sample_input, entry_node}

-- What a run of the webhook unfolds.
program : Unit {0}
unfolding validate_sing_box_node inbound_errors entry_errors role_errors port_errors protocol_errors
    address_errors is_valid_hostname in_node_port_range
program = tt

-- Two protocols on one port in the range, and an empty entry.
abbrev clash : SingBoxNode
clash = record entry_node {
  spec = record entry_node.spec {
    supported_protocols =
        record { protocol = "hysteria2"; port = 30001 }
        ∷ record { protocol = "tuic"; port = 30001 }
        ∷ [];
    allowed_outbounds = "" ∷ [];
  };
}

clash_errors :
    validate_sing_box_node platform webhook clash
    ≡ invalid (element "spec.supportedProtocols" 0 "port")
      ∷ invalid (element "spec.supportedProtocols" 1 "port")
      ∷ invalid (element "spec.supportedProtocols" 1 "port")
      ∷ invalid (element "spec.allowedOutbounds" 0 "")
      ∷ []
unfolding program
clash_errors = refl

entry_admitted : is_empty (validate_sing_box_node platform webhook entry_node) ≡ true
unfolding program
entry_admitted = refl

validate_sing_box_node_iff_example :
    is_empty (validate_sing_box_node platform webhook clash) ≡ valid_node platform webhook clash
validate_sing_box_node_iff_example = validate_sing_box_node_iff platform webhook clash

entry_inbound : has_role entry_node "inbound" ≡ true
unfolding has_role
entry_inbound = refl

validate_sing_box_node-compute_config_example :
    is_empty (compute_config platform sample_input).inbounds ≡ is_empty sample_input.users
unfolding has_role policies_for_node
validate_sing_box_node-compute_config_example =
    validate_sing_box_node-compute_config platform webhook sample_input entry_admitted entry_inbound
      refl refl (inl refl)
