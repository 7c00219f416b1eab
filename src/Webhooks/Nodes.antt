-- ===== src/Webhooks/Nodes.antt =====
-- internal/webhook/singboxnode_webhook.go
use singbox_operator.Base.{
  ℕ, suc, String, Bool, false, not, ◌&&◌, ◌||◌, List, [], ◌∷◌, ◌++◌, if◌then◌else◌, ◌==◌, ltb, leb,
  nat_eq, length, is_empty, any, contains, bytes,
}
use singbox_operator.Api.Platform.{Platform}
use singbox_operator.Api.Objects.{ProtocolConfig, SingBoxNode, role_inbound, role_outbound}
use singbox_operator.Webhooks.Errors.{
  field, element, FieldError, required, invalid, duplicate, not_supported, report,
}

-- SingBoxNodeWebhook. Ports and the range are natural numbers.
pub record SingBoxNodeWebhook : Type 0 where
  pub node_port_range_min : ℕ
  pub node_port_range_max : ℕ

unfoldable pub in_node_port_range : SingBoxNodeWebhook → ℕ → Bool
in_node_port_range w port =
    if nat_eq w.node_port_range_min 0 && nat_eq w.node_port_range_max 0
    then false
    else leb w.node_port_range_min port && leb port w.node_port_range_max

-- `len` counts bytes; a space is one byte in UTF-8.
unfoldable pub is_valid_hostname : String → Bool
is_valid_hostname hostname =
    let n = length (bytes hostname) in
    if nat_eq n 0 || ltb 253 n then false else not (any (λ c. nat_eq c 32) (bytes hostname))

unfoldable pub address_errors : Platform → String → List FieldError
address_errors p address =
    if address == ""
    then required (field "spec.address") ∷ []
    else if p.parses_ip address
    then []
    else report (not (is_valid_hostname address)) (invalid (field "spec.address"))

-- The loop at index `i`, with the protocols seen before.
unfoldable pub protocol_errors : ℕ → List String → List ProtocolConfig → List FieldError
protocol_errors i seen [] = []
protocol_errors i seen (c ∷ cs) =
    report (contains seen c.protocol) (duplicate (element "spec.supportedProtocols" i "protocol"))
    ++ protocol_errors (suc i) (c.protocol ∷ seen) cs

abbrev pub has_port : List ℕ → ℕ → Bool
has_port ports k = any (λ p. nat_eq p k) ports

abbrev pub port_error : SingBoxNodeWebhook → ℕ → List ℕ → ℕ → List FieldError
port_error w i used port =
    if nat_eq port 0
    then []
    else (report (has_port used port) (invalid (element "spec.supportedProtocols" i "port"))
        ++ report (in_node_port_range w port)
            (invalid (element "spec.supportedProtocols" i "port")))

-- The loop at index `i`, with the ports used before.
unfoldable pub port_errors : SingBoxNodeWebhook → ℕ → List ℕ → List ProtocolConfig → List FieldError
port_errors w i used [] = []
port_errors w i used (c ∷ cs) =
    port_error w i used c.port
    ++ port_errors w (suc i) (if nat_eq c.port 0 then used else c.port ∷ used) cs

abbrev pub is_known_role : String → Bool
is_known_role role = role == role_inbound || role == role_outbound

unfoldable pub role_errors : ℕ → List String → List FieldError
role_errors i [] = []
role_errors i (r ∷ rs) =
    report (not (is_known_role r)) (not_supported (element "spec.roles" i ""))
    ++ role_errors (suc i) rs

-- The loops on allowedInbounds and allowedOutbounds, which differ in their path.
unfoldable pub entry_errors : String → ℕ → List String → List String → List FieldError
entry_errors path i seen [] = []
entry_errors path i seen (e ∷ es) =
    report (e == "") (invalid (element path i ""))
    ++ report (contains seen e) (duplicate (element path i ""))
    ++ entry_errors path (suc i) (e ∷ seen) es

abbrev pub effective_proto : SingBoxNode → String
effective_proto node =
    if node.spec.inbound_protocol == "" then "hysteria2" else node.spec.inbound_protocol

unfoldable pub inbound_errors : SingBoxNode → List FieldError
inbound_errors node =
    if not (any (λ r. r == role_inbound) node.spec.roles)
    then []
    else (report (node.spec.tag == "default") (invalid (field "spec.tag"))
        ++ (if is_empty node.spec.supported_protocols
            then required (field "spec.supportedProtocols") ∷ []
            else report
                (not (any (λ c. c.protocol == effective_proto node) node.spec.supported_protocols))
                (invalid (field "spec.inboundProtocol"))))

unfoldable pub validate_sing_box_node :
    Platform → SingBoxNodeWebhook → SingBoxNode → List FieldError
validate_sing_box_node p w node =
    address_errors p node.spec.address
    ++ protocol_errors 0 [] node.spec.supported_protocols
    ++ port_errors w 0 [] node.spec.supported_protocols
    ++ report (not (nat_eq node.spec.relay_port 0) && in_node_port_range w node.spec.relay_port)
        (invalid (field "spec.relayPort"))
    ++ report (is_empty node.spec.roles) (required (field "spec.roles"))
    ++ role_errors 0 node.spec.roles
    ++ entry_errors "spec.allowedInbounds" 0 [] node.spec.allowed_inbounds
    ++ entry_errors "spec.allowedOutbounds" 0 [] node.spec.allowed_outbounds
    ++ inbound_errors node
