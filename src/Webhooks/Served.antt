-- ===== src/Webhooks/Served.antt =====
-- The ports of inbound nodes, in the webhook and in the engine.
use mathlib.Core.List.{append-nil}
use singbox_operator.Base.{
  ap, keep, eq-nil, Bool-cases, inl, inr, ◌⊎◌, ◌++◌, false≢true, if◌then◌else◌, String, Bool, true,
  false, not, List, [], ◌∷◌, map, ◌==◌, nat_eq, is_empty, any, all, ◌≡◌, refl, sym, ◌∙◌, arith,
}
use singbox_operator.Api.Platform.{Platform}
use singbox_operator.Api.Objects.{
  ProtocolConfig, SingBoxNode, User, has_role, role_inbound, role_outbound,
}
use singbox_operator.Engine.Types.{
  Input, Account, virtual_user_name, port_of, find_protocol_port, effective_inbound_protocol,
}
use singbox_operator.Engine.Inbounds.{
  account, route_accounts, inbound_for, outbound_names, build_route_inbounds, build_relay_inbound,
  build_users_block, build_user_inbounds,
}
use singbox_operator.Engine.Policies.{policies_for_node, user_allowed}
use singbox_operator.Engine.Config.{
  is_self_outbound, has_outbound_peers, or_user_inbounds, routes_for_node, client_side,
  config_inbounds, compute_config,
}
use singbox_operator.Webhooks.Nodes.{SingBoxNodeWebhook, effective_proto, validate_sing_box_node}
use singbox_operator.Webhooks.Admitted.{serves_inbound, valid_node, validate_sing_box_node_iff}

-- The ports that the schema of the resource admits.
abbrev pub has_ports : SingBoxNode → Bool
has_ports node = all (λ c. not (nat_eq c.port 0)) node.spec.supported_protocols

port_of-positive :
    (cs : List ProtocolConfig) (k : String)
    → any (λ c. c.protocol == k) cs ≡ true
    → all (λ c. not (nat_eq c.port 0)) cs ≡ true
    → nat_eq (port_of cs k) 0 ≡ false
port_of-positive [] k h e = cc
port_of-positive (c ∷ cs) k h e = ground (arith, port_of-positive cs k)

effective_proto-effective_inbound_protocol :
    (node : SingBoxNode) → effective_inbound_protocol node ≡ effective_proto node
unfolding effective_inbound_protocol
effective_proto-effective_inbound_protocol node = refl

served-port :
    (p : Platform) (w : SingBoxNodeWebhook) (node : SingBoxNode)
    → is_empty (validate_sing_box_node p w node) ≡ true
    → has_role node role_inbound ≡ true
    → has_ports node ≡ true
    → nat_eq (find_protocol_port node (effective_inbound_protocol node)) 0 ≡ false
unfolding find_protocol_port
served-port p w node admitted inbound ports =
    let valid : valid_node p w node ≡ true = sym (validate_sing_box_node_iff p w node) ∙ admitted in
    let serves : serves_inbound node ≡ true = ground arith in
    rw (effective_proto-effective_inbound_protocol node)
      (port_of-positive node.spec.supported_protocols (effective_proto node) (ground arith) ports)

is_empty-map : {A B : Type 0} (f : A → B) (xs : List A) → is_empty (map f xs) ≡ is_empty xs
is_empty-map f [] = refl
is_empty-map f (x ∷ xs) = refl

validate_sing_box_node-build_user_inbounds :
    (p : Platform) (w : SingBoxNodeWebhook) (input : Input)
    → is_empty (validate_sing_box_node p w input.node) ≡ true
    → has_role input.node role_inbound ≡ true
    → has_ports input.node ≡ true
    → is_empty (build_user_inbounds p input) ≡ is_empty input.users
unfolding build_user_inbounds build_users_block
validate_sing_box_node-build_user_inbounds p w input admitted inbound ports =
    let port = served-port p w input.node admitted inbound ports in
    let protocol = effective_inbound_protocol input.node in
    let named : User → Account = λ u. account p input protocol u input.node.name u.name in
    ground (arith, is_empty-map named input.users)

route_accounts-nobody :
    (p : Platform) (input : Input) (protocol : String) (targets : List String)
    → is_empty input.users ≡ true
    → route_accounts p input protocol targets ≡ []
unfolding route_accounts
route_accounts-nobody p input protocol [] nobody = refl
route_accounts-nobody p input protocol (t ∷ ts) nobody =
    ap
      (λ us.
        map (λ u. account p input protocol u t (virtual_user_name u.name t))
          (keep (user_allowed input t) us)
        ++ route_accounts p input protocol ts)
      (eq-nil input.users nobody)
    ∙ route_accounts-nobody p input protocol ts nobody

-- The inbound for the targets, with the one for the node's users where it is missing.
or_user_inbounds-users :
    (p : Platform) (input : Input) (targets : List String)
    → nat_eq (find_protocol_port input.node (effective_inbound_protocol input.node)) 0 ≡ false
    → is_empty (build_user_inbounds p input) ≡ is_empty input.users
    → is_empty (
        or_user_inbounds p input (
          inbound_for p input
            (effective_inbound_protocol input.node)
            (route_accounts p input (effective_inbound_protocol input.node) targets)))
      ≡ is_empty input.users
or_user_inbounds-users p input targets port users_only =
    let protocol = effective_inbound_protocol input.node in
    let accounts = route_accounts p input protocol targets in
    elim (Bool-cases (is_empty accounts)) [
      | inl none_relayed ↦ rw (port, none_relayed) users_only
      | inr some_relayed ↦
          rw (port, some_relayed)
            (elim (Bool-cases (is_empty input.users)) [
              | inr some_user ↦ sym some_user
              | inl nobody ↦ absurd (
                  false≢true (
                    sym some_relayed
                    ∙ ap is_empty (route_accounts-nobody p input protocol targets nobody)))
            ])
    ]

-- A node with the inbound role alone that the webhook admitted, with the ports that the schema
-- requires, and which has a policy or nothing to relay to, has an inbound in its configuration exactly when it
-- has users.
pub validate_sing_box_node-compute_config :
    (p : Platform) (w : SingBoxNodeWebhook) (input : Input)
    → is_empty (validate_sing_box_node p w input.node) ≡ true
    → has_role input.node role_inbound ≡ true
    → has_role input.node role_outbound ≡ false
    → has_ports input.node ≡ true
    → (is_empty (policies_for_node input) ≡ false)
      ⊎ (has_outbound_peers p input (routes_for_node input) (policies_for_node input) ≡ false)
    → is_empty (compute_config p input).inbounds ≡ is_empty input.users
unfolding compute_config config_inbounds client_side build_route_inbounds
validate_sing_box_node-compute_config p w input admitted inbound no_relay ports cause =
    let port = served-port p w input.node admitted inbound ports in
    let users_only = validate_sing_box_node-build_user_inbounds p w input admitted inbound ports in
    let side = client_side p input (routes_for_node input) (policies_for_node input) in
    let inbounds : (compute_config p input).inbounds ≡ side.0 =
      ap
        (λ b.
          (if b then side.0 else [])
          ++ (if has_role input.node role_outbound then build_relay_inbound p input ∷ [] else []))
        inbound
      ∙ ap (λ b. side.0 ++ (if b then build_relay_inbound p input ∷ [] else [])) no_relay
      ∙ append-nil side.0 in
    let users : is_empty side.0 ≡ is_empty input.users =
      elim (Bool-cases (is_empty (policies_for_node input))) [
        | inr set ↦ rw set (
            or_user_inbounds-users p input
              (outbound_names p input (routes_for_node input) (is_self_outbound input)) port
              users_only)
        | inl unset ↦ elim cause [
          | inl set ↦ absurd (false≢true (sym set ∙ unset))
          | inr alone ↦ rw (alone, unset) users_only
        ]
      ] in
    ap is_empty inbounds ∙ users
