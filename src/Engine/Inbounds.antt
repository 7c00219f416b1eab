-- ===== src/Engine/Inbounds.antt =====
-- The inbound entries of a configuration and the rules that go with them (engine.go:
-- buildRouteInbounds, buildUsersBlock, buildInboundEntry, buildUserInbounds, buildRelayInbound).
use singbox_operator.Base.{
  ℕ, String, Bool, true, false, not, ◌&&◌, ◌||◌, Option, none, some, List, [], ◌∷◌, ◌++◌, map,
  lookup, lookup_or, insert, add_name, if◌then◌else◌, ◌==◌, keep, is_empty, nat_eq,
}
use singbox_operator.Api.Platform.{Platform}
use singbox_operator.Api.Objects.{
  SingBoxNode, ExternalOutbound, User, CustomRoute, EgressPolicy, action_route,
  effective_outbound_kind, kind_singbox_node,
}
use singbox_operator.Engine.Types.{
  Input, Account, Entry, text, number, scalar, object, flag, accounts, string, RouteRule, no_rule,
  outbound_tag, inbound_tag, virtual_user_name, effective_inbound_protocol, effective_relay_port,
  find_protocol_port,
}
use singbox_operator.Engine.Auth.{derive_auth}
use singbox_operator.Engine.Policies.{
  present, user_allowed, egress_name, policy_auth_users, policy_egress_available,
}
use singbox_operator.Engine.Externals.{resolve_external_outbounds}

-- In the loops below `add_name` is `if !seen[name] { seen[name] = true; names = append(names, name) }`.
-- The set holds the names of the list at every point, and so the list stands for both.
abbrev pub peer_names : List SingBoxNode → List String → List String
peer_names [] names = names
peer_names (n ∷ ns) names =
    peer_names ns (if nat_eq n.spec.relay_port 0 then names else add_name names n.name)

abbrev pub has_relay : Option SingBoxNode → Bool
has_relay none = false
has_relay (some n) = not (nat_eq n.spec.relay_port 0)

-- A route to a known SingBoxNode that has a relay port.
abbrev pub is_node_route : Input → CustomRoute → Bool
is_node_route input r =
    effective_outbound_kind r == kind_singbox_node
    && has_relay (lookup r.outbound_node input.outbound_nodes_by_name)

abbrev pub route_names : Input → List CustomRoute → List String → List String
route_names input [] names = names
route_names input (r ∷ rs) names =
    route_names input rs (if is_node_route input r then add_name names r.outbound_node else names)

-- A route policy whose target has a name and can be used.
abbrev pub is_live_policy : Platform → Input → EgressPolicy → Bool
is_live_policy p input policy =
    policy.spec.action == action_route
    && not (egress_name p input policy == "")
    && policy_egress_available input (egress_name p input policy)

abbrev pub policy_names : Platform → Input → List EgressPolicy → List String → List String
policy_names p input [] names = names
policy_names p input (policy ∷ policies) names =
    policy_names p input policies
      (if is_live_policy p input policy then add_name names (egress_name p input policy) else names)

abbrev pub external_names : List ExternalOutbound → List String → List String
external_names [] names = names
external_names (e ∷ es) names = external_names es (add_name names e.name)

-- The field that names the user of an account, by the protocol.
abbrev pub name_field : String → String
name_field protocol = if protocol == "naive" then "username" else "name"

abbrev pub socks_type : String → String
socks_type protocol = if protocol == "socks5" then "socks" else protocol

unfoldable pub build_inbound_entry : String → String → ℕ → List Account → Entry
build_inbound_entry protocol tag port users =
    let entry : Entry =
      ("type", string (socks_type protocol))
      ∷ ("tag", string tag)
      ∷ ("listen", string "::")
      ∷ ("listen_port", scalar (number port))
      ∷ ("users", accounts users)
      ∷ [] in
    if protocol == "hysteria2" || protocol == "naive" || protocol == "anytls" || protocol == "tuic"
    then insert "tls"
        (object (
          ("enabled", flag true)
          ∷ ("certificate_path", text "/etc/sing-box/tls/tls.crt")
          ∷ ("key_path", text "/etc/sing-box/tls/tls.key")
          ∷ []))
        entry
    else entry

module _ (p : Platform) (input : Input) where
  -- The targets of this node in the order in which the code collects them.
  unfoldable pub outbound_names : List CustomRoute → Bool → List String
  outbound_names routes include_self =
      let peers = peer_names input.outbound_nodes [] in
      let routed = route_names input routes peers in
      let selected = policy_names p input (present input.egress_policies) routed in
      external_names (resolve_external_outbounds input routes)
        (if include_self then add_name selected input.node.name else selected)

  abbrev pub account : String → User → String → String → Account
  account protocol user node as_name = insert (name_field protocol) as_name (
      derive_auth p protocol (lookup_or (record { uuid = "" }) user.name input.user_creds).uuid
        node)

  -- One account for each target and each user that may relay through it.
  unfoldable pub route_accounts : String → List String → List Account
  unfolding virtual_user_name
  route_accounts protocol [] = []
  route_accounts protocol (target ∷ targets) =
      map (λ u. account protocol u target (virtual_user_name u.name target))
        (keep (user_allowed input target) input.users)
      ++ route_accounts protocol targets

  unfoldable pub route_rules : List String → List RouteRule
  unfolding policy_auth_users
  route_rules [] = []
  route_rules (target ∷ targets) =
      let rest = route_rules targets in
      if is_empty (policy_auth_users input target)
      then rest
      else record no_rule {
        auth_user = policy_auth_users input target;
        outbound = outbound_tag target;
      }
        ∷ rest

  -- The inbound of a protocol, if it has a port and anybody may use it.
  abbrev pub inbound_for : String → List Account → List Entry
  inbound_for protocol users =
      if nat_eq (find_protocol_port input.node protocol) 0 || is_empty users
      then []
      else build_inbound_entry protocol (inbound_tag protocol)
          (find_protocol_port input.node protocol) users
        ∷ []

  unfoldable pub build_route_inbounds : List CustomRoute → Bool → List Entry × List RouteRule
  unfolding outbound_names route_accounts route_rules build_inbound_entry
  build_route_inbounds routes include_self =
      let names = outbound_names routes include_self in
      let protocol = effective_inbound_protocol input.node in
      (inbound_for protocol (route_accounts protocol names), route_rules names)

  -- Groups do not restrict who may use this node as an inbound.
  unfoldable pub build_users_block : String → String → List Account
  build_users_block protocol node = map (λ u. account protocol u node u.name) input.users

  unfoldable pub build_user_inbounds : List Entry
  unfolding build_users_block build_inbound_entry
  build_user_inbounds =
      let protocol = effective_inbound_protocol input.node in
      inbound_for protocol (build_users_block protocol input.node.name)

  unfoldable pub build_relay_inbound : Entry
  unfolding effective_relay_port
  build_relay_inbound =
      let cred =
        lookup_or (record { username = ""; password = "" }) input.node.name input.node_creds in
      ("type", string "socks")
      ∷ ("tag", string "relay-socks5")
      ∷ ("listen", string "::")
      ∷ ("listen_port", scalar (number (effective_relay_port input.node)))
      ∷ ("users", accounts ((("username", cred.username) ∷ ("password", cred.password) ∷ []) ∷ []))
      ∷ []
