-- ===== src/Engine/Excluded.antt =====
-- A node of both roles that does not admit itself as an outbound.
use Prim.Native.String.{count}
use text.Mathlib.TextLemmas.{length-append}
use singbox_operator.Base.{
  ℕ, ◌≤◌, nat_eq, String, true, false, not, List, [], ◌∷◌, StringMap, ◌==◌, is_empty, any, ◌≡◌,
  refl, sym, false≢true, ap, arith, Bool-cases, inl, inr, eq_iff,
}
use singbox_operator.Api.Platform.{Platform}
use singbox_operator.Api.Objects.{SingBoxNode, User, has_role, role_inbound, role_outbound}
use singbox_operator.Engine.Types.{
  Input, NameSet, UserCredential, admits, outbound_tag, find_protocol_port,
  effective_inbound_protocol,
}
use singbox_operator.Engine.Policies.{policies_for_node, policy_auth_users, build_policy_rules}
use singbox_operator.Engine.Externals.{
  resolve_external_outbounds, add_all, build_external_outbounds,
}
use singbox_operator.Engine.Outbounds.{
  build_outbound_node_outbounds, build_route_outbounds, build_policy_outbounds,
  build_direct_outbound, dedup_from, deduplicate_by_tag,
}
use singbox_operator.Engine.Inbounds.{
  outbound_names, route_rules, route_accounts, build_route_inbounds, build_user_inbounds,
  build_users_block,
}
use singbox_operator.Engine.Config.{
  routes_for_node, client_side, self_outbound, relay_outbounds, config_rules, config_inbounds,
  config_outbounds, compute_config,
}
use singbox_operator.Engine.Tags.{tags}
use singbox_operator.Engine.Resolution.{resolves}

-- A node with users and nothing to relay to.
abbrev pub alone :
    SingBoxNode
    → List User
    → StringMap UserCredential
    → StringMap NameSet
    → StringMap NameSet
    → Input
alone node users creds denied allowed = record {
  node = node;
  users = users;
  user_creds = creds;
  outbound_nodes = [];
  routes = [];
  egress_policies = [];
  node_creds = [];
  outbound_nodes_by_name = [];
  external_outbounds = [];
  external_outbounds_by_name = [];
  external_creds = [];
  usage_collection_enabled = false;
  v2ray_api_listen_addr = "";
  user_node_restrictions = denied;
  user_node_allowlist = allowed;
}

outbound_tag-length :
    (name : String) (n : ℕ) (t : String) → count t ≡ n → n ≤ 6 → outbound_tag name == t ≡ false
outbound_tag-length name n t e h = elim (Bool-cases (outbound_tag name == t)) [
  | inr f ↦ f
  | inl same ↦
      let equal = ap count ((eq_iff (outbound_tag name) t).0 same) in
      absurd (omega (arith, length-append "outbound-" name, equal))
]

-- Where a node of both roles excludes itself from its outbounds, has a user and nothing else to
-- relay to, its configuration has a rule that names an outbound which it does not have.
pub compute_config-alone :
    (p : Platform) (node : SingBoxNode) (users : List User) (creds : StringMap UserCredential)
    (denied allowed : StringMap NameSet)
    → has_role node role_inbound ≡ true
    → has_role node role_outbound ≡ true
    → admits node.spec.allowed_outbounds node.name ≡ false
    → is_empty (policy_auth_users (alone node users creds denied allowed) node.name) ≡ false
    → any
        (λ r.
          not (
            resolves (tags (compute_config p (alone node users creds denied allowed)).outbounds) r))
        (compute_config p (alone node users creds denied allowed)).rules
      ≡ true
unfolding compute_config config_rules config_outbounds client_side self_outbound relay_outbounds
    routes_for_node policies_for_node build_policy_rules build_external_outbounds
    resolve_external_outbounds add_all build_outbound_node_outbounds build_route_outbounds
    build_policy_outbounds build_direct_outbound dedup_from deduplicate_by_tag outbound_names
    route_rules build_route_inbounds
compute_config-alone p node users creds denied allowed inbound outbound excluded some_user =
    rw (inbound, outbound, excluded, some_user)
      (ground (
        arith,
        outbound_tag-length node.name 0 "" refl,
        outbound_tag-length node.name 6 "direct" refl,
        eq_iff (outbound_tag node.name) "direct",
        eq_iff "direct" (outbound_tag node.name),
      ))

-- The same node next to one peer.
abbrev pub beside :
    SingBoxNode
    → SingBoxNode
    → List User
    → StringMap UserCredential
    → StringMap NameSet
    → StringMap NameSet
    → Input
beside peer node users creds denied allowed = record (alone node users creds denied allowed) {
  outbound_nodes = peer ∷ [];
}

-- A node with the inbound role alone, users and a port for its protocol, which has no route, no policy, no external
-- outbound and no other peer, has no inbound next to a peer without a relay port, and has one
-- without that peer.
pub compute_config-beside :
    (p : Platform) (peer node : SingBoxNode) (users : List User) (creds : StringMap UserCredential)
    (denied allowed : StringMap NameSet)
    → has_role node role_inbound ≡ true
    → has_role node role_outbound ≡ false
    → nat_eq peer.spec.relay_port 0 ≡ true
    → is_empty users ≡ false
    → nat_eq (find_protocol_port node (effective_inbound_protocol node)) 0 ≡ false
    → ((compute_config p (beside peer node users creds denied allowed)).inbounds ≡ [])
      × (is_empty (compute_config p (alone node users creds denied allowed)).inbounds ≡ false)
unfolding compute_config config_rules config_inbounds client_side routes_for_node policies_for_node
    build_policy_rules resolve_external_outbounds add_all outbound_names route_rules route_accounts
    build_route_inbounds build_user_inbounds build_users_block
compute_config-beside p peer node [] creds denied allowed inbound only_inbound unset no_user port =
    absurd (false≢true (sym no_user))
compute_config-beside p peer node (u ∷ us) creds denied allowed inbound only_inbound unset h port =
    (rw (inbound, only_inbound, unset, port), rw (inbound, only_inbound, port))
