-- ===== src/Engine/Tests.antt =====
-- The engine on small inputs, and its theorems at them.
use mathlib.Core.List.{Perm}
use singbox_operator.Base.{
  ◌++◌, any, ◌⊎◌, ◌==◌, String, true, List, [], ◌∷◌, ◌≡◌, refl, arith, map, contains, All, Distinct,
  IsSorted, text_lt, false≢true, nat_eq, false, not, any, is_empty, eq_iff, ◌↔◌, ◌≢◌,
}
use singbox_operator.Api.Objects.{SingBoxNode, has_role}
use singbox_operator.Api.Selector.{selector_matches}
use singbox_operator.Engine.Types.{
  Entry, RouteRule, virtual_user_name, is_node_allowed, find_protocol_port,
  effective_inbound_protocol, effective_relay_port,
}
use singbox_operator.Engine.Auth.{derive_auth, derive_uuid, derive_password}
use singbox_operator.Engine.Policies.{
  present, policies_for_node, has_required_external_creds, policy_auth_users,
  policy_egress_available, egress_name, resolve_policy_egress_name, build_policy_rules,
}
use singbox_operator.Engine.Externals.{
  resolve_external_outbounds, build_external_outbounds, add, add_all,
  external_name_collides_with_node,
}
use singbox_operator.Engine.Outbounds.{
  peer_entry, build_outbound_node_outbounds, build_route_outbounds, build_policy_outbounds,
  build_direct_outbound, deduplicate_by_tag, route_final,
}
use singbox_operator.Engine.Inbounds.{
  build_route_inbounds, build_user_inbounds, build_relay_inbound,
}
use singbox_operator.Engine.Stats.{build_experimental_config}
use singbox_operator.Engine.Config.{
  routes_for_node, client_side, self_outbound, relay_outbounds, config_rules, config_inbounds,
  config_outbounds, compute_config,
}
use singbox_operator.Engine.Consistent.{IsConsistent}
use singbox_operator.Engine.Tags.{tags, deduplicate_by_tag-Distinct}
use singbox_operator.Engine.Resolution.{resolves, config_rules-resolve}
use singbox_operator.Engine.Restrictions.{Grants, config_rules-IsGranted}
use singbox_operator.Engine.Accounts.{all_auth_users, HasAccounts, config_inbounds-config_rules}
use singbox_operator.Engine.Order.{
  node_names_for, external_names_for, InOrder, policies_for_node-InOrder,
  resolve_policy_egress_name_iff,
}
use singbox_operator.Engine.Usable.{names, IsUsable, resolve_external_outbounds-IsUsable}
use singbox_operator.Engine.Counted.{is_counted, build_experimental_config_iff}
use singbox_operator.Engine.Excluded.{alone, compute_config-alone, beside, compute_config-beside}
use singbox_operator.Engine.Uuid.{IsUuidV5, derive_uuid-IsUuidV5}
use singbox_operator.Samples.{platform, node, sample_input, entry_node, exit_a, policy}

-- What a run of the engine unfolds.
program : Unit {0}
unfolding compute_config config_rules config_inbounds config_outbounds relay_outbounds client_side
    self_outbound routes_for_node has_role policies_for_node build_policy_rules
    build_outbound_node_outbounds build_route_outbounds build_external_outbounds
    build_policy_outbounds build_direct_outbound deduplicate_by_tag route_final build_route_inbounds
    build_user_inbounds build_relay_inbound build_experimental_config virtual_user_name
    is_node_allowed find_protocol_port effective_inbound_protocol effective_relay_port derive_auth
    derive_uuid derive_password has_required_external_creds policy_auth_users
    policy_egress_available egress_name selector_matches resolve_external_outbounds add add_all
    external_name_collides_with_node
program = tt

sample_tags :
    tags (compute_config platform sample_input).outbounds
    ≡ "outbound-exit-a" ∷ "outbound-exit-b" ∷ "outbound-ext" ∷ "direct" ∷ []
unfolding program
sample_tags = refl

brief : RouteRule → List String × String
brief r = (r.auth_user, r.outbound)

sample_rules :
    map brief (compute_config platform sample_input).rules
    ≡ ([], "")
      ∷ ([], "outbound-exit-b")
      ∷ ("ann#exit-b" ∷ [], "")
      ∷ ("ann#exit-a" ∷ "bob#exit-a" ∷ [], "outbound-exit-a")
      ∷ ("ann#exit-b" ∷ [], "outbound-exit-b")
      ∷ ("ann#ext" ∷ "bob#ext" ∷ [], "outbound-ext")
      ∷ []
unfolding program brief
sample_rules = refl

sample-IsConsistent : IsConsistent sample_input
unfolding has_role
sample-IsConsistent = record {
  peers_connect = (refl, (refl, tt));
  peers_indexed = (refl, (refl, tt));
  routes_connect = tt;
  nodes_named = λ k n e. ground (arith, e, eq_iff "exit-a" k, eq_iff "exit-b" k);
  externals_named = λ k x e. ground (arith, e, eq_iff "ext" k);
  policies_inbound = refl;
  known_actions = (refl, (refl, tt));
}

config_rules-resolve_example :
    All
      (λ r. resolves (tags (compute_config platform sample_input).outbounds) r ≡ true)
      (compute_config platform sample_input).rules
unfolding has_role
config_rules-resolve_example =
    config_rules-resolve platform sample_input sample-IsConsistent (λ e. absurd (false≢true e))

config_rules-IsGranted_example :
    All
      (Grants platform sample_input (policies_for_node sample_input))
      (compute_config platform sample_input).rules
config_rules-IsGranted_example = config_rules-IsGranted platform sample_input

config_inbounds-config_rules_example :
    (relay : List RouteRule) × ((compute_config platform sample_input).rules
      ≡ build_policy_rules platform sample_input (policies_for_node sample_input) ++ relay)
    × ((all_auth_users relay ≡ [])
        ⊎ HasAccounts platform sample_input
            (all_auth_users relay)
            (compute_config platform sample_input).inbounds)
unfolding has_role find_protocol_port effective_inbound_protocol policies_for_node
config_inbounds-config_rules_example =
    config_inbounds-config_rules platform sample_input refl refl refl

policies_for_node-InOrder_example :
    InOrder (policies_for_node sample_input)
    × Perm (policies_for_node sample_input) (present sample_input.egress_policies)
policies_for_node-InOrder_example = policies_for_node-InOrder sample_input

exit_b_named : ◌≢◌ {A = String} "exit-b" ""
exit_b_named e = false≢true ((eq_iff "exit-b" "").1 e)

resolve_policy_egress_name_iff_example :
    (resolve_policy_egress_name platform sample_input (policy "p2" 20 "route" "exit-b") ≡ "exit-b")
    ↔ (node_names_for platform
            (policy "p2" 20 "route" "exit-b").spec.egress_selector
            sample_input.outbound_nodes_by_name
          ++ external_names_for platform
              (policy "p2" 20 "route" "exit-b").spec.egress_selector
              sample_input.external_outbounds_by_name
        ≡ "exit-b" ∷ [])
resolve_policy_egress_name_iff_example =
    resolve_policy_egress_name_iff platform sample_input (policy "p2" 20 "route" "exit-b") "exit-b"
      exit_b_named

resolve_external_outbounds-IsUsable_example :
    Distinct (names (resolve_external_outbounds sample_input []))
    × All (IsUsable sample_input) (resolve_external_outbounds sample_input [])
resolve_external_outbounds-IsUsable_example = resolve_external_outbounds-IsUsable sample_input []

build_experimental_config_iff_example :
    IsSorted text_lt (build_experimental_config sample_input []).users
    × ((k : String)
        → (contains (build_experimental_config sample_input []).users k ≡ true) ↔ (
            (t : String) × (is_counted sample_input [] t ≡ true)
            × (any (λ u. virtual_user_name u.name t == k) sample_input.users ≡ true)))
build_experimental_config_iff_example = build_experimental_config_iff sample_input []

abbrev twice : List Entry
twice = build_direct_outbound ∷ peer_entry sample_input "exit-a" exit_a ∷ build_direct_outbound ∷ []

deduplicate_by_tag-Distinct_example :
    Distinct (tags (deduplicate_by_tag twice))
    × ((k : String) → contains (tags (deduplicate_by_tag twice)) k ≡ contains (tags twice) k)
deduplicate_by_tag-Distinct_example = deduplicate_by_tag-Distinct twice

derive_uuid-IsUuidV5_example :
    IsUuidV5 (derive_uuid platform "6ba7b810-9dad-11d1-80b4-00c04fd430c8" "exit-a")
derive_uuid-IsUuidV5_example =
    derive_uuid-IsUuidV5 platform (λ b. refl) "6ba7b810-9dad-11d1-80b4-00c04fd430c8" "exit-a"

-- A node of both roles that admits another node only.
abbrev lone : SingBoxNode
lone = record entry_node {
  spec = record entry_node.spec {
    roles = "inbound" ∷ "outbound" ∷ [];
    allowed_outbounds = "exit-a" ∷ [];
  };
}

lone_has_users :
    is_empty (policy_auth_users (alone lone sample_input.users [] [] []) "entry") ≡ false
unfolding program
lone_has_users = refl

lone_inbound : has_role lone "inbound" ≡ true
unfolding has_role
lone_inbound = refl

lone_outbound : has_role lone "outbound" ≡ true
unfolding has_role
lone_outbound = refl

compute_config-alone_example :
    any
      (λ r. not (
        resolves
          (tags (compute_config platform (alone lone sample_input.users [] [] [])).outbounds)
          r))
      (compute_config platform (alone lone sample_input.users [] [] [])).rules
    ≡ true
compute_config-alone_example =
    compute_config-alone platform lone sample_input.users [] [] [] lone_inbound lone_outbound refl
      lone_has_users

abbrev relayless : SingBoxNode
relayless = node "exit-c" ("outbound" ∷ []) 0

entry_inbound : has_role entry_node "inbound" ≡ true
unfolding has_role
entry_inbound = refl

entry_no_outbound : has_role entry_node "outbound" ≡ false
unfolding has_role
entry_no_outbound = refl

entry_port :
    nat_eq (find_protocol_port entry_node (effective_inbound_protocol entry_node)) 0 ≡ false
unfolding program
entry_port = refl

compute_config-beside_example :
    ((compute_config platform (beside relayless entry_node sample_input.users [] [] [])).inbounds
      ≡ [])
    × (is_empty (compute_config platform (alone entry_node sample_input.users [] [] [])).inbounds
        ≡ false)
compute_config-beside_example =
    compute_config-beside platform relayless entry_node sample_input.users [] [] [] entry_inbound
      entry_no_outbound refl refl entry_port
