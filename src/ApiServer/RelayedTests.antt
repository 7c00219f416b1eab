-- ===== src/ApiServer/RelayedTests.antt =====
-- The entry node of the samples, with Bob as a client of it.
use singbox_operator.Base.{All, contains, true, Option, none, some, [], ◌∷◌, ◌≡◌, refl, any}
use singbox_operator.Api.Objects.{has_role}
use singbox_operator.Api.Selector.{selector_matches, selector_valid, match_valid}
use singbox_operator.Engine.Types.{virtual_user_name, Input, is_node_allowed}
use singbox_operator.Engine.Config.{compute_config}
use singbox_operator.Engine.Relayed.{relays}
use singbox_operator.Engine.Restrictions.{IsFor}
use singbox_operator.Engine.Policies.{policies_for_node}
use singbox_operator.Controllers.Policies.{egress_matches, validate_policy_resolution}
use singbox_operator.Controllers.Egress.{
  resolve_egress_policy, find_outbound_node, find_external_outbound, egress_connected_to_inbound,
}
use singbox_operator.Controllers.Credentials.{
  get_node_credential, get_user_credential, get_external_credentials,
}
use singbox_operator.Controllers.Collect.{
  start, add_peers, add_externals, add_users, add_policy, add_policies, collect_users,
  collect_input,
}
use singbox_operator.ApiServer.Endpoints.{is_sing_box_node_ready}
use singbox_operator.ApiServer.Targets.{
  ClientConfigInput, target_has_client_group, policy_only_egresses, add_nodes,
  add_externals as add_externals_of, add_routes, resolve_outbound_nodes,
}
use singbox_operator.ApiServer.Handler.{Matched, input_of, group_sets, client_config_input}
use singbox_operator.ApiServer.Relayed.{resolve_outbound_nodes-compute_config}
use singbox_operator.Samples.{platform, client, all_nodes, entry_node, user}

-- What the handler and the controller unfold.
program : Unit {0}
unfolding client_config_input group_sets is_sing_box_node_ready policy_only_egresses
    resolve_outbound_nodes add_nodes add_externals_of add_routes target_has_client_group
    is_node_allowed has_role collect_input collect_users add_policies add_policy add_users add_peers
    add_externals egress_connected_to_inbound find_external_outbound find_outbound_node
    resolve_egress_policy egress_matches validate_policy_resolution get_node_credential
    get_user_credential get_external_credentials selector_valid selector_matches match_valid
program = tt

abbrev bob : Matched
bob = record { user = user "bob" "guests"; cred = record { uuid = "u-bob" } }

abbrev input_or : Option ClientConfigInput → ClientConfigInput
input_or none = input_of platform bob [] [] [] ([], [])
input_or (some input) = input

abbrev for_bob : ClientConfigInput
for_bob = input_or (client_config_input platform client "proxy" bob)

abbrev collected_or : Option Input → Input
collected_or none = start platform client entry_node true ""
collected_or (some input) = input

abbrev for_entry : Input
for_entry = collected_or (collect_input platform client entry_node true "")

resolve_outbound_nodes-compute_config_example :
    (any (relays "bob" "exit-a") (compute_config platform for_entry).rules ≡ true)
    × All
        (λ r.
          contains r.auth_user (virtual_user_name "bob" "exit-a") ≡ true
          → IsFor platform for_entry (policies_for_node for_entry) "exit-a" r)
        (compute_config platform for_entry).rules
unfolding program
resolve_outbound_nodes-compute_config_example =
    resolve_outbound_nodes-compute_config platform client entry_node all_nodes
      (user "bob" "guests" ∷ user "ann" "" ∷ []) bob true "" "exit-a" for_bob for_entry refl refl
      (refl, (refl, (refl, tt))) (refl, (refl, tt)) refl refl refl refl refl refl (refl, (refl, tt))
      refl refl
