-- ===== src/ApiServer/Tests.antt =====
-- The targets of a client on a small input.
use singbox_operator.Base.{pos, true, [], ◌∷◌, ◌≡◌, refl, All, map}
use singbox_operator.Api.Objects.{SingBoxNode, has_role}
use singbox_operator.Api.Selector.{selector_matches}
use singbox_operator.Engine.Types.{is_node_allowed, virtual_user_name}
use singbox_operator.ApiServer.Targets.{
  ClientConfigInput, target_has_client_group, add_nodes, add_externals, add_routes,
  resolve_outbound_nodes, policy_only_egresses,
}
use singbox_operator.ApiServer.Apart.{Apart}
use singbox_operator.ApiServer.Offered.{Offered, IsOutbound, resolve_outbound_nodes-Offered}
use singbox_operator.Engine.Inbounds.{account}
use singbox_operator.ApiServer.Outbounds.{build_proxy_outbound}
use singbox_operator.ApiServer.Logins.{SameLogin, build_proxy_outbound-account}
use singbox_operator.Samples.{
  sample_input, platform, client, node, entry_node, exit_a, exit_b, user, external, policy,
}

-- A node of both roles, next to two peers; exit-b is denied, and "ext" is external.
abbrev both : SingBoxNode
both = node "both" ("inbound" ∷ "outbound" ∷ []) 0

abbrev client_input : ClientConfigInput
client_input = record {
  user = user "bob" "guests";
  egress_policies = [];
  user_cred = record { uuid = "u-bob" };
  inbound_nodes = both ∷ [];
  routes_by_inbound = [];
  outbounds_by_name = ("exit-b", exit_b) ∷ ("both", both) ∷ ("exit-a", exit_a) ∷ [];
  external_outbounds_by_name = ("ext", external "ext" "trojan") ∷ [];
  external_outbounds = [];
  offline_node_names = [];
  allowed_node_names = [];
  denied_node_names = ("exit-b", true) ∷ [];
  policy_only_egress_names = [];
}

outbounds :
    All (λ kn. IsOutbound platform client client_input both kn.1) client_input.outbounds_by_name
unfolding has_role
outbounds = ((refl, λ e. refl), ((refl, λ e. refl), ((refl, λ e. refl), tt)))

resolve_outbound_nodes-Offered_example :
    Apart (resolve_outbound_nodes client_input "both")
    × All (Offered platform client client_input both) (resolve_outbound_nodes client_input "both")
resolve_outbound_nodes-Offered_example =
    resolve_outbound_nodes-Offered platform client client_input both refl refl outbounds

offered_names :
    map (λ r. r.name) (resolve_outbound_nodes client_input "both") ≡ "both" ∷ "exit-a" ∷ "ext" ∷ []
unfolding resolve_outbound_nodes add_nodes add_externals add_routes target_has_client_group
    is_node_allowed has_role
offered_names = refl

policy_targets :
    policy_only_egresses platform
      (entry_node ∷ exit_a ∷ exit_b ∷ [])
      []
      (policy "p1" 10 "reject" "exit-a" ∷ policy "p2" 20 "route" "exit-b" ∷ [])
    ≡ "exit-b" ∷ []
unfolding policy_only_egresses has_role selector_matches
policy_targets = refl

-- Through a naive inbound.
build_proxy_outbound-account_example :
    SameLogin
      (build_proxy_outbound platform "exit-a#entry" "1.2.3.4"
        (pos 443)
        "naive"
        "ann"
        "exit-a"
        "entry.example"
        (record { uuid = "u-ann" }))
      (account platform sample_input "naive"
        (user "ann" "")
        "exit-a"
        (virtual_user_name "ann" "exit-a"))
build_proxy_outbound-account_example =
    build_proxy_outbound-account platform sample_input (user "ann" "") (record { uuid = "u-ann" })
      "exit-a#entry" "1.2.3.4" (pos 443) "naive" "exit-a" "entry.example" refl
