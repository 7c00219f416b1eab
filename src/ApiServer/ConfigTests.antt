-- ===== src/ApiServer/ConfigTests.antt =====
-- The configuration of a client on a small input, and the theorems about it there.
use singbox_operator.Base.{
  cut_at, atoi, digits_value, String, Bool, true, some, List, [], ◌∷◌, ◌≡◌, refl, any, All,
  StringMap, ◌==◌,
}
use singbox_operator.Api.Objects.{SingBoxNode, has_role}
use singbox_operator.Api.Selector.{selector_valid, selector_matches, match_valid}
use singbox_operator.Engine.Types.{effective_inbound_protocol, is_node_allowed, RouteRule, no_rule}
use singbox_operator.ApiServer.Targets.{
  ClientConfigInput, target_has_client_group, add_nodes, add_externals, add_routes,
  resolve_outbound_nodes,
}
use singbox_operator.ApiServer.Endpoints.{find_entry_endpoint, supports_protocol, split_three}
use singbox_operator.ApiServer.Policies.{
  built, client_policies, build_client_policies, resolve_client_policy_egress, policy_match_rule,
}
use singbox_operator.ApiServer.Config.{
  add_targets, add_entries, ClientConfig, config_hiding, hiding, build_client_config,
}
use singbox_operator.ApiServer.Grouped.{IsUsable}
use singbox_operator.ApiServer.Offers.{offers, build_client_config-selectors}
use singbox_operator.ApiServer.Dangling.{has_ai_target, build_client_policies-build_client_config}
use singbox_operator.Samples.{platform, user, entry_node, exit_a, exit_b, policy}

abbrev offered_in : List String → SingBoxNode → SingBoxNode
offered_in groups n = record n { spec = record n.spec { client_groups = groups } }

-- A policy routes to exit-a, which is offered in the groups "ai" and "hk"; exit-b is offered in "us".
abbrev config_input : StringMap Bool → ClientConfigInput
config_input offline = record {
  user = user "bob" "";
  egress_policies = policy "p1" 10 "route" "exit-a" ∷ [];
  user_cred = record { uuid = "u-bob" };
  inbound_nodes = entry_node ∷ [];
  routes_by_inbound = [];
  outbounds_by_name =
      ("exit-b", offered_in ("us" ∷ "de" ∷ []) exit_b)
      ∷ ("exit-a", offered_in ("ai" ∷ "hk" ∷ []) exit_a)
      ∷ [];
  external_outbounds_by_name = [];
  external_outbounds = [];
  offline_node_names = offline;
  allowed_node_names = [];
  denied_node_names = [];
  policy_only_egress_names = ("exit-a", true) ∷ [];
}

abbrev rules : List RouteRule
rules = record no_rule { domain = "example.org" ∷ []; outbound = "ai" } ∷ []

abbrev config : StringMap Bool → ClientConfig
config offline = config_hiding platform (hiding (config_input offline) ("exit-a" ∷ []))

policies :
    (offline : StringMap Bool)
    → build_client_policies platform (config_input offline) ≡ built rules ("exit-a" ∷ [])
unfolding build_client_policies client_policies resolve_client_policy_egress policy_match_rule
    target_has_client_group selector_valid selector_matches match_valid
policies offline = refl

made :
    (offline : StringMap Bool)
    → build_client_config platform (config_input offline) ≡ some (config offline)
unfolding build_client_config build_client_policies client_policies resolve_client_policy_egress
    policy_match_rule target_has_client_group selector_valid selector_matches match_valid
made offline = refl

online_selectors :
    (config []).selectors
    ≡ record { tag = "ai"; outbounds = "exit-a#entry" ∷ [] }
      ∷ record { tag = "us"; outbounds = "exit-b#entry" ∷ [] }
      ∷ []
unfolding add_entries add_targets target_has_client_group effective_inbound_protocol is_node_allowed
    resolve_outbound_nodes add_nodes add_externals add_routes find_entry_endpoint supports_protocol
    split_three has_role cut_at atoi digits_value
online_selectors = refl

build_client_config-selectors_example :
    All (IsUsable (config []).proxies) (config []).selectors
    × ((g : String)
        → any (λ s. s.tag == g) (config []).selectors
          ≡ any
              (offers platform (hiding (config_input []) ("exit-a" ∷ [])) g)
              (config_input []).inbound_nodes)
build_client_config-selectors_example =
    build_client_config-selectors platform (config_input []) rules ("exit-a" ∷ []) (config [])
      (policies []) (made [])

abbrev offline_entry : StringMap Bool
offline_entry = ("entry", true) ∷ []

build_client_policies-build_client_config_example :
    (any (λ r. r.outbound == "ai") rules
      ≡ any
          (has_ai_target platform (config_input offline_entry))
          (config_input offline_entry).egress_policies)
    × ((config offline_entry).selectors ≡ [])
build_client_policies-build_client_config_example =
    build_client_policies-build_client_config platform (config_input offline_entry) rules
      ("exit-a" ∷ []) (config offline_entry) (policies offline_entry) (made offline_entry)
      (refl, tt)
