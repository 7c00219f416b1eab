-- ===== src/Engine/Config.antt =====
-- Compute (engine.go): the whole configuration of a node.
use singbox_operator.Base.{
  ℕ, String, Bool, not, ◌&&◌, ◌||◌, none, some, List, [], ◌∷◌, ◌++◌, if◌then◌else◌, ◌==◌, keep,
  is_empty, sort, text_lt,
}
use singbox_operator.Api.Platform.{Platform}
use singbox_operator.Api.Objects.{CustomRoute, EgressPolicy, has_role, role_inbound, role_outbound}
use singbox_operator.Engine.Types.{
  Input, Entry, RouteRule, SingboxConfig, string, outbound_tag, admits,
}
use singbox_operator.Engine.Auth.{compute_hash}
use singbox_operator.Engine.Policies.{policies_for_node, build_policy_rules}
use singbox_operator.Engine.Externals.{resolve_external_outbounds, build_external_outbounds}
use singbox_operator.Engine.Outbounds.{
  build_outbound_node_outbounds, build_route_outbounds, build_policy_outbounds,
  build_direct_outbound, deduplicate_by_tag, route_final,
}
use singbox_operator.Engine.Inbounds.{
  build_route_inbounds, build_user_inbounds, build_relay_inbound,
}
use singbox_operator.Engine.Stats.{build_experimental_config}

unfoldable pub routes_for_node : Input → List CustomRoute
routes_for_node input =
    sort (λ a b. text_lt a.name b.name) (keep (λ r. r.inbound_node == input.node.name) input.routes)

pub record Output : Type 0 where
  pub config : List ℕ
  pub hash : String

abbrev pub is_inbound : Input → Bool
is_inbound input = has_role input.node role_inbound

abbrev pub is_self_outbound : Input → Bool
is_self_outbound input = is_inbound input && has_role input.node role_outbound

module _ (p : Platform) (input : Input) where
  abbrev pub or_user_inbounds : List Entry → List Entry
  or_user_inbounds ibs = if is_empty ibs then build_user_inbounds p input else ibs

  -- Whether this node has any target to relay to.
  abbrev pub has_outbound_peers : List CustomRoute → List EgressPolicy → Bool
  has_outbound_peers routes policies =
      not (is_empty input.outbound_nodes)
      || not (is_empty routes)
      || not (is_empty policies)
      || is_self_outbound input
      || not (is_empty (resolve_external_outbounds input routes))

  -- The inbounds and the rules of an inbound node, the policy rules aside.
  unfoldable pub client_side : List CustomRoute → List EgressPolicy → List Entry × List RouteRule
  client_side routes policies =
      let (ibs, rules) = build_route_inbounds p input routes (is_self_outbound input) in
      if not (is_empty policies)
      then (or_user_inbounds ibs, rules)
      else if has_outbound_peers routes policies
      then (ibs, rules)
      else (build_user_inbounds p input, [])

  -- The outbound through which a node with both roles leaves by itself.
  unfoldable pub self_outbound : List Entry
  self_outbound =
      if is_self_outbound input && admits input.node.spec.allowed_outbounds input.node.name
      then (("type", string "direct") ∷ ("tag", string (outbound_tag input.node.name)) ∷ []) ∷ []
      else []

  unfoldable pub relay_outbounds : List CustomRoute → List EgressPolicy → List Entry
  relay_outbounds routes policies =
      build_outbound_node_outbounds input routes input.outbound_nodes
      ++ (build_route_outbounds input routes
          ++ (build_external_outbounds input routes
              ++ (build_policy_outbounds p input [] policies ++ self_outbound)))

  unfoldable pub config_rules : List RouteRule
  config_rules =
      build_policy_rules p input (policies_for_node input)
      ++ (if is_inbound input
          then (client_side (routes_for_node input) (policies_for_node input)).1
          else [])

  unfoldable pub config_inbounds : List Entry
  config_inbounds =
      (if is_inbound input
        then (client_side (routes_for_node input) (policies_for_node input)).0
        else [])
      ++ (if has_role input.node role_outbound then build_relay_inbound p input ∷ [] else [])

  unfoldable pub config_outbounds : List Entry
  config_outbounds = deduplicate_by_tag (
      (if is_inbound input
        then relay_outbounds (routes_for_node input) (policies_for_node input)
        else [])
      ++ build_direct_outbound ∷ [])

  unfoldable pub compute_config : SingboxConfig
  compute_config = record {
    log_level = "info";
    inbounds = config_inbounds;
    outbounds = config_outbounds;
    rules = config_rules;
    final = if is_empty config_rules then route_final config_outbounds else "direct";
    experimental =
        if input.usage_collection_enabled
        then some (build_experimental_config input (routes_for_node input))
        else none;
  }

  -- json.Marshal, which does not fail on these types, is a parameter.
  unfoldable pub compute : (SingboxConfig → List ℕ) → Output
  compute marshal = record {
    config = marshal compute_config;
    hash = compute_hash p (marshal compute_config);
  }
