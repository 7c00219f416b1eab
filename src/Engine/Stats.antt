-- ===== src/Engine/Stats.antt =====
-- The users whose traffic sing-box counts (engine.go: buildExperimentalConfig).
use singbox_operator.Base.{
  String, true, ◌&&◌, List, [], ◌∷◌, if◌then◌else◌, ◌==◌, sort, text_lt, add_name,
}
use singbox_operator.Api.Objects.{User, CustomRoute, has_role, role_inbound, role_outbound}
use singbox_operator.Engine.Types.{Input, StatsConfig, virtual_user_name}
use singbox_operator.Engine.Externals.{resolve_external_outbounds}
use singbox_operator.Engine.Inbounds.{peer_names, route_names, external_names}

unfoldable pub stats_targets : Input → List CustomRoute → List String
unfolding has_role
stats_targets input routes =
    let routed = route_names input routes (peer_names input.outbound_nodes []) in
    external_names (resolve_external_outbounds input routes) (
      if has_role input.node role_inbound && has_role input.node role_outbound
      then add_name routed input.node.name
      else routed)

-- The set `userSet`, by the users of one target and then of all.
abbrev pub add_users : String → List User → List String → List String
add_users target [] names = names
add_users target (u ∷ us) names =
    add_users target us (add_name names (virtual_user_name u.name target))

abbrev pub stats_users : List User → List String → List String → List String
stats_users users [] names = names
stats_users users (target ∷ targets) names =
    stats_users users targets (add_users target users names)

unfoldable pub build_experimental_config : Input → List CustomRoute → StatsConfig
build_experimental_config input routes = record {
  listen =
      if input.v2ray_api_listen_addr == "" then "0.0.0.0:10085" else input.v2ray_api_listen_addr;
  enabled = true;
  users = sort text_lt (stats_users input.users (stats_targets input routes) []);
}
