-- ===== src/Controllers/Users.antt =====
-- findMatchingInboundNodes (internal/controller/user_controller.go), and the mappers of
-- internal/controller/singboxnode_controller.go from a change to the nodes to reconcile.
use singbox_operator.Base.{
  String, Bool, false, not, ◌&&◌, ◌||◌, Option, none, some, List, [], ◌∷◌, map, keep, any, find,
  add_name, ◌==◌, if◌then◌else◌,
}
use singbox_operator.Api.Platform.{Platform}
use singbox_operator.Api.Objects.{
  SingBoxNode, ExternalOutbound, User, UserGroup, EgressPolicy, has_role, role_inbound,
  action_route,
}
use singbox_operator.Api.Selector.{selector_matches}
use singbox_operator.Engine.Types.{is_node_allowed}
use singbox_operator.Controllers.Client.{Got, found, not_found, failed, Client}
use singbox_operator.Controllers.Collect.{name_set}

abbrev pub inbound_nodes : List SingBoxNode → List SingBoxNode
inbound_nodes = keep (λ n. has_role n role_inbound)

-- The nodes that a group allows; a missing group allows all of them.
abbrev pub filter_by_group : Got UserGroup → List SingBoxNode → Option (List SingBoxNode)
filter_by_group not_found nodes = some nodes
filter_by_group failed nodes = none
filter_by_group (found ug) nodes = some (
    keep (λ n. is_node_allowed n.name (name_set ug.allowed_nodes []) (name_set ug.denied_nodes []))
      nodes)

unfoldable pub find_matching_inbound_nodes : Client → User → Option (List SingBoxNode)
find_matching_inbound_nodes c user = elim (c.list_nodes user.namespace) [
  | none ↦ none
  | some nodes ↦
      if user.spec.user_group_ref == ""
      then some (inbound_nodes nodes)
      else filter_by_group (c.get_group user.namespace user.spec.user_group_ref)
          (inbound_nodes nodes)
]

module _ (p : Platform) where
  abbrev pub selects_route : SingBoxNode → ExternalOutbound → EgressPolicy → Bool
  selects_route node eob q =
      q.spec.action == action_route
      && selector_matches p q.spec.ingress_selector node.name node.labels
      && selector_matches p q.spec.egress_selector eob.name eob.labels

  abbrev pub any_policy : SingBoxNode → Option ExternalOutbound → List EgressPolicy → Bool
  any_policy node none policies = false
  any_policy node (some eob) policies = any (selects_route node eob) policies

  abbrev pub is_affected : String → Option ExternalOutbound → List EgressPolicy → SingBoxNode → Bool
  is_affected region eob policies node =
      has_role node role_inbound
      && (not (region == "") && node.spec.region == region || any_policy node eob policies)

  -- The loop, with the names of the requests so far.
  unfoldable pub add_affected :
      String
      → Option ExternalOutbound
      → List EgressPolicy
      → List SingBoxNode
      → List String
      → List String
  add_affected region eob policies [] names = names
  add_affected region eob policies (n ∷ ns) names =
      add_affected region eob policies ns
        (if is_affected region eob policies n then add_name names n.name else names)

  -- The names of the requests of inboundsAffectedByExternalOutbound; none where a list call fails.
  unfoldable pub inbounds_affected_by_external_outbound :
      Client → String → String → String → List String
  inbounds_affected_by_external_outbound c namespace name region = elim (c.list_nodes namespace) [
    | none ↦ []
    | some nodes ↦ elim (c.list_externals namespace) [
      | none ↦ []
      | some externals ↦ elim (c.list_policies namespace) [
        | none ↦ []
        | some policies ↦
            add_affected region (find (λ e. e.name == name) externals) policies nodes []
      ]
    ]
  ]

  -- The nodes that a change of a policy affects: egressPolicyMapper.
  unfoldable pub egress_policy_mapper : Client → EgressPolicy → List String
  egress_policy_mapper c policy = elim (c.list_nodes policy.namespace) [
    | none ↦ []
    | some nodes ↦
        map (λ n. n.name)
          (keep
            (λ n.
              has_role n role_inbound
              && selector_matches p policy.spec.ingress_selector n.name n.labels)
            nodes)
  ]
