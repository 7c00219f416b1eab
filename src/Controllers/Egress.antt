-- ===== src/Controllers/Egress.antt =====
-- internal/controller/egresspolicy_helpers.go
use singbox_operator.Base.{
  String, Bool, false, not, ◌&&◌, Option, none, some, List, [], ◌∷◌, ◌++◌, find, ◌==◌,
  if◌then◌else◌,
}
use singbox_operator.Api.Platform.{Platform}
use singbox_operator.Api.Objects.{
  SingBoxNode, ExternalOutbound, EgressPolicy, has_role, role_outbound, action_route, action_reject,
}
use singbox_operator.Api.Selector.{match_valid, selector_matches}
use singbox_operator.Engine.Types.{admits}
use singbox_operator.Webhooks.Policies.{is_error}

-- What resolveEgressPolicy tells: a message, or the unique target; `""` if the policy is inactive
-- or rejects.
pub data Resolved : Type 0 where
  message : Resolved
  target : String → Resolved

-- By the number of candidates.
abbrev pub unique : List String → Resolved
unique [] = target ""
unique (x ∷ []) = target x
unique (x ∷ y ∷ xs) = message

module _ (p : Platform) (policy : EgressPolicy) where
  -- The loop over the nodes, with the names so far, and the one over the external outbounds.
  abbrev pub add_node_names : List SingBoxNode → List String → List String
  add_node_names [] names = names
  add_node_names (n ∷ ns) names = add_node_names ns (
      if has_role n role_outbound && selector_matches p policy.spec.egress_selector n.name n.labels
      then names ++ n.name ∷ []
      else names)

  abbrev pub add_external_names : List ExternalOutbound → List String → List String
  add_external_names [] names = names
  add_external_names (e ∷ es) names = add_external_names es (
      if selector_matches p policy.spec.egress_selector e.name e.labels
      then names ++ e.name ∷ []
      else names)

unfoldable pub resolve_egress_policy :
    Platform → EgressPolicy → List SingBoxNode → List ExternalOutbound → Resolved
resolve_egress_policy p policy nodes externals =
    let spec = policy.spec in
    if is_error (match_valid p spec.match (not (spec.fallback_action == "")))
    then message
    else if not (spec.action == action_route) && not (spec.action == action_reject)
    then message
    else if spec.action == action_reject
    then target ""
    else unique (add_external_names p policy externals (add_node_names p policy nodes []))

unfoldable pub find_outbound_node : List SingBoxNode → String → Option SingBoxNode
find_outbound_node nodes name = find (λ n. n.name == name && has_role n role_outbound) nodes

unfoldable pub find_external_outbound : List ExternalOutbound → String → Option ExternalOutbound
find_external_outbound externals name = find (λ e. e.name == name) externals

unfoldable pub egress_connected_to_inbound :
    SingBoxNode → String → List SingBoxNode → List ExternalOutbound → Bool
egress_connected_to_inbound inbound name nodes externals = elim (find_outbound_node nodes name) [
  | some t ↦
      if t.name == inbound.name
      then has_role inbound role_outbound
      else (t.spec.region == inbound.spec.region
          && admits t.spec.allowed_inbounds inbound.name
          && admits inbound.spec.allowed_outbounds t.name)
  | none ↦ elim (find_external_outbound externals name) [
    | some t ↦
        not (t.spec.region == "")
        && t.spec.region == inbound.spec.region
        && admits t.spec.allowed_inbounds inbound.name
        && admits inbound.spec.allowed_outbounds t.name
    | none ↦ false
  ]
]
