-- ===== src/ApiServer/Policies.antt =====
-- buildClientPolicies, resolveClientPolicyEgress and policyMatchRule:
-- internal/apiserver/client_policy.go.
use singbox_operator.Base.{
  ℕ, suc, nat_eq, String, not, ◌&&◌, Option, none, some, List, [], ◌∷◌, StringMap, sort, ◌==◌,
  if◌then◌else◌,
}
use singbox_operator.Api.Platform.{Platform}
use singbox_operator.Api.Objects.{
  SingBoxNode, ExternalOutbound, EgressPolicyMatch, EgressPolicy, action_route, action_reject,
}
use singbox_operator.Api.Selector.{selector_valid, selector_matches, match_valid}
use singbox_operator.Webhooks.Policies.{is_error}
use singbox_operator.Engine.Types.{RouteRule, no_rule}
use singbox_operator.Engine.Policies.{policy_lt}
use singbox_operator.ApiServer.Targets.{ClientConfigInput, target_has_client_group}

pub data PolicyError : Type 0 where
  bad_ingress_selector bad_egress_selector bad_match bad_fallback_action bad_action : PolicyError
  egress_count : ℕ → PolicyError

-- The rules, and the targets of the policies, or the first error.
pub data ClientPolicies : Type 0 where
  refused : PolicyError → ClientPolicies
  built : List RouteRule → List String → ClientPolicies

unfoldable pub policy_match_rule : EgressPolicyMatch → RouteRule
policy_match_rule m = record no_rule {
  domain = m.domain;
  domain_suffix = m.domain_suffix;
  domain_regex = m.domain_regex;
  ip_cidr = m.ip_cidr;
  rule_set = m.rule_set;
}

-- A rule before those of the later policies, and a target of it if there is one.
abbrev pub with_rule : RouteRule → List String → ClientPolicies → ClientPolicies
with_rule rule targets (refused e) = refused e
with_rule rule [] (built rules names) = built (rule ∷ rules) names
with_rule rule (t ∷ ts) (built rules names) = built (rule ∷ rules) (t ∷ names)

module _ (p : Platform) (input : ClientConfigInput) where
  -- The name that matched last, and how many did.
  abbrev pub matching_nodes : EgressPolicy → StringMap SingBoxNode → String × ℕ → String × ℕ
  matching_nodes q [] r = r
  matching_nodes q ((k, n) ∷ ns) r =
      matching_nodes q ns
        (if selector_matches p q.spec.egress_selector n.name n.labels then (n.name, suc r.1) else r)

  abbrev pub matching_externals :
      EgressPolicy → StringMap ExternalOutbound → String × ℕ → String × ℕ
  matching_externals q [] r = r
  matching_externals q ((k, e) ∷ es) r =
      matching_externals q es
        (if selector_matches p q.spec.egress_selector e.name e.labels then (e.name, suc r.1) else r)

  unfoldable pub resolve_client_policy_egress : EgressPolicy → String × ℕ
  resolve_client_policy_egress q =
      matching_externals q input.external_outbounds_by_name
        (matching_nodes q input.outbounds_by_name ("", 0))

  abbrev pub policy_error : EgressPolicy → Option PolicyError
  policy_error q =
      if not (selector_valid p q.spec.ingress_selector)
      then some bad_ingress_selector
      else if not (selector_valid p q.spec.egress_selector)
      then some bad_egress_selector
      else if is_error (match_valid p q.spec.match (not (q.spec.fallback_action == "")))
      then some bad_match
      else if not (q.spec.fallback_action == "") && not (q.spec.fallback_action == action_reject)
      then some bad_fallback_action
      else if not (q.spec.action == action_route) && not (q.spec.action == action_reject)
      then some bad_action
      else none

  -- Traffic to a target of the group "ai" takes that group's selector, and other traffic is rejected.
  abbrev pub target_rule : EgressPolicy → String → RouteRule
  target_rule q name =
      if target_has_client_group input name "ai"
      then record (policy_match_rule q.spec.match) { outbound = "ai" }
      else record (policy_match_rule q.spec.match) { action = "reject" }

  abbrev pub add_route_rule : EgressPolicy → String × ℕ → ClientPolicies → ClientPolicies
  add_route_rule q (name, count) rest =
      if nat_eq count 0
      then rest
      else if not (nat_eq count 1)
      then refused (egress_count count)
      else with_rule (target_rule q name) (name ∷ []) rest

  abbrev pub add_policy_rule : EgressPolicy → ClientPolicies → ClientPolicies
  add_policy_rule q rest =
      if q.spec.action == action_reject
      then with_rule (record (policy_match_rule q.spec.match) { action = "reject" }) [] rest
      else add_route_rule q (resolve_client_policy_egress q) rest

  unfoldable pub client_policies : List EgressPolicy → ClientPolicies
  unfolding policy_match_rule
  client_policies [] = built [] []
  client_policies (q ∷ qs) = elim (policy_error q) [
    | some e ↦ refused e
    | none ↦ add_policy_rule q (client_policies qs)
  ]

  unfoldable pub build_client_policies : ClientPolicies
  build_client_policies = client_policies (sort policy_lt input.egress_policies)
