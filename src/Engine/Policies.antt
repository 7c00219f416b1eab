-- ===== src/Engine/Policies.antt =====
-- Egress policies in the engine (engine.go: policiesForNode, buildPolicyRules, policyAuthUsers,
-- resolvePolicyEgressName, policyEgressAvailable, hasRequiredExternalCreds).
use singbox_operator.Base.{
  String, Bool, false, not, ◌&&◌, ◌||◌, Option, none, some, List, [], ◌∷◌, ◌++◌, map, lookup,
  lookup_or, if◌then◌else◌, ◌==◌, ltb, keep, all, is_empty, sort, text_lt, ltb_ℤ, eq_ℤ, StringMap,
}
use singbox_operator.Api.Platform.{Platform}
use singbox_operator.Api.Objects.{
  User, SingBoxNode, ExternalOutbound, Hysteria2Options, EgressPolicy, EgressPolicySelector,
  has_role, role_outbound, action_route, action_reject,
}
use singbox_operator.Api.Selector.{selector_matches}
use singbox_operator.Engine.Types.{
  Input, ExternalCredential, RouteRule, no_rule, outbound_tag, inbound_tag, virtual_user_name,
  is_node_allowed, effective_inbound_protocol,
}

abbrev pub policy_lt : EgressPolicy → EgressPolicy → Bool
policy_lt a b =
    if eq_ℤ a.spec.priority b.spec.priority
    then text_lt a.name b.name
    else ltb_ℤ a.spec.priority b.spec.priority

abbrev pub present {ℓ} : {A : Type ℓ} → List (Option A) → List A
present [] = []
present (none ∷ xs) = present xs
present (some x ∷ xs) = x ∷ present xs

unfoldable pub policies_for_node : Input → List EgressPolicy
policies_for_node input = sort policy_lt (present input.egress_policies)

-- Whether every key is set to a non-empty value.
abbrev pub required : List String → ExternalCredential → Bool
required keys creds = all (λ k. not (lookup_or "" k creds == "")) keys

abbrev pub wants_obfs : Option Hysteria2Options → Bool
wants_obfs none = false
wants_obfs (some h) = h.obfs

unfoldable pub has_required_external_creds : ExternalOutbound → ExternalCredential → Bool
has_required_external_creds eob creds =
    let protocol = eob.spec.protocol in
    if protocol == "shadowsocks"
    then required ("method" ∷ "password" ∷ []) creds
    else if protocol == "tuic"
    then required ("uuid" ∷ "password" ∷ []) creds
    else if (protocol == "trojan" || protocol == "hysteria2" || protocol == "anytls")
        && not (required ("password" ∷ []) creds)
    then false
    else not (
        protocol == "hysteria2"
        && wants_obfs eob.spec.hysteria2
        && lookup_or "" "obfsPassword" creds == "")

-- `input.ExternalCreds[name]`
abbrev pub creds_of : Input → String → ExternalCredential
creds_of input name = lookup_or [] name input.external_creds

-- Whether the group of a user lets it relay through a target.
abbrev pub user_allowed : Input → String → User → Bool
user_allowed input target user =
    is_node_allowed target (lookup_or [] user.name input.user_node_allowlist)
      (lookup_or [] user.name input.user_node_restrictions)

-- The virtual users of a target: one for each user that may relay through it.
unfoldable pub policy_auth_users : Input → String → List String
policy_auth_users input target =
    map (λ u. virtual_user_name u.name target) (keep (user_allowed input target) input.users)

unfoldable pub policy_egress_available : Input → String → Bool
unfolding has_role has_required_external_creds
policy_egress_available input name = elim (lookup name input.outbound_nodes_by_name) [
  | some node ↦ has_role node role_outbound && ltb 0 node.spec.relay_port
  | none ↦ elim (lookup name input.external_outbounds_by_name) [
    | some eob ↦ has_required_external_creds eob (creds_of input name)
    | none ↦ false
  ]
]

-- The only element of a list, and "" where there is none or more than one.
abbrev pub only : List String → String
only [] = ""
only (n ∷ []) = n
only (n ∷ m ∷ ns) = ""

module _ (p : Platform) (input : Input) where
  abbrev pub matching_nodes : EgressPolicySelector → StringMap SingBoxNode → List String
  matching_nodes s [] = []
  matching_nodes s ((k, n) ∷ ns) =
      if has_role n role_outbound && selector_matches p s n.name n.labels
      then n.name ∷ matching_nodes s ns
      else matching_nodes s ns

  abbrev pub matching_externals : EgressPolicySelector → StringMap ExternalOutbound → List String
  matching_externals s [] = []
  matching_externals s ((k, e) ∷ es) =
      if selector_matches p s e.name e.labels
      then e.name ∷ matching_externals s es
      else matching_externals s es

  -- The names that a policy's egress selector matches.
  unfoldable pub egress_candidates : EgressPolicy → List String
  unfolding has_role selector_matches
  egress_candidates policy =
      matching_nodes policy.spec.egress_selector input.outbound_nodes_by_name
      ++ matching_externals policy.spec.egress_selector input.external_outbounds_by_name

  unfoldable pub resolve_policy_egress_name : EgressPolicy → String
  unfolding egress_candidates
  resolve_policy_egress_name policy = only (sort text_lt (egress_candidates policy))

  -- The name that the status holds, or else the one that the selector resolves to now.
  unfoldable pub egress_name : EgressPolicy → String
  unfolding resolve_policy_egress_name
  egress_name policy =
      if policy.status.resolved_egress == ""
      then resolve_policy_egress_name policy
      else policy.status.resolved_egress

  abbrev match_rule : EgressPolicy → RouteRule
  match_rule policy = record no_rule {
    inbound = inbound_tag (effective_inbound_protocol input.node) ∷ [];
    domain = policy.spec.match.domain;
    domain_suffix = policy.spec.match.domain_suffix;
    domain_regex = policy.spec.match.domain_regex;
    ip_cidr = policy.spec.match.ip_cidr;
    rule_set = policy.spec.match.rule_set;
  }

  -- The rule that rejects what a route policy's egress carries besides the policy's matches.
  abbrev pub fallback_rules : EgressPolicy → List RouteRule
  fallback_rules policy =
      if policy.spec.action == action_route && policy.spec.fallback_action == action_reject
      then (if not (egress_name policy == "")
            && policy_egress_available input (egress_name policy)
            && not (is_empty (policy_auth_users input (egress_name policy)))
          then record no_rule {
            auth_user = policy_auth_users input (egress_name policy);
            action = action_reject;
          }
            ∷ []
          else [])
      else []

  -- The rules of one policy: a round of the loop of buildPolicyRules.
  unfoldable pub policy_rules : EgressPolicy → List RouteRule
  policy_rules policy =
      if policy.spec.action == action_reject
      then record (match_rule policy) { action = action_reject } ∷ fallback_rules policy
      else if egress_name policy == "" || not (policy_egress_available input (egress_name policy))
      then []
      else record (match_rule policy) { outbound = outbound_tag (egress_name policy) }
        ∷ fallback_rules policy

  unfoldable pub build_policy_rules : List EgressPolicy → List RouteRule
  unfolding policy_rules
  build_policy_rules [] = []
  build_policy_rules (policy ∷ policies) = policy_rules policy ++ build_policy_rules policies
