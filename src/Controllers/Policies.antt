-- ===== src/Controllers/Policies.antt =====
-- internal/controller/egresspolicy_controller.go
use singbox_operator.Base.{
  String, Bool, true, false, not, ◌&&◌, List, [], ◌∷◌, ◌++◌, map, keep, is_empty, sort, text_lt,
  ◌==◌, if◌then◌else◌,
}
use singbox_operator.Api.Platform.{Platform}
use singbox_operator.Api.Objects.{
  SingBoxNode, ExternalOutbound, EgressPolicy, EgressPolicyStatus, has_role, role_inbound,
  role_outbound, action_route, action_reject,
}
use singbox_operator.Api.Selector.{selector_valid, selector_matches, match_valid}
use singbox_operator.Engine.Policies.{only}
use singbox_operator.Webhooks.Policies.{is_error}

-- `len(xs) != 1`
abbrev pub not_one {ℓ} : {A : Type ℓ} → List A → Bool
not_one (x ∷ []) = false
not_one [] = true
not_one (x ∷ y ∷ xs) = true

module _ (p : Platform) (policy : EgressPolicy) where
  abbrev pub ingress_names : List SingBoxNode → List String
  ingress_names nodes = sort text_lt (
      map (λ n. n.name)
        (keep
          (λ n.
            has_role n role_inbound
            && selector_matches p policy.spec.ingress_selector n.name n.labels)
          nodes))

  -- The targets that a selector matches: nodes of the outbound role, then external outbounds.
  unfoldable pub egress_matches : List SingBoxNode → List ExternalOutbound → List String
  egress_matches nodes externals =
      map (λ n. n.name)
        (keep
          (λ n.
            has_role n role_outbound
            && selector_matches p policy.spec.egress_selector n.name n.labels)
          nodes)
      ++ map (λ e. e.name)
          (keep (λ e. selector_matches p policy.spec.egress_selector e.name e.labels) externals)

  -- The reason of the Degraded condition; `""` is none.
  unfoldable pub validate_policy_resolution : List String → List String → String
  validate_policy_resolution ingresses egresses =
      let spec = policy.spec in
      if not (selector_valid p spec.ingress_selector)
      then "InvalidIngressSelector"
      else if not (selector_valid p spec.egress_selector)
      then "InvalidEgressSelector"
      else if is_error (match_valid p spec.match (not (spec.fallback_action == "")))
      then "InvalidMatch"
      else if not (spec.action == action_route) && not (spec.action == action_reject)
      then "InvalidAction"
      else if is_empty ingresses
      then "IngressNotFound"
      else if not (spec.fallback_action == "") && not (spec.fallback_action == action_reject)
      then "InvalidFallbackAction"
      else if spec.action == action_route && is_empty egresses
      then "EgressNotFound"
      else if spec.action == action_route && not_one egresses
      then "EgressNotUnique"
      else ""

  -- The part of the status that the engine reads, and whether the policy is Ready and Degraded.
  pub record Resolution : Type 0 where
    pub status : EgressPolicyStatus
    pub ready : Bool
    pub degraded : Bool
    pub reason : String

  -- updateStatus, on what Reconcile computes from the lists.
  unfoldable pub update_status : List SingBoxNode → List ExternalOutbound → Resolution
  update_status nodes externals =
      let ingresses = ingress_names nodes in
      let egresses = sort text_lt (egress_matches nodes externals) in
      let reason = validate_policy_resolution ingresses egresses in
      record {
        status = record { resolved_ingresses = ingresses; resolved_egress = only egresses };
        ready = reason == "";
        degraded = not (reason == "") && not (reason == "EgressNotFound");
        reason = if reason == "" then "Resolved" else reason;
      }
