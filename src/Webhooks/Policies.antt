-- ===== src/Webhooks/Policies.antt =====
-- internal/webhook/egresspolicy_webhook.go
use singbox_operator.Base.{
  not, ◌&&◌, Bool, true, false, Option, none, some, List, ◌++◌, ◌==◌, is_empty,
}
use singbox_operator.Api.Platform.{Platform}
use singbox_operator.Api.Objects.{EgressPolicy, EgressPolicySelector, action_route, action_reject}
use singbox_operator.Api.Selector.{MatchError, selector_valid, match_valid}
use singbox_operator.Webhooks.Errors.{field, FieldError, required, invalid, not_supported, report}

-- `err != nil` on the result of Match.Valid
abbrev pub is_error : Option MatchError → Bool
is_error none = false
is_error (some e) = true

abbrev pub selects_all : EgressPolicySelector → Bool
selects_all s = is_empty s.match_names && is_empty s.match_labels && is_empty s.match_expressions

unfoldable pub validate_egress_policy : Platform → EgressPolicy → List FieldError
validate_egress_policy p policy =
    let spec = policy.spec in
    report (not (spec.action == action_route) && not (spec.action == action_reject))
      (not_supported (field "spec.action"))
    ++ report (not (selector_valid p spec.ingress_selector))
        (invalid (field "spec.ingressSelector"))
    ++ report (not (selector_valid p spec.egress_selector)) (invalid (field "spec.egressSelector"))
    ++ report (is_error (match_valid p spec.match (not (spec.fallback_action == ""))))
        (invalid (field "spec.match"))
    ++ report (not (spec.fallback_action == "") && not (spec.fallback_action == action_reject))
        (not_supported (field "spec.fallbackAction"))
    ++ report (spec.action == action_route && selects_all spec.egress_selector)
        (required (field "spec.egressSelector"))
