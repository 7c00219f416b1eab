-- ===== src/Controllers/Resolved.antt =====
-- The targets of policies: the webhook, the policy controller, the node controller.
use mathlib.Core.List.{append-nil, append_assoc}
use singbox_operator.Base.{
  String, Bool, true, false, not, ◌&&◌, ◌||◌, List, [], ◌∷◌, is_empty, ◌==◌, ◌≡◌, ◌≢◌, ◌↔◌, refl,
  ◌++◌, map, keep, ap, Bool-cases, inl, inr, sym, ◌∙◌, arith, if◌then◌else◌,
}
use singbox_operator.Api.Platform.{Platform}
use singbox_operator.Api.Objects.{
  SingBoxNode, ExternalOutbound, EgressPolicy, has_role, role_outbound, action_route, action_reject,
}
use singbox_operator.Api.Selector.{selector_valid, selector_matches, match_valid}
use singbox_operator.Engine.Order.{only-sort}
use singbox_operator.Webhooks.Errors.{both, fits}
use singbox_operator.Webhooks.Policies.{is_error, selects_all, validate_egress_policy}
use singbox_operator.Controllers.Policies.{
  not_one, egress_matches, validate_policy_resolution, update_status,
}
use singbox_operator.Controllers.Egress.{
  target, unique, add_node_names, add_external_names, resolve_egress_policy,
}

-- The reason by the matches of the selectors alone.
abbrev pub resolution_reason : EgressPolicy → List String → List String → String
resolution_reason q ingresses egresses =
    if is_empty ingresses
    then "IngressNotFound"
    else if q.spec.action == action_route && is_empty egresses
    then "EgressNotFound"
    else if q.spec.action == action_route && not_one egresses
    then "EgressNotUnique"
    else ""

-- What the webhook checks.
abbrev pub valid_policy : Platform → EgressPolicy → Bool
valid_policy p q =
    (q.spec.action == action_route || q.spec.action == action_reject)
    && selector_valid p q.spec.ingress_selector
    && selector_valid p q.spec.egress_selector
    && not (is_error (match_valid p q.spec.match (not (q.spec.fallback_action == ""))))
    && (q.spec.fallback_action == "" || q.spec.fallback_action == action_reject)
    && not (q.spec.action == action_route && selects_all q.spec.egress_selector)

neither : (a b : Bool) → not (not a && not b) ≡ (a || b)
neither a b = ground arith

not-not : (b : Bool) → not (not b) ≡ b
not-not b = ground arith

pub is_empty-validate_egress_policy :
    (p : Platform) (q : EgressPolicy) → is_empty (validate_egress_policy p q) ≡ valid_policy p q
unfolding validate_egress_policy
is_empty-validate_egress_policy p q =
    let spec = q.spec in
    let action =
      fits (not (spec.action == action_route) && not (spec.action == action_reject)) _
        (neither (spec.action == action_route) (spec.action == action_reject)) in
    let fallback =
      fits (not (spec.fallback_action == "") && not (spec.fallback_action == action_reject)) _
        (neither (spec.fallback_action == "") (spec.fallback_action == action_reject)) in
    let known =
      both _ _ action (fits (not (selector_valid p q.spec.ingress_selector)) _ (not-not _)) in
    let selects = both _ _ known (fits _ _ (not-not (selector_valid p q.spec.egress_selector))) in
    let matches = both _ _ selects (fits _ _ refl) in
    both _ _ (both _ _ matches fallback) (fits _ _ refl)

-- The policy controller blames a policy that the webhook admitted only for what its selectors
-- match, never for its form.
pub validate_egress_policy-validate_policy_resolution :
    (p : Platform) (q : EgressPolicy) (ingresses egresses : List String)
    → is_empty (validate_egress_policy p q) ≡ true
    → validate_policy_resolution p q ingresses egresses ≡ resolution_reason q ingresses egresses
unfolding validate_policy_resolution
validate_egress_policy-validate_policy_resolution p q ingresses egresses h =
    ground (arith, is_empty-validate_egress_policy p q)

unique_iff : (xs : List String) (k : String) → k ≢ "" → (unique xs ≡ target k) ↔ (xs ≡ k ∷ [])
unique_iff [] k h = (λ e. absurd (h (cc)), λ e. cc)
unique_iff (x ∷ []) k h = (λ e. cc, λ e. cc)
unique_iff (x ∷ y ∷ xs) k h = (λ e. cc, λ e. cc)

add_node_names-append :
    (p : Platform) (q : EgressPolicy) (ns : List SingBoxNode) (names : List String)
    → add_node_names p q ns names
      ≡ names
        ++ map
            (λ n. n.name)
            (keep
              (λ n.
                has_role n role_outbound
                && selector_matches p q.spec.egress_selector n.name n.labels)
              ns)
add_node_names-append p q [] names = sym (append-nil names)
add_node_names-append p q (n ∷ ns) names =
    elim (Bool-cases
      (has_role n role_outbound && selector_matches p q.spec.egress_selector n.name n.labels)) [
        | inl t ↦ rw t (
            add_node_names-append p q ns (names ++ n.name ∷ [])
            ∙ append_assoc names (n.name ∷ []) _)
        | inr f ↦ rw f (add_node_names-append p q ns names)
      ]

add_external_names-append :
    (p : Platform) (q : EgressPolicy) (es : List ExternalOutbound) (names : List String)
    → add_external_names p q es names
      ≡ names
        ++ map
            (λ e. e.name)
            (keep (λ e. selector_matches p q.spec.egress_selector e.name e.labels) es)
add_external_names-append p q [] names = sym (append-nil names)
add_external_names-append p q (e ∷ es) names =
    elim (Bool-cases (selector_matches p q.spec.egress_selector e.name e.labels)) [
      | inl t ↦ rw t (
          add_external_names-append p q es (names ++ e.name ∷ [])
          ∙ append_assoc names (e.name ∷ []) _)
      | inr f ↦ rw f (add_external_names-append p q es names)
    ]

-- For a route policy that the webhook admitted, the node controller resolves a target exactly when the
-- policy controller writes it to the status, and both just when it is the only name that the
-- selector matches among the nodes with the outbound role and the external outbounds.
pub resolve_egress_policy-update_status :
    (p : Platform) (q : EgressPolicy) (nodes : List SingBoxNode) (externals : List ExternalOutbound)
    → (k : String) → k ≢ ""
    → is_empty (validate_egress_policy p q) ≡ true
    → q.spec.action ≡ action_route
    → ((resolve_egress_policy p q nodes externals ≡ target k)
        ↔ ((update_status p q nodes externals).status.resolved_egress ≡ k))
      × ((resolve_egress_policy p q nodes externals ≡ target k) ↔ (
          map
              (λ n. n.name)
              (keep
                (λ n.
                  has_role n role_outbound
                  && selector_matches p q.spec.egress_selector n.name n.labels)
                nodes)
            ++ map
                (λ e. e.name)
                (keep (λ e. selector_matches p q.spec.egress_selector e.name e.labels) externals)
          ≡ k ∷ []))
unfolding resolve_egress_policy update_status egress_matches
resolve_egress_policy-update_status p q nodes externals k k_named h route =
    let matches = egress_matches p q nodes externals in
    let is_route : q.spec.action == action_route ≡ true = rw route in
    let no_reject : q.spec.action == action_reject ≡ false = rw route in
    let collected : add_external_names p q externals (add_node_names p q nodes []) ≡ matches =
      add_external_names-append p q externals (add_node_names p q nodes [])
      ∙ ap
          (λ xs.
            xs
            ++ map (λ e. e.name)
                (keep (λ e. selector_matches p q.spec.egress_selector e.name e.labels) externals))
          (add_node_names-append p q nodes []) in
    let runs : resolve_egress_policy p q nodes externals
        ≡ unique (add_external_names p q externals (add_node_names p q nodes [])) =
      ground (arith, is_empty-validate_egress_policy p q) in
    let resolved : resolve_egress_policy p q nodes externals ≡ unique matches =
      runs ∙ ap unique collected in
    let one = unique_iff matches k k_named in
    let sorted = only-sort matches k k_named in
    (
      (λ e. sorted.1 (one.0 (sym resolved ∙ e)), λ e. resolved ∙ one.1 (sorted.0 e)),
      (λ e. one.0 (sym resolved ∙ e), λ e. resolved ∙ one.1 e),
    )
