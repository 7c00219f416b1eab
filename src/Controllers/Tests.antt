-- ===== src/Controllers/Tests.antt =====
-- The controllers on a small cluster, and their theorems at it.
use mathlib.Core.Path.{subst}
use singbox_operator.Base.{
  map, keep, ◌++◌, String, true, false, Option, none, some, List, [], ◌∷◌, ◌≡◌, ◌≢◌, ◌↔◌, refl,
  Distinct, All, is_empty, not, eq_iff, false≢true, ◌&&◌,
}
use singbox_operator.Api.Objects.{
  SingBoxNode, EgressPolicy, has_role, role_inbound, role_outbound, action_route,
}
use singbox_operator.Api.Selector.{selector_valid, selector_matches, match_valid}
use singbox_operator.Engine.Types.{Input, NodeCredential, ExternalCredential}
use singbox_operator.Engine.Policies.{has_required_external_creds, required}
use singbox_operator.Engine.Config.{compute_config}
use singbox_operator.Engine.Consistent.{IsConsistent}
use singbox_operator.Engine.Tags.{tags}
use singbox_operator.Engine.Resolution.{resolves}
use singbox_operator.Webhooks.Externals.{is_set, validate_external_outbound}
use singbox_operator.Webhooks.Policies.{validate_egress_policy}
use singbox_operator.Controllers.Client.{not_found}
use singbox_operator.Controllers.Credentials.{
  Secrets, Outcomes, get_node_credential, get_user_credential, get_external_credentials,
  ensure_node_credential,
}
use singbox_operator.Controllers.Externals.{
  tls_violation, spec_violation, required_credential_keys, data_violation, checked, name_conflict,
  credential_violation, reconcile,
}
use singbox_operator.Controllers.Policies.{
  egress_matches, validate_policy_resolution, update_status,
}
use singbox_operator.Controllers.Egress.{
  target, resolve_egress_policy, find_outbound_node, find_external_outbound,
  egress_connected_to_inbound,
}
use singbox_operator.Controllers.Collect.{
  start, add_peers, add_externals, add_users, add_policy, add_policies, collect_users,
  collect_input,
}
use singbox_operator.Controllers.Accepted.{
  validate_external_outbound_iff, has_required_external_creds-required_credential_keys,
  reconcile-has_required_external_creds,
}
use singbox_operator.Controllers.Resolved.{
  resolution_reason, validate_egress_policy-validate_policy_resolution,
  resolve_egress_policy-update_status,
}
use singbox_operator.Controllers.Stored.{ensure_node_credential-get_node_credential}
use singbox_operator.Controllers.Known.{node_names}
use singbox_operator.Controllers.Collected.{collect_input-IsConsistent}
use singbox_operator.Controllers.Reconciled.{collect_input-compute_config}
use singbox_operator.Samples.{
  platform, client, all_nodes, entry_node, exit_a, external, external_secret, policy,
}

-- What a run of the controllers unfolds.
program : Unit {0}
unfolding collect_input collect_users add_policies add_policy add_users add_externals add_peers
    egress_connected_to_inbound find_external_outbound find_outbound_node resolve_egress_policy
    egress_matches update_status validate_policy_resolution reconcile credential_violation
    name_conflict data_violation required_credential_keys spec_violation tls_violation
    ensure_node_credential get_node_credential get_user_credential get_external_credentials has_role
    selector_valid selector_matches match_valid validate_egress_policy
program = tt

abbrev collected_or : Option Input → Input
collected_or none = start platform client entry_node true ""
collected_or (some input) = input

-- What is collected for the entry node.
abbrev collected : Input
collected = collected_or (collect_input platform client entry_node true "")

collects : collect_input platform client entry_node true "" ≡ some collected
unfolding program
collects = refl

collected_peers : node_names collected.outbound_nodes ≡ "exit-a" ∷ "exit-b" ∷ []
unfolding program
collected_peers = refl

different_names :
    (ns : List SingBoxNode) → client.list_nodes "proxy" ≡ some ns → Distinct (node_names ns)
different_names ns e =
    let same : all_nodes ≡ ns = cc in
    subst (λ xs. Distinct (node_names xs)) same (refl, (refl, (refl, tt)))

collect_input-IsConsistent_example : IsConsistent collected
collect_input-IsConsistent_example =
    collect_input-IsConsistent platform client entry_node true "" collected different_names collects

one_role :
    has_role entry_node role_inbound && has_role entry_node role_outbound ≡ true → true ≡ true
unfolding has_role
one_role e = refl

collect_input-compute_config_example :
    All
      (λ r. resolves (tags (compute_config platform collected).outbounds) r ≡ true)
      (compute_config platform collected).rules
collect_input-compute_config_example =
    collect_input-compute_config platform client entry_node true "" collected different_names
      one_role collects

validate_external_outbound_iff_example :
    is_empty (validate_external_outbound (external "ext" "tuic"))
    ≡ not (is_set (spec_violation (external "ext" "tuic")))
validate_external_outbound_iff_example = validate_external_outbound_iff (external "ext" "tuic")

has_required_external_creds-required_credential_keys_example :
    has_required_external_creds (external "ext" "trojan") external_secret
    ≡ required (required_credential_keys (external "ext" "trojan")) external_secret
has_required_external_creds-required_credential_keys_example =
    has_required_external_creds-required_credential_keys (external "ext" "trojan") external_secret

accepted : reconcile client (external "ext" "trojan") ≡ checked none
unfolding program
accepted = refl

reconcile-has_required_external_creds_example :
    (creds : ExternalCredential) × (get_external_credentials client.get_secret
        (external "ext" "trojan")
      ≡ some creds)
    × (has_required_external_creds (external "ext" "trojan") creds ≡ true)
reconcile-has_required_external_creds_example =
    reconcile-has_required_external_creds client (external "ext" "trojan") accepted

abbrev p2 : EgressPolicy
p2 = policy "p2" 20 action_route "exit-b"

p2_admitted : is_empty (validate_egress_policy platform p2) ≡ true
unfolding program
p2_admitted = refl

validate_egress_policy-validate_policy_resolution_example :
    validate_policy_resolution platform p2 ("entry" ∷ []) []
    ≡ resolution_reason p2 ("entry" ∷ []) []
validate_egress_policy-validate_policy_resolution_example =
    validate_egress_policy-validate_policy_resolution platform p2 ("entry" ∷ []) [] p2_admitted

exit_b_named : ◌≢◌ {A = String} "exit-b" ""
exit_b_named e = false≢true ((eq_iff "exit-b" "").1 e)

resolve_egress_policy-update_status_example :
    ((resolve_egress_policy platform p2 all_nodes [] ≡ target "exit-b")
      ↔ ((update_status platform p2 all_nodes []).status.resolved_egress ≡ "exit-b"))
    × ((resolve_egress_policy platform p2 all_nodes [] ≡ target "exit-b") ↔ (
        map
            (λ n. n.name)
            (keep
              (λ n.
                has_role n role_outbound
                && selector_matches platform p2.spec.egress_selector n.name n.labels)
              all_nodes)
          ++ []
        ≡ "exit-b" ∷ []))
resolve_egress_policy-update_status_example =
    resolve_egress_policy-update_status platform p2 all_nodes [] "exit-b" exit_b_named p2_admitted
      refl

-- No Secret at first; the client creates what it is given.
abbrev no_secrets : Secrets
no_secrets = λ ns n. not_found

abbrev outcomes : Outcomes
outcomes = record { username = "u"; password = some "pw"; owned = true; created = true }

abbrev broken : Outcomes
broken = record { username = "v"; password = none; owned = false; created = false }

abbrev relay_credential : NodeCredential
relay_credential = record { username = "u"; password = "pw" }

ensured : (ensure_node_credential outcomes exit_a no_secrets).0 ≡ some relay_credential
unfolding program
ensured = refl

ensure_node_credential-get_node_credential_example :
    (get_node_credential (ensure_node_credential outcomes exit_a no_secrets).1 "exit-a" "proxy"
      ≡ some relay_credential)
    × (ensure_node_credential broken exit_a (ensure_node_credential outcomes exit_a no_secrets).1
        ≡ (some relay_credential, (ensure_node_credential outcomes exit_a no_secrets).1))
ensure_node_credential-get_node_credential_example =
    ensure_node_credential-get_node_credential outcomes broken exit_a no_secrets relay_credential
      ensured
