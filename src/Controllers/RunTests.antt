-- ===== src/Controllers/RunTests.antt =====
-- Reconciliations of a node and its Pod on a small cluster, and their theorems at it.
use singbox_operator.Base.{true, false, some, none, [], ◌∷◌, ◌≡◌, refl, ◌⊎◌}
use singbox_operator.Api.Objects.{has_role}
use singbox_operator.Api.Selector.{selector_valid, selector_matches, match_valid}
use singbox_operator.Controllers.Client.{not_found}
use singbox_operator.Controllers.Credentials.{
  get_node_credential, get_user_credential, get_external_credentials,
}
use singbox_operator.Controllers.Egress.{
  resolve_egress_policy, find_outbound_node, find_external_outbound, egress_connected_to_inbound,
}
use singbox_operator.Controllers.Policies.{egress_matches, validate_policy_resolution}
use singbox_operator.Controllers.Collect.{
  add_peers, add_externals, add_users, add_policy, add_policies, collect_users, collect_input,
}
use singbox_operator.Controllers.Health.{update_node_ready_status}
use singbox_operator.Controllers.Status.{update_status}
use singbox_operator.Controllers.Pods.{
  Pod, Settings, done, desired_pod, reconcile_pod, reconcile_config_map, delete_orphan_services,
}
use singbox_operator.Controllers.Nodes.{Cluster, Operator, Calls, reconcile}
use singbox_operator.Controllers.Applied.{Applied, reconcile-Applied}
use singbox_operator.Controllers.Rollout.{
  reconciled, vanished, step, run, IsCurrent, succeeds, Follows, run-IsCurrent, step-Follows,
}
use singbox_operator.Samples.{platform, client, entry_node, status_conditions}

abbrev settings : Settings
settings = record { default_tls_secret = "sing-box-tls"; image = "" }

abbrev stale_pod : Pod
stale_pod = record (desired_pod settings entry_node "old") { is_terminating = false }

run-IsCurrent_example : IsCurrent settings entry_node "new" (
    run settings entry_node "new" (some stale_pod) (
      reconciled (succeeds settings entry_node "new")
      ∷ vanished
      ∷ reconciled (succeeds settings entry_node "new")
      ∷ vanished
      ∷ []))
run-IsCurrent_example = run-IsCurrent settings entry_node "new" (some stale_pod) (vanished ∷ [])

step-Follows_example :
    ((old : Pod)
      → Follows settings entry_node "new" old (step settings entry_node "new" (some old) vanished))
    × ((step settings entry_node "new" none vanished ≡ none)
        ⊎ (step settings entry_node "new" none vanished
            ≡ some (desired_pod settings entry_node "new")))
step-Follows_example = step-Follows settings entry_node "new" vanished

abbrev operator : Operator
operator = record {
  platform = platform;
  conditions = status_conditions;
  read_certificate = λ pem. none;
  marshal = λ config. [];
  settings = settings;
  usage_collection_enabled = true;
  v2ray_api_listen_addr = "";
}

abbrev calls : Calls
calls = record {
  get_node = true;
  update = true;
  kubernetes_node = not_found;
  get_for_ready = true;
  write_ready = true;
  credential = record { username = "u"; password = some "p"; owned = true; created = true };
  lists = client;
  write_config_map = true;
  pod = record { get = true; delete = true; create = true };
  list_services = true;
  deletes_service = λ svc. true;
  get_for_status = true;
  write_status = true;
}

-- The node is known, and nothing was created for it but a Service of an older release.
abbrev cluster : Cluster
cluster = record {
  stored = some entry_node;
  is_deleted = false;
  has_finalizer = true;
  secrets = client.get_secret;
  config_map = none;
  pod = none;
  services =
      record { name = "kept"; owners = record { kind = "Pod"; name = "entry" } ∷ [] }
      ∷ record { name = "orphan"; owners = record { kind = "SingBoxNode"; name = "entry" } ∷ [] }
      ∷ [];
}

ends : (reconcile operator calls cluster).0 ≡ done
unfolding reconcile update_node_ready_status collect_input collect_users add_policies add_policy
    add_users add_externals add_peers egress_connected_to_inbound find_external_outbound
    find_outbound_node resolve_egress_policy egress_matches validate_policy_resolution
    get_node_credential get_user_credential get_external_credentials has_role selector_valid
    selector_matches match_valid reconcile_config_map reconcile_pod delete_orphan_services
    update_status
ends = refl

reconcile-Applied_example : Applied operator calls entry_node (reconcile operator calls cluster).1
reconcile-Applied_example =
    reconcile-Applied operator calls entry_node cluster refl refl refl refl ends
