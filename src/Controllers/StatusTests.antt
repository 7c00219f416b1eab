-- ===== src/Controllers/StatusTests.antt =====
-- The conditions of a node on small inputs, and their theorems at them.
use singbox_operator.Base.{
  String, Bool, false, some, [], ◌∷◌, ◌≡◌, refl, not, decimal, ◌==◌, StringMap, lookup_or,
}
use singbox_operator.Api.Objects.{SingBoxNode}
use singbox_operator.Controllers.Client.{found}
use singbox_operator.Controllers.Health.{
  KubernetesNode, is_node_available, node_ready_condition_changed, passes, with_condition,
  node_condition, update_node_ready_status,
}
use singbox_operator.Controllers.Status.{
  update_status, set_degraded, entry_endpoints, resolve_tls_server_name,
}
use singbox_operator.Controllers.Readiness.{
  is_up, is_sing_box_node_ready-update_node_ready_status, passes-node_condition,
}
use singbox_operator.ApiServer.Endpoints.{is_sing_box_node_ready}
use singbox_operator.Samples.{entry_node, status_conditions}

abbrev worker : StringMap String → String → KubernetesNode
worker annotations ready = record {
  name = "worker";
  annotations = annotations;
  conditions = record { type = "Ready"; status = ready; reason = "" } ∷ [];
}

abbrev taken_offline : KubernetesNode
taken_offline = worker (("singboxoperator.shlande.top/offline", "true") ∷ []) "True"

abbrev offline_entry : SingBoxNode
offline_entry =
    with_condition status_conditions
      (record { type = "NodeReady"; status = "False"; reason = "NodeOffline" }) entry_node

written :
    update_node_ready_status status_conditions (found taken_offline) (found entry_node)
    ≡ some offline_entry
unfolding update_node_ready_status is_node_available
written = refl

is_sing_box_node_ready-update_node_ready_status_example :
    is_sing_box_node_ready offline_entry ≡ is_up (found taken_offline)
is_sing_box_node_ready-update_node_ready_status_example =
    is_sing_box_node_ready-update_node_ready_status status_conditions (found taken_offline)
      entry_node offline_entry written

-- The annotations are compared by the one that matters here.
abbrev annotation_changed : KubernetesNode → KubernetesNode → Bool
annotation_changed old new =
    not (lookup_or "" "a" old.annotations == lookup_or "" "a" new.annotations)

abbrev pressed : KubernetesNode
pressed = record (worker [] "True") {
  conditions =
      record { type = "DiskPressure"; status = "True"; reason = "" }
      ∷ record { type = "Ready"; status = "True"; reason = "KubeletReady" }
      ∷ [];
}

quiet : passes annotation_changed (worker [] "True") pressed ≡ false
unfolding node_ready_condition_changed
quiet = refl

passes-node_condition_example :
    node_condition (found (worker [] "True")) ≡ node_condition (found pressed)
passes-node_condition_example =
    passes-node_condition annotation_changed (worker [] "True") pressed (λ e. refl) quiet

abbrev degraded_entry : SingBoxNode
degraded_entry = record entry_node {
  status = record entry_node.status {
    phase = "Failed";
    conditions = record { type = "Degraded"; status = "True"; reason = "ConfigComputeFailed" } ∷ [];
  };
}

degraded :
    set_degraded status_conditions "ConfigComputeFailed" (found entry_node) ≡ some degraded_entry
unfolding set_degraded
degraded = refl

abbrev recovered_entry : SingBoxNode
recovered_entry = record degraded_entry {
  status = record degraded_entry.status {
    phase = "Running";
    config_hash = "hash";
    tls_server_name = "proxy.example";
    conditions =
        record { type = "Degraded"; status = "True"; reason = "ConfigComputeFailed" }
        ∷ record { type = "Ready"; status = "True"; reason = "Reconciled" }
        ∷ [];
  };
}

recovered :
    update_status status_conditions
      (λ pem. some ("" ∷ "proxy.example" ∷ []))
      (λ ns n. found (("tls.crt", "PEM") ∷ []))
      "sing-box-tls"
      "hash"
      (found degraded_entry)
    ≡ some recovered_entry
unfolding update_status entry_endpoints resolve_tls_server_name decimal
recovered = refl
