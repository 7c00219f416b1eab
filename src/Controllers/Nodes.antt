-- ===== src/Controllers/Nodes.antt =====
-- Reconcile, handleDeletion and ensureCredential of internal/controller/singboxnode_controller.go:
-- one reconciliation of a SingBoxNode, on the objects of the cluster that it changes.
use singbox_operator.Base.{
  ℕ, String, Bool, true, false, not, Option, none, some, List, if◌then◌else◌,
}
use singbox_operator.Api.Platform.{Platform}
use singbox_operator.Api.Objects.{SingBoxNode, has_role, role_outbound}
use singbox_operator.Api.Conditions.{StatusConditions}
use singbox_operator.Engine.Types.{SingboxConfig, NodeCredential}
use singbox_operator.Engine.Config.{Output, compute}
use singbox_operator.Controllers.Client.{Client, Got, found, not_found, failed}
use singbox_operator.Controllers.Credentials.{Secrets, Outcomes, ensure_node_credential}
use singbox_operator.Controllers.Health.{KubernetesNode, update_node_ready_status}
use singbox_operator.Controllers.Status.{ReadCertificate, update_status}
use singbox_operator.Controllers.Collect.{collect_input}
use singbox_operator.Controllers.Pods.{
  ConfigMap, Pod, Settings, PodCalls, Outcome, done, requeue, error, got, reconcile_pod,
  reconcile_config_map, Service, delete_orphan_services,
}

-- The objects of one node. `stored` is the node itself, as the API server has it.
pub record Cluster : Type 0 where
  pub stored : Option SingBoxNode
  pub is_deleted : Bool
  pub has_finalizer : Bool
  pub secrets : Secrets
  pub config_map : Option ConfigMap
  pub pod : Option Pod
  pub services : List Service

-- The operator: SingBoxNodeReconciler, and third-party code that it calls.
pub record Operator : Type 0 where
  pub platform : Platform
  pub conditions : StatusConditions
  pub read_certificate : ReadCertificate
  pub marshal : SingboxConfig → List ℕ
  pub settings : Settings
  pub usage_collection_enabled : Bool
  pub v2ray_api_listen_addr : String

-- What the calls of one reconciliation answer, or whether they succeed. The lists of other objects
-- are those of `lists`, whose Secrets are not used.
pub record Calls : Type 0 where
  pub get_node : Bool
  pub update : Bool
  pub kubernetes_node : Got KubernetesNode
  pub get_for_ready : Bool
  pub write_ready : Bool
  pub credential : Outcomes
  pub lists : Client
  pub write_config_map : Bool
  pub pod : PodCalls
  pub list_services : Bool
  pub deletes_service : Service → Bool
  pub get_for_status : Bool
  pub write_status : Bool

module _ (o : Operator) (calls : Calls) where
  abbrev pub write_status : String → Cluster → Outcome × Cluster
  write_status hash w =
      elim (update_status o.conditions o.read_certificate w.secrets o.settings.default_tls_secret
        hash (got calls.get_for_status w.stored)) [
          | none ↦ (error, w)
          | some n ↦ if calls.write_status then (done, record w { stored = some n }) else (error, w)
        ]

  abbrev pub clean_up : SingBoxNode → String → Cluster → Outcome × Cluster
  clean_up node hash w =
      if not calls.list_services
      then (error, w)
      else let (ok, left) = delete_orphan_services calls.deletes_service node w.services in
        if ok
        then write_status hash (record w { services = left })
        else (error, record w { services = left })

  -- Only a Pod that is as wanted lets the reconciliation go on.
  abbrev pub after_pod : Outcome → SingBoxNode → String → Cluster → Outcome × Cluster
  after_pod error node hash w = (error, w)
  after_pod requeue node hash w = (requeue, w)
  after_pod done node hash w = clean_up node hash w

  abbrev pub roll_out : SingBoxNode → String → Cluster → Outcome × Cluster
  roll_out node hash w =
      let (outcome, pod) = reconcile_pod o.settings node hash calls.pod w.pod in
      after_pod outcome node hash (record w { pod = pod })

  abbrev pub apply : SingBoxNode → Output → Cluster → Outcome × Cluster
  apply node output w =
      let (ok, config_map) = reconcile_config_map output w.config_map calls.write_config_map in
      if ok then roll_out node output.hash (record w { config_map = config_map }) else (error, w)

  -- The client, with the Secrets as they are now: a read sees what the same reconciliation created,
  -- as where the cache has caught up.
  abbrev pub client_with : Secrets → Client
  client_with secrets = record calls.lists { get_secret = secrets }

  -- Compute fails only where json.Marshal does, which `marshal` does not: the branch that calls setDegraded
  -- is never taken.
  abbrev pub configure : SingBoxNode → Cluster → Outcome × Cluster
  configure node w =
      elim (collect_input o.platform (client_with w.secrets) node o.usage_collection_enabled
        o.v2ray_api_listen_addr) [
          | none ↦ (error, w)
          | some input ↦ apply node (compute o.platform input o.marshal) w
        ]

  -- What follows ensureCredential, on the credential or its error and the Secrets afterwards.
  abbrev pub with_credential :
      SingBoxNode → Option NodeCredential × Secrets → Cluster → Outcome × Cluster
  with_credential node (none, secrets) w = (error, record w { secrets = secrets })
  with_credential node (some credential, secrets) w =
      configure node (record w { secrets = secrets })

  abbrev pub provision : SingBoxNode → Cluster → Outcome × Cluster
  provision node w =
      if has_role node role_outbound
      then with_credential node (ensure_node_credential calls.credential node w.secrets) w
      else configure node w

  -- updateNodeReadyStatus; a failure of it is only logged.
  abbrev pub mark_ready : Cluster → Cluster
  mark_ready w =
      elim (update_node_ready_status o.conditions calls.kubernetes_node
        (got calls.get_for_ready w.stored)) [
          | none ↦ w
          | some n ↦ if calls.write_ready then record w { stored = some n } else w
        ]

  -- Kubernetes removes the node itself after its last finalizer.
  unfoldable pub handle_deletion : Cluster → Outcome × Cluster
  handle_deletion w =
      if w.has_finalizer
      then (if calls.update then (done, record w { has_finalizer = false }) else (error, w))
      else (done, w)

  abbrev pub reconcile_found : Got SingBoxNode → Cluster → Outcome × Cluster
  reconcile_found failed w = (error, w)
  reconcile_found not_found w = (done, w)
  reconcile_found (found node) w =
      if w.is_deleted
      then handle_deletion w
      else if not w.has_finalizer
      then (if calls.update then (requeue, record w { has_finalizer = true }) else (error, w))
      else provision node (mark_ready w)

  -- The outcome, and the cluster afterwards.
  unfoldable pub reconcile : Cluster → Outcome × Cluster
  unfolding handle_deletion
  reconcile w = reconcile_found (got calls.get_node w.stored) w
