-- ===== src/Controllers/Health.antt =====
-- internal/controller/node_health.go, and the condition that updateNodeReadyStatus of
-- singboxnode_controller.go writes.
use singbox_operator.Base.{
  String, Bool, false, not, ◌&&◌, ◌||◌, Option, none, some, List, StringMap, lookup_or, ◌==◌,
  if◌then◌else◌,
}
use singbox_operator.Api.Objects.{Condition, SingBoxNode}
use singbox_operator.Api.Conditions.{StatusConditions, find_condition}
use singbox_operator.Controllers.Client.{Got, found, not_found, failed}

-- corev1.Node
pub record KubernetesNode : Type 0 where
  pub name : String
  pub annotations : StringMap String
  pub conditions : List Condition

abbrev pub node_ready : String
node_ready = "Ready"

abbrev pub node_ready_condition_type : String
node_ready_condition_type = "NodeReady"

abbrev pub offline_annotation : String
offline_annotation = "singboxoperator.shlande.top/offline"

abbrev pub is_true : Option Condition → Bool
is_true none = false
is_true (some c) = c.status == "True"

unfoldable pub is_node_ready : KubernetesNode → Bool
is_node_ready node = is_true (find_condition node_ready node.conditions)

unfoldable pub is_node_offline_annotated : KubernetesNode → Bool
is_node_offline_annotated node = lookup_or "" offline_annotation node.annotations == "true"

unfoldable pub is_node_available : KubernetesNode → Bool
unfolding is_node_ready is_node_offline_annotated
is_node_available node = is_node_ready node && not (is_node_offline_annotated node)

abbrev pub status_of : Option Condition → String
status_of none = "Unknown"
status_of (some c) = c.status

unfoldable pub get_node_ready_status : KubernetesNode → String
get_node_ready_status node = status_of (find_condition node_ready node.conditions)

-- NodeReadyConditionChangedPredicate.UpdateFunc, on objects that are there and are Nodes.
unfoldable pub node_ready_condition_changed : KubernetesNode → KubernetesNode → Bool
unfolding get_node_ready_status
node_ready_condition_changed old new = not (get_node_ready_status old == get_node_ready_status new)

-- The filter of Node events in SetupWithManager; the second predicate is controller-runtime's.
abbrev pub passes :
    (KubernetesNode → KubernetesNode → Bool) → KubernetesNode → KubernetesNode → Bool
passes annotations_changed old new =
    node_ready_condition_changed old new || annotations_changed old new

abbrev pub ready_condition : String → String → Condition
ready_condition status reason = record {
  type = node_ready_condition_type;
  status = status;
  reason = reason;
}

-- The condition that the Kubernetes Node of a SingBoxNode gives it; any error means that it is not
-- found.
unfoldable pub node_condition : Got KubernetesNode → Condition
node_condition not_found = ready_condition "False" "NodeNotFound"
node_condition failed = ready_condition "False" "NodeNotFound"
node_condition (found k) =
    if not (is_node_available k)
    then ready_condition "False"
        (if is_node_offline_annotated k then "NodeOffline" else "NodeNotReady")
    else ready_condition "True" "NodeReady"

abbrev pub with_condition : StatusConditions → Condition → SingBoxNode → SingBoxNode
with_condition sc c node = record node {
  status = record node.status { conditions = sc.set node.status.conditions c };
}

-- The object that is sent to the API server; `none` if the latest one cannot be read.
unfoldable pub update_node_ready_status :
    StatusConditions → Got KubernetesNode → Got SingBoxNode → Option SingBoxNode
unfolding node_condition
update_node_ready_status sc k8s_node not_found = none
update_node_ready_status sc k8s_node failed = none
update_node_ready_status sc k8s_node (found latest) =
    some (with_condition sc (node_condition k8s_node) latest)
