-- ===== src/Controllers/Readiness.antt =====
-- What the conditions of a SingBoxNode say about its Kubernetes Node and its reconciliation.
use mathlib.Core.Path.{subst}
use mathlib.Core.Option.{some-injective}
use singbox_operator.Base.{
  Bool, false, not, ◌&&◌, Option, none, some, ◌≡◌, refl, sym, ap, ◌∙◌, arith, eq_iff, Bool-cases,
  inl, inr, ◌==◌, lookup_or,
}
use singbox_operator.Api.Objects.{Condition, SingBoxNode}
use singbox_operator.Api.Conditions.{StatusConditions, find_condition}
use singbox_operator.Controllers.Client.{Got, found, not_found, failed}
use singbox_operator.Controllers.Health.{
  KubernetesNode, node_ready, is_true, is_node_ready, is_node_offline_annotated, is_node_available,
  status_of, get_node_ready_status, node_ready_condition_changed, passes, node_condition,
  update_node_ready_status,
}
use singbox_operator.ApiServer.Endpoints.{is_true_or_absent, is_sing_box_node_ready}

-- Whether the Kubernetes Node can be read and is ready, and its annotation does not take it offline.
abbrev pub is_up : Got KubernetesNode → Bool
is_up not_found = false
is_up failed = false
is_up (found k) = is_node_ready k && not (is_node_offline_annotated k)

node_condition-is_up : (k : Got KubernetesNode) → (node_condition k).status == "True" ≡ is_up k
unfolding node_condition is_node_available
node_condition-is_up not_found = refl
node_condition-is_up failed = refl
node_condition-is_up (found k) = elim (Bool-cases (is_up (found k))) [
  | inl up ↦ rw up
  | inr down ↦ rw down
]

node_condition-type : (k : Got KubernetesNode) → (node_condition k).type ≡ "NodeReady"
unfolding node_condition
node_condition-type not_found = refl
node_condition-type failed = refl
node_condition-type (found k) = ground arith

-- After the controller has written the readiness of a node, the API server takes it as online
-- exactly when its Kubernetes Node can be read, is ready, and is not taken offline.
pub is_sing_box_node_ready-update_node_ready_status :
    (sc : StatusConditions) (k : Got KubernetesNode) (latest n : SingBoxNode)
    → update_node_ready_status sc k (found latest) ≡ some n
    → is_sing_box_node_ready n ≡ is_up k
unfolding update_node_ready_status is_sing_box_node_ready
is_sing_box_node_ready-update_node_ready_status sc k latest n written =
    subst (λ m. is_sing_box_node_ready m ≡ is_up k) (some-injective _ n written)
      (ap is_true_or_absent (
          ap (λ t. find_condition t (sc.set latest.status.conditions (node_condition k)))
            (sym (node_condition-type k))
          ∙ sc.find_set latest.status.conditions (node_condition k))
        ∙ node_condition-is_up k)

is_true-status_of : (c : Option Condition) → is_true c ≡ (status_of c == "True")
is_true-status_of none = refl
is_true-status_of (some c) = refl

-- An update of a Kubernetes Node that the controller does not react to leaves the condition as it
-- is, where the predicate on annotations lets no change of them pass unseen.
pub passes-node_condition :
    (annotations_changed : KubernetesNode → KubernetesNode → Bool) (old new : KubernetesNode)
    → (annotations_changed old new ≡ false → old.annotations ≡ new.annotations)
    → passes annotations_changed old new ≡ false
    → node_condition (found old) ≡ node_condition (found new)
unfolding node_condition is_node_available is_node_ready is_node_offline_annotated
    node_ready_condition_changed get_node_ready_status
passes-node_condition annotations_changed old new seen h =
    let quiet : annotations_changed old new ≡ false = ground arith in
    let same_status : get_node_ready_status old ≡ get_node_ready_status new =
      ground (arith, eq_iff (get_node_ready_status old) (get_node_ready_status new)) in
    let ready : is_node_ready old ≡ is_node_ready new =
      is_true-status_of (find_condition node_ready old.conditions)
      ∙ ap (λ s. s == "True") same_status
      ∙ sym (is_true-status_of (find_condition node_ready new.conditions)) in
    let offline : is_node_offline_annotated old ≡ is_node_offline_annotated new =
      ap (λ a. lookup_or "" "singboxoperator.shlande.top/offline" a == "true") (seen quiet) in
    rw (ready, offline)
