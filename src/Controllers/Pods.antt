-- ===== src/Controllers/Pods.antt =====
-- The objects that carry a configuration: reconcileConfigMap, reconcilePod and deleteOrphanServices
-- of internal/controller/singboxnode_controller.go. Setting owners and resources is left out.
use singbox_operator.Base.{
  ℕ, String, join, Bool, true, false, not, ◌&&◌, Option, none, some, List, [], ◌∷◌, any, StringMap,
  ◌==◌, if◌then◌else◌,
}
use singbox_operator.Api.Objects.{SingBoxNode}
use singbox_operator.Engine.Config.{Output}
use singbox_operator.Controllers.Client.{Got, found, not_found, failed}
use singbox_operator.Controllers.Status.{needs_tls, tls_secret}

-- The ConfigMap of a node: its hash annotation, and the value under config.json.
pub record ConfigMap : Type 0 where
  pub hash : String
  pub config : List ℕ

-- A volume and where the container mounts it: from a ConfigMap or from the keys of a Secret.
pub data Volume : Type 0 where
  from_config_map : String → String → Volume
  from_secret : String → List String → String → Volume

pub record Pod : Type 0 where
  pub name : String
  -- The annotation that combines the hash of the configuration and the version of the template.
  pub config_hash : String
  pub labels : StringMap String
  pub node_name : String
  pub image : String
  pub args : List String
  pub volumes : List Volume
  -- A deleted Pod stays until its containers have ended.
  pub is_terminating : Bool

abbrev pub config_map_name : SingBoxNode → String
config_map_name node = join node.name "-config"

abbrev pub pod_name : SingBoxNode → String
pod_name node = join node.name "-sing-box-server"

-- The template version is 2.
abbrev pub desired_hash : String → String
desired_hash hash = join hash "-2"

abbrev pub tls_volumes : String → SingBoxNode → List Volume
tls_volumes default node =
    if needs_tls node && not (tls_secret default node == "")
    then from_secret (tls_secret default node) ("tls.crt" ∷ "tls.key" ∷ []) "/etc/sing-box/tls" ∷ []
    else []

abbrev pub sing_box_image : String → String
sing_box_image image = if image == "" then "ghcr.io/sagernet/sing-box:latest" else image

-- The fields of SingBoxNodeReconciler that a Pod depends on.
pub record Settings : Type 0 where
  pub default_tls_secret : String
  pub image : String

unfoldable pub desired_pod : Settings → SingBoxNode → String → Pod
unfolding needs_tls
desired_pod s node hash = record {
  name = pod_name node;
  config_hash = desired_hash hash;
  labels = ("app", "singbox") ∷ ("singboxnode", node.name) ∷ [];
  node_name = node.spec.node_ref;
  image = sing_box_image s.image;
  args = "run" ∷ "-c" ∷ "/etc/sing-box/config.json" ∷ [];
  volumes =
      from_config_map (config_map_name node) "/etc/sing-box"
      ∷ tls_volumes s.default_tls_secret node;
  is_terminating = false;
}

-- Whether the calls succeed: reading the Pod, deleting it (or finding it gone), creating it with
-- its owner.
pub record PodCalls : Type 0 where
  pub get : Bool
  pub delete : Bool
  pub create : Bool

-- What a step of a reconciliation ends with.
pub data Outcome : Type 0 where
  done requeue error : Outcome

abbrev pub got {ℓ} : {A : Type ℓ} → Bool → Option A → Got A
got false o = failed
got true none = not_found
got true (some a) = found a

-- Deleting a Pod starts its termination.
abbrev pub terminate : Pod → Pod
terminate pod = record pod { is_terminating = true }

abbrev pub replace_pod : PodCalls → Pod → Got Pod → Option Pod → Outcome × Option Pod
replace_pod calls wanted failed pod = (error, pod)
replace_pod calls wanted (found existing) pod =
    if existing.config_hash == wanted.config_hash
    then (done, pod)
    else if calls.delete
    then (requeue, some (terminate existing))
    else (error, pod)
replace_pod calls wanted not_found pod = if calls.create then (done, some wanted) else (error, pod)

-- The outcome, and the Pod of the node afterwards.
unfoldable pub reconcile_pod :
    Settings → SingBoxNode → String → PodCalls → Option Pod → Outcome × Option Pod
unfolding desired_pod
reconcile_pod s node hash calls pod =
    replace_pod calls (desired_pod s node hash) (got calls.get pod) pod

-- What CreateOrUpdate leaves where it succeeds.
unfoldable pub reconcile_config_map : Output → Option ConfigMap → Bool → Bool × Option ConfigMap
reconcile_config_map output old succeeds =
    if succeeds
    then (true, some (record { hash = output.hash; config = output.config }))
    else (false, old)

pub record Owner : Type 0 where
  pub kind : String
  pub name : String

pub record Service : Type 0 where
  pub name : String
  pub owners : List Owner

abbrev pub is_owned : SingBoxNode → Service → Bool
is_owned node svc = any (λ ref. ref.kind == "SingBoxNode" && ref.name == node.name) svc.owners

-- Deletes in the order of the list, and stops at the first call that fails. Whether all succeeded,
-- and the Services that are left.
unfoldable pub delete_orphan_services :
    (Service → Bool) → SingBoxNode → List Service → Bool × List Service
delete_orphan_services deletes node [] = (true, [])
delete_orphan_services deletes node (svc ∷ svcs) =
    let (ok, left) = delete_orphan_services deletes node svcs in
    if not (is_owned node svc)
    then (ok, svc ∷ left)
    else if deletes svc
    then (ok, left)
    else (false, svc ∷ svcs)
