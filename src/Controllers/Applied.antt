-- ===== src/Controllers/Applied.antt =====
-- What a reconciliation of a node that ends without an error leaves in the cluster.
use mathlib.Core.Path.{subst}
use mathlib.Core.Option.{some-injective}
use singbox_operator.Base.{
  String, Bool, true, false, not, Option, none, some, List, ◌≡◌, refl, sym, if◌then◌else◌,
}
use singbox_operator.Api.Objects.{SingBoxNode, has_role, role_outbound}
use singbox_operator.Engine.Types.{Input, NodeCredential}
use singbox_operator.Engine.Config.{compute}
use singbox_operator.Controllers.Client.{Got, found, not_found, failed}
use singbox_operator.Controllers.Credentials.{Secrets, ensure_node_credential}
use singbox_operator.Controllers.Status.{update_status}
use singbox_operator.Controllers.Collect.{collect_input}
use singbox_operator.Controllers.Pods.{
  Pod, Outcome, done, requeue, error, got, desired_pod, replace_pod, reconcile_pod,
  reconcile_config_map, Service, delete_orphan_services,
}
use singbox_operator.Controllers.Nodes.{
  Cluster, Operator, Calls, write_status, clean_up, after_pod, roll_out, apply, client_with,
  configure, with_credential, provision, mark_ready, reconcile,
}
use singbox_operator.Controllers.Ended.{
  Ends, Ends-if, Ends-done, Carries, Shows, AreForeign, replace_pod-Carries, got-found,
  delete_orphan_services-AreForeign,
}

module _ (o : Operator) (calls : Calls) (node : SingBoxNode) where
  -- The ConfigMap holds the configuration that is computed from what the lists give now, the Pod
  -- carries its hash, and the status shows it; and no Service is left that the node owns.
  abbrev pub Applied : Cluster → Type 0
  Applied w =
      (input : Input) × (collect_input o.platform (client_with o calls w.secrets) node
          o.usage_collection_enabled o.v2ray_api_listen_addr
        ≡ some input)
      × (w.config_map
          ≡ some (record {
            hash = (compute o.platform input o.marshal).hash;
            config = (compute o.platform input o.marshal).config;
          }))
      × Carries (compute o.platform input o.marshal).hash w.pod
      × AreForeign node w.services
      × Shows (compute o.platform input o.marshal).hash w.stored

  update_status-Shows :
      (secrets : Secrets) (hash : String) (g : Got SingBoxNode) (n : SingBoxNode)
      → update_status o.conditions o.read_certificate secrets o.settings.default_tls_secret hash g
        ≡ some n
      → Shows hash (some n)
  unfolding update_status
  update_status-Shows secrets hash not_found n e = cc
  update_status-Shows secrets hash failed n e = cc
  update_status-Shows secrets hash (found latest) n e =
      subst (λ m. Shows hash (some m)) (some-injective _ n e) (refl, refl)

  written :
      (P : Cluster → Type 0) (w : Cluster) (r : Option SingBoxNode)
      → ((n : SingBoxNode) → r ≡ some n → P (record w { stored = some n }))
      → Ends P (elim r [
        | none ↦ (error, w)
        | some n ↦ if calls.write_status then (done, record w { stored = some n }) else (error, w)
      ])
  written P w none h = tt
  written P w (some n) h =
      Ends-if P calls.write_status (done, record w { stored = some n }) (error, w) (λ t. h n refl)
        (λ f. tt)

  write_status-Ends :
      (P : Cluster → Type 0) (hash : String) (w : Cluster)
      → ((n : SingBoxNode) → Shows hash (some n) → P (record w { stored = some n }))
      → Ends P (write_status o calls hash w)
  write_status-Ends P hash w h =
      let g = got calls.get_for_status w.stored in
      written P w
        (update_status o.conditions o.read_certificate w.secrets o.settings.default_tls_secret hash
          g)
        (λ n e. h n (update_status-Shows w.secrets hash g n e))

  clean_up-Ends :
      (P : Cluster → Type 0) (hash : String) (w : Cluster)
      → ((left : List Service) (n : SingBoxNode)
          → AreForeign node left
          → Shows hash (some n)
          → P (record w { services = left; stored = some n }))
      → Ends P (clean_up o calls node hash w)
  clean_up-Ends P hash w h =
      let left = (delete_orphan_services calls.deletes_service node w.services).1 in
      let cleaned = record w { services = left } in
      let ok = (delete_orphan_services calls.deletes_service node w.services).0 in
      Ends-if P (not calls.list_services) (error, w)
        (if ok then write_status o calls hash cleaned else (error, cleaned)) (λ t. tt)
        (λ f.
          Ends-if P ok (write_status o calls hash cleaned) (error, cleaned)
            (λ t. write_status-Ends P hash cleaned (λ n shows.
              h left n (delete_orphan_services-AreForeign calls.deletes_service node w.services t)
                shows))
            (λ g. tt))

  after_pod-Ends :
      (P : Cluster → Type 0) (hash : String) (w : Cluster) (r : Outcome × Option Pod)
      → Ends (Carries hash) r
      → (Carries hash r.1 → Ends P (clean_up o calls node hash (record w { pod = r.1 })))
      → Ends P (after_pod o calls r.0 node hash (record w { pod = r.1 }))
  after_pod-Ends P hash w (done, pod) c h = h c
  after_pod-Ends P hash w (requeue, pod) c h = tt
  after_pod-Ends P hash w (error, pod) c h = tt

  roll_out-Ends :
      (P : Cluster → Type 0) (hash : String) (w : Cluster)
      → ((pod : Option Pod) (left : List Service) (n : SingBoxNode)
          → Carries hash pod
          → AreForeign node left
          → Shows hash (some n)
          → P (record w { pod = pod; services = left; stored = some n }))
      → Ends P (roll_out o calls node hash w)
  unfolding reconcile_pod desired_pod
  roll_out-Ends P hash w h =
      let wanted = desired_pod o.settings node hash in
      let g = got calls.pod.get w.pod in
      let r = replace_pod calls.pod wanted g w.pod in
      after_pod-Ends P hash w r
        (replace_pod-Carries calls.pod wanted hash g w.pod refl
          (λ q e. got-found calls.pod.get w.pod q e))
        (λ carries.
          clean_up-Ends P hash (record w { pod = r.1 })
            (λ left n foreign shows. h r.1 left n carries foreign shows))

  configured :
      (w : Cluster) (r : Option Input)
      → ((input : Input)
          → r ≡ some input
          → Ends Applied (apply o calls node (compute o.platform input o.marshal) w))
      → Ends Applied (elim r [
        | none ↦ (error, w)
        | some input ↦ apply o calls node (compute o.platform input o.marshal) w
      ])
  configured w none h = tt
  configured w (some input) h = h input refl

  configure-Ends : (w : Cluster) → Ends Applied (configure o calls node w)
  unfolding reconcile_config_map
  configure-Ends w =
      configured w
        (collect_input o.platform (client_with o calls w.secrets) node o.usage_collection_enabled
          o.v2ray_api_listen_addr)
        (λ input collected.
          let output = compute o.platform input o.marshal in
          applied w input collected calls.write_config_map)
    where
      applied :
          (w : Cluster) (input : Input)
          → collect_input o.platform
              (client_with o calls w.secrets)
              node
              o.usage_collection_enabled
              o.v2ray_api_listen_addr
            ≡ some input
          → (b : Bool)
          → Ends Applied (
              if (reconcile_config_map (compute o.platform input o.marshal) w.config_map b).0
              then roll_out o calls node (compute o.platform input o.marshal).hash (record w {
                config_map =
                    (reconcile_config_map (compute o.platform input o.marshal) w.config_map b).1;
              })
              else (error, w))
      applied w input collected false = tt
      applied w input collected true =
          roll_out-Ends Applied (compute o.platform input o.marshal).hash
            (record w {
              config_map =
                  (reconcile_config_map (compute o.platform input o.marshal) w.config_map true).1;
            })
            (λ pod left n carries foreign shows. (input, collected, refl, carries, foreign, shows))

  provision-Ends : (w : Cluster) → Ends Applied (provision o calls node w)
  provision-Ends w =
      Ends-if Applied (has_role node role_outbound)
        (with_credential o calls node (ensure_node_credential calls.credential node w.secrets) w)
        (configure o calls node w)
        (λ t. provided (ensure_node_credential calls.credential node w.secrets))
        (λ f. configure-Ends w)
    where
      provided :
          (e : Option NodeCredential × Secrets) → Ends Applied (with_credential o calls node e w)
      provided (none, secrets) = tt
      provided (some credential, secrets) = configure-Ends (record w { secrets = secrets })

  -- A reconciliation that ends without an error and without asking for another one, of a node that
  -- is not deleted and has its finalizer, leaves in the cluster what it computed: the ConfigMap has
  -- the configuration of the input that the lists give, the Pod carries its hash, the status shows
  -- it, and no Service is owned by the node.
  pub reconcile-Applied :
      (w : Cluster)
      → calls.get_node ≡ true
      → w.stored ≡ some node
      → w.is_deleted ≡ false
      → w.has_finalizer ≡ true
      → (reconcile o calls w).0 ≡ done
      → Applied (reconcile o calls w).1
  unfolding reconcile
  reconcile-Applied w get stored kept finalizer ends =
      let read : reconcile o calls w ≡ provision o calls node (mark_ready o calls w) =
        rw (reconcile, get, stored, kept, finalizer) in
      subst (λ r. Applied r.1) (sym read)
        (Ends-done Applied (provision o calls node (mark_ready o calls w))
          (provision-Ends (mark_ready o calls w)) (subst (λ r. r.0 ≡ done) read ends))
