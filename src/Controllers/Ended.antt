-- ===== src/Controllers/Ended.antt =====
-- The steps of a reconciliation that are done, and what they leave.
use mathlib.Core.Path.{subst}
use singbox_operator.Base.{
  String, Bool, true, false, not, Option, none, some, List, [], ◌∷◌, all, ◌==◌, ◌≡◌, refl, sym, ◌∙◌,
  eq_iff, arith, if◌then◌else◌,
}
use singbox_operator.Api.Objects.{SingBoxNode}
use singbox_operator.Controllers.Client.{Got, found, not_found, failed}
use singbox_operator.Controllers.Pods.{
  Pod, PodCalls, Outcome, done, requeue, error, got, desired_hash, replace_pod, Service, is_owned,
  delete_orphan_services, terminate,
}

-- The predicate holds of the state if the step is done.
abbrev pub Ends {ℓ κ} : {A : Type ℓ} → (A → Type κ) → Outcome × A → Type κ
Ends P (done, a) = P a
Ends P (requeue, a) = Unit
Ends P (error, a) = Unit

pub Ends-if {ℓ κ} :
    {A : Type ℓ} (P : A → Type κ) (b : Bool) (x y : Outcome × A)
    → (b ≡ true → Ends P x)
    → (b ≡ false → Ends P y)
    → Ends P (if b then x else y)
Ends-if P true x y h k = h refl
Ends-if P false x y h k = k refl

pub Ends-done {ℓ κ} :
    {A : Type ℓ} (P : A → Type κ) (r : Outcome × A) → Ends P r → r.0 ≡ done → P r.1
Ends-done P (done, a) h e = h
Ends-done P (requeue, a) h e = cc
Ends-done P (error, a) h e = cc

abbrev pub Carries : String → Option Pod → Type 0
Carries hash none = ⊥
Carries hash (some pod) = pod.config_hash ≡ desired_hash hash

abbrev pub Shows : String → Option SingBoxNode → Type 0
Shows hash none = ⊥
Shows hash (some n) = (n.status.config_hash ≡ hash) × (n.status.phase ≡ "Running")

abbrev pub AreForeign : SingBoxNode → List Service → Type 0
AreForeign node svcs = all (λ svc. not (is_owned node svc)) svcs ≡ true

pub replace_pod-Carries :
    (calls : PodCalls) (wanted : Pod) (hash : String) (g : Got Pod) (pod : Option Pod)
    → wanted.config_hash ≡ desired_hash hash
    → ((q : Pod) → g ≡ found q → pod ≡ some q)
    → Ends (Carries hash) (replace_pod calls wanted g pod)
replace_pod-Carries calls wanted hash failed pod w h = tt
replace_pod-Carries calls wanted hash not_found pod w h =
    Ends-if (Carries hash) calls.create (done, some wanted) (error, pod) (λ t. w) (λ f. tt)
replace_pod-Carries calls wanted hash (found q) pod w h =
    Ends-if (Carries hash) (q.config_hash == wanted.config_hash) (done, pod)
      (if calls.delete then (requeue, some (terminate q)) else (error, pod))
      (λ t.
        subst (Carries hash) (sym (h q refl)) ((eq_iff q.config_hash wanted.config_hash).0 t ∙ w))
      (λ f.
        Ends-if (Carries hash) calls.delete (requeue, some (terminate q)) (error, pod) (λ t. tt)
          (λ g. tt))

pub got-found : (b : Bool) (pod : Option Pod) (q : Pod) → got b pod ≡ found q → pod ≡ some q
got-found false pod q e = cc
got-found true none q e = cc
got-found true (some pod) q e = cc

pub delete_orphan_services-AreForeign :
    (deletes : Service → Bool) (node : SingBoxNode) (svcs : List Service)
    → (delete_orphan_services deletes node svcs).0 ≡ true
    → AreForeign node (delete_orphan_services deletes node svcs).1
unfolding delete_orphan_services
delete_orphan_services-AreForeign deletes node [] h = refl
delete_orphan_services-AreForeign deletes node (svc ∷ svcs) h =
    ground (arith, delete_orphan_services-AreForeign deletes node svcs)
