-- ===== src/Controllers/Rollout.antt =====
-- The Pod of a node over time: reconciliations, in which calls may fail, and the ends of
-- terminating Pods, in any order.
use mathlib.Core.Path.{subst}
use singbox_operator.Base.{
  String, Bool, true, false, Option, none, some, List, [], ◌∷◌, ◌≡◌, ◌⊎◌, inl, inr, refl, sym, ap,
  ◌∙◌, false≢true, eq_iff, ◌==◌, Bool-cases,
}
use singbox_operator.Api.Objects.{SingBoxNode}
use singbox_operator.Controllers.Pods.{
  Pod, Settings, PodCalls, desired_hash, desired_pod, terminate, reconcile_pod,
}

pub data Event : Type 0 where
  reconciled : PodCalls → Event
  vanished : Event

-- A terminating Pod is gone.
abbrev pub without_terminating : Option Pod → Option Pod
without_terminating none = none
without_terminating (some pod) = elim pod.is_terminating [ true ↦ none | false ↦ some pod ]

abbrev unless : Pod → Bool → Option Pod
unless pod b = elim b [ true ↦ none | false ↦ some pod ]

ends : (pod : Pod) → pod.is_terminating ≡ true → without_terminating (some pod) ≡ none
ends pod e = ap (unless pod) e

stays : (pod : Pod) → pod.is_terminating ≡ false → without_terminating (some pod) ≡ some pod
stays pod e = ap (unless pod) e

module _ (s : Settings) (node : SingBoxNode) (hash : String) where
  abbrev pub step : Option Pod → Event → Option Pod
  step pod (reconciled calls) = (reconcile_pod s node hash calls pod).1
  step pod vanished = without_terminating pod

  abbrev pub run : Option Pod → List Event → Option Pod
  run pod [] = pod
  run pod (e ∷ es) = run (step pod e) es

  -- The Pod runs with the wanted annotation.
  abbrev pub IsCurrent : Option Pod → Type 0
  IsCurrent none = ⊥
  IsCurrent (some pod) = (pod.config_hash ≡ desired_hash hash) × (pod.is_terminating ≡ false)

  -- The four ways in which a reconciliation treats a Pod that is there.
  step-some :
      (pod : Pod) (calls : PodCalls)
      → ((step (some pod) (reconciled calls) ≡ some pod)
          × ((calls.get ≡ false)
              ⊎ ((pod.config_hash == desired_hash hash ≡ true) ⊎ (calls.delete ≡ false))))
        ⊎ ((step (some pod) (reconciled calls) ≡ some (terminate pod))
            × (pod.config_hash == desired_hash hash ≡ false))
  unfolding reconcile_pod desired_pod
  step-some pod calls = elim (Bool-cases calls.get) [
    | inr f ↦ inl (rw (step, f), inl f)
    | inl t ↦ elim (Bool-cases (pod.config_hash == desired_hash hash)) [
      | inl same ↦ inl (rw (step, t, same), inr (inl same))
      | inr stale ↦ elim (Bool-cases calls.delete) [
        | inl d ↦ inr (rw (step, t, stale, d), stale)
        | inr n ↦ inl (rw (step, t, stale, n), inr (inr n))
      ]
    ]
  ]

  step-none :
      (calls : PodCalls)
      → (step none (reconciled calls) ≡ none)
        ⊎ (step none (reconciled calls) ≡ some (desired_pod s node hash))
  unfolding reconcile_pod
  step-none calls = elim (Bool-cases calls.get) [
    | inr f ↦ inl (rw (step, f))
    | inl t ↦ elim (Bool-cases calls.create) [
      | inl d ↦ inr (rw (step, t, d))
      | inr n ↦ inl (rw (step, t, n))
    ]
  ]

  step-IsCurrent : (pod : Option Pod) (e : Event) → IsCurrent pod → IsCurrent (step pod e)
  step-IsCurrent none e h = absurd h
  step-IsCurrent (some pod) vanished (same, running) =
      subst IsCurrent (sym (stays pod running)) (same, running)
  step-IsCurrent (some pod) (reconciled calls) (same, running) = elim (step-some pod calls) [
    | inl (kept, why) ↦ subst IsCurrent (sym kept) (same, running)
    | inr (ended, stale) ↦ absurd (false≢true (sym stale ∙ (eq_iff _ _).1 same))
  ]

  run-IsCurrent_stays :
      (pod : Option Pod) (es : List Event) → IsCurrent pod → IsCurrent (run pod es)
  run-IsCurrent_stays pod [] h = h
  run-IsCurrent_stays pod (e ∷ es) h = run-IsCurrent_stays (step pod e) es (step-IsCurrent pod e h)

  abbrev pub succeeds : PodCalls
  succeeds = record { get = true; delete = true; create = true }

  created : IsCurrent (step none (reconciled succeeds))
  unfolding reconcile_pod desired_pod
  created = (refl, refl)

  -- A current Pod that ends, or a stale one, is gone after it has ended.
  settled :
      (pod : Option Pod)
      → IsCurrent (run pod (reconciled succeeds ∷ vanished ∷ reconciled succeeds ∷ []))
  settled none =
      step-IsCurrent _ (reconciled succeeds)
        (step-IsCurrent (step none (reconciled succeeds)) vanished created)
  settled (some pod) = elim (step-some pod succeeds) [
    | inl (kept, why) ↦
        subst (λ q. IsCurrent (step (without_terminating q) (reconciled succeeds))) (sym kept)
          (elim (Bool-cases pod.is_terminating) [
            | inl ending ↦
                subst (λ q. IsCurrent (step q (reconciled succeeds))) (sym (ends pod ending))
                  created
            | inr running ↦
                subst (λ q. IsCurrent (step q (reconciled succeeds))) (sym (stays pod running))
                  (step-IsCurrent (some pod) (reconciled succeeds) (matches why, running))
          ])
    | inr (ended, stale) ↦
        subst (λ q. IsCurrent (step (without_terminating q) (reconciled succeeds))) (sym ended)
          created
  ]
    where
      matches :
          (◌≡◌ {A = Bool} true false)
            ⊎ ((pod.config_hash == desired_hash hash ≡ true) ⊎ (◌≡◌ {A = Bool} true false))
          → pod.config_hash ≡ desired_hash hash
      matches (inl e) = cc
      matches (inr (inl e)) = (eq_iff _ _).0 e
      matches (inr (inr e)) = cc

  -- From any state, a Pod with the wanted annotation runs after a reconciliation whose calls
  -- succeed, the end of the old Pod if it terminates, and another such reconciliation; and it stays
  -- through whatever follows.
  pub run-IsCurrent :
      (pod : Option Pod) (es : List Event)
      → IsCurrent (run pod (reconciled succeeds ∷ vanished ∷ reconciled succeeds ∷ es))
  run-IsCurrent pod es =
      run-IsCurrent_stays (run pod (reconciled succeeds ∷ vanished ∷ reconciled succeeds ∷ [])) es
        (settled pod)

  -- What may follow a Pod: itself, itself terminating, or none if it was.
  abbrev pub Follows : Pod → Option Pod → Type 0
  Follows old none = old.is_terminating ≡ true
  Follows old (some new) = (new ≡ old) ⊎ (new ≡ terminate old)

  -- No event puts another Pod in the place of one that is there, not even of a terminating one, and
  -- only a terminating Pod goes; and where there is none, at most the wanted one comes.
  pub step-Follows :
      (e : Event)
      → ((old : Pod) → Follows old (step (some old) e))
        × ((step none e ≡ none) ⊎ (step none e ≡ some (desired_pod s node hash)))
  step-Follows vanished = (
    λ old. elim (Bool-cases old.is_terminating) [
      | inl t ↦ subst (Follows old) (sym (ends old t)) t
      | inr f ↦ subst (Follows old) (sym (stays old f)) (inl refl)
    ],
    inl refl,
  )
  step-Follows (reconciled calls) = (
    λ old. elim (step-some old calls) [
      | inl (kept, why) ↦ subst (Follows old) (sym kept) (inl refl)
      | inr (ended, stale) ↦ subst (Follows old) (sym ended) (inr refl)
    ],
    step-none calls,
  )
