-- ===== src/Engine/Restrictions.antt =====
-- The groups' restrictions of relay targets, and the kinds of rules of a configuration.
use singbox_operator.Base.{
  String, Bool, true, false, not, ◌&&◌, ◌||◌, ◌==◌, List, [], ◌∷◌, map, ◌≡◌, refl, ◌↔◌, ◌⊎◌, inl,
  inr, arith, All, All-append, All-mono, keep, is_empty, lookup_or, Bool-cases,
}
use singbox_operator.Api.Platform.{Platform}
use singbox_operator.Api.Objects.{User, EgressPolicy, action_route, action_reject}
use singbox_operator.Engine.Types.{
  Input, NameSet, RouteRule, virtual_user_name, is_node_allowed, inbound_tag, outbound_tag,
  effective_inbound_protocol,
}
use singbox_operator.Engine.Policies.{
  user_allowed, policy_auth_users, egress_name, policies_for_node, policy_rules, build_policy_rules,
  fallback_rules, policy_egress_available,
}
use singbox_operator.Engine.Config.{compute_config, config_rules, is_inbound, routes_for_node}
use singbox_operator.Engine.Resolution.{client_side-rules}
use mathlib.Core.List.{Memᴰ}
use singbox_operator.Engine.Inbounds.{route_rules}

-- A target that a group lets its members use: it is not denied, and it is allowed where the group
-- allows only some.
abbrev pub Allowed : String → NameSet → NameSet → Type 0
Allowed name allowed denied =
    (lookup_or false name denied ≡ false) × ((allowed ≡ []) ⊎ (lookup_or false name allowed ≡ true))

-- Denial wins, and an empty list of allowed names allows every name.
pub is_node_allowed_iff :
    (name : String) (allowed denied : NameSet)
    → (is_node_allowed name allowed denied ≡ true) ↔ Allowed name allowed denied
unfolding is_node_allowed
is_node_allowed_iff name [] denied = ground arith
is_node_allowed_iff name (a ∷ rest) denied = ground arith

-- `name` is the virtual user of a user of the node for the target, which its group lets it use.
pub record IsGranted (input : Input) (target name : String) : Type 0 where
  pub user : User
  pub known : Memᴰ user input.users
  pub virtual : name ≡ virtual_user_name user.name target
  pub allowed :
      Allowed target
        (lookup_or [] user.name input.user_node_allowlist)
        (lookup_or [] user.name input.user_node_restrictions)

keep-witness {ℓ} :
    {A : Type ℓ} (f : A → String) (p : A → Bool) (xs : List A)
    → All (λ s. (x : A) × Memᴰ x xs × (s ≡ f x) × (p x ≡ true)) (map f (keep p xs))
keep-witness f p [] = tt
keep-witness f p (x ∷ xs) =
    let later = All-mono (λ s (y, m, e, t). (y, Memᴰ.tail m, e, t)) _ (keep-witness f p xs) in
    elim (Bool-cases (p x)) [
      | inl t ↦ rw t ((x, Memᴰ.head refl, refl, t), later)
      | inr f ↦ rw f later
    ]

module _ (p : Platform) (input : Input) where
  policy_auth_users-IsGranted : (k : String) → All (IsGranted input k) (policy_auth_users input k)
  unfolding policy_auth_users
  policy_auth_users-IsGranted k =
      All-mono
        (λ s (u, known, e, t). record {
          user = u;
          known = known;
          virtual = e;
          allowed = (is_node_allowed_iff k _ _).0 t;
        })
        _ (keep-witness (λ u. virtual_user_name u.name k) (user_allowed input k) input.users)

  -- The rule of a policy's matches: it names no user, and rejects or goes to the policy's target.
  abbrev pub IsMatchRule : EgressPolicy → RouteRule → Type 0
  IsMatchRule q r =
      (r.auth_user ≡ [])
      × (r.inbound ≡ inbound_tag (effective_inbound_protocol input.node) ∷ [])
      × (r.domain ≡ q.spec.match.domain)
      × (r.domain_suffix ≡ q.spec.match.domain_suffix)
      × (r.domain_regex ≡ q.spec.match.domain_regex)
      × (r.ip_cidr ≡ q.spec.match.ip_cidr)
      × (r.rule_set ≡ q.spec.match.rule_set)
      × ((q.spec.action == action_reject ≡ true) × (r.action ≡ action_reject)
          ⊎ ((q.spec.action == action_reject ≡ false)
              × (r.action ≡ "")
              × (r.outbound ≡ outbound_tag (egress_name p input q))))

  -- The rule goes to the target, or it is the one by which a policy rejects what else goes there.
  abbrev pub IsFor : List EgressPolicy → String → RouteRule → Type 0
  IsFor qs target r =
      ((r.action ≡ "") × (r.outbound ≡ outbound_tag target))
      ⊎ ((r.action ≡ action_reject)
          × ((q : EgressPolicy) × Memᴰ q qs
              × (q.spec.fallback_action == action_reject ≡ true)
              × (egress_name p input q ≡ target)))

  -- The rule is that of a policy's matches, or it names virtual users of one target.
  abbrev pub Grants : List EgressPolicy → RouteRule → Type 0
  Grants qs r =
      ((q : EgressPolicy) × Memᴰ q qs × IsMatchRule q r)
      ⊎ ((target : String) × (is_empty r.auth_user ≡ false)
          × All (IsGranted input target) r.auth_user
          × IsFor qs target r)

  Grants-later :
      (x : EgressPolicy) (qs : List EgressPolicy) (r : RouteRule) → Grants qs r → Grants (x ∷ qs) r
  Grants-later x qs r (inl (q, m, h)) = inl (q, Memᴰ.tail m, h)
  Grants-later x qs r (inr (t, some_user, g, inl to)) = inr (t, some_user, g, inl to)
  Grants-later x qs r (inr (t, some_user, g, inr (rejects, (q, m, h, e)))) =
      inr (t, some_user, g, inr (rejects, (q, Memᴰ.tail m, h, e)))

  route_rules-Grants :
      (qs : List EgressPolicy) (targets : List String)
      → All (Grants qs) (route_rules p input targets)
  unfolding route_rules
  route_rules-Grants qs [] = tt
  route_rules-Grants qs (k ∷ targets) = elim (Bool-cases (is_empty (policy_auth_users input k))) [
    | inl nobody ↦ rw nobody (route_rules-Grants qs targets)
    | inr users ↦ rw users (
      inr (k, users, policy_auth_users-IsGranted k, inl (refl, refl)),
      route_rules-Grants qs targets,
    )
  ]

  fallback_rules-Grants :
      (q : EgressPolicy) (qs : List EgressPolicy) → All (Grants (q ∷ qs)) (fallback_rules p input q)
  fallback_rules-Grants q qs =
      elim (Bool-cases (q.spec.action == action_route && q.spec.fallback_action == action_reject)) [
        | inr f ↦ rw f tt
        | inl t ↦
            rw t
              (elim (Bool-cases (
                not (egress_name p input q == "")
                && policy_egress_available input (egress_name p input q)
                && not (is_empty (policy_auth_users input (egress_name p input q))))) [
                  | inr f ↦ rw f tt
                  | inl live ↦ rw live (
                    inr (
                      egress_name p input q,
                      ground arith,
                      policy_auth_users-IsGranted (egress_name p input q),
                      inr (refl, (q, Memᴰ.head refl, ground arith, refl)),
                    ),
                    tt,
                  )
                ])
      ]

  policy_rules-Grants :
      (q : EgressPolicy) (qs : List EgressPolicy) → All (Grants (q ∷ qs)) (policy_rules p input q)
  unfolding policy_rules
  policy_rules-Grants q qs = elim (Bool-cases (q.spec.action == action_reject)) [
    | inl t ↦ rw t (
      inl (q, Memᴰ.head refl, (refl, refl, refl, refl, refl, refl, refl, inl (t, refl))),
      fallback_rules-Grants q qs,
    )
    | inr f ↦
        rw f
          (elim (Bool-cases (
            egress_name p input q == ""
            || not (policy_egress_available input (egress_name p input q)))) [
              | inl off ↦ rw off tt
              | inr on ↦ rw on (
                inl (
                  q,
                  Memᴰ.head refl,
                  (refl, refl, refl, refl, refl, refl, refl, inr (f, refl, refl)),
                ),
                fallback_rules-Grants q qs,
              )
            ])
  ]

  build_policy_rules-Grants :
      (qs : List EgressPolicy) → All (Grants qs) (build_policy_rules p input qs)
  unfolding build_policy_rules
  build_policy_rules-Grants [] = tt
  build_policy_rules-Grants (q ∷ qs) =
      All-append _ (policy_rules p input q) (build_policy_rules p input qs)
        (policy_rules-Grants q qs) (All-mono (Grants-later q qs) _ (build_policy_rules-Grants qs))

  -- Each rule of the configuration is of one of two kinds. Either it is the rule of a policy's matches, which names
  -- no user, and which rejects or goes to the policy's target. Or it names virtual users of
  -- one target, each of a user of the node whose group lets it relay through that target, and the rule
  -- goes to that target, or rejects where a policy of that target has the fallback reject.
  pub config_rules-IsGranted : All (Grants (policies_for_node input)) (compute_config p input).rules
  unfolding compute_config config_rules
  config_rules-IsGranted =
      All-append _ (build_policy_rules p input (policies_for_node input)) _
        (build_policy_rules-Grants (policies_for_node input))
        (elim (Bool-cases (is_inbound input)) [
          | inl inbound ↦
              rw inbound
                (elim (client_side-rules p input (routes_for_node input)
                  (policies_for_node input)) [
                    | inl e ↦ rw e (route_rules-Grants (policies_for_node input) _)
                    | inr e ↦ rw e tt
                  ])
          | inr outbound ↦ rw outbound tt
        ])
