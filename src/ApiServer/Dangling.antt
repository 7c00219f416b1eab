-- ===== src/ApiServer/Dangling.antt =====
-- The rules of the policies that take the selector "ai", and whether there is one.
use mathlib.Core.Path.{subst}
use singbox_operator.Base.{
  ℕ, All, eq_refl, nat_eq, String, Bool, true, false, not, ◌&&◌, ◌||◌, some, List, [], ◌∷◌, any,
  sort, any-sort, lookup_or, ◌==◌, ◌≡◌, refl, ◌∙◌, ap, arith, inl, inr, Bool-cases, Option-cases,
}
use singbox_operator.Api.Platform.{Platform}
use singbox_operator.Api.Objects.{SingBoxNode, EgressPolicy, action_reject}
use singbox_operator.Engine.Types.{RouteRule}
use singbox_operator.Engine.Policies.{policy_lt}
use singbox_operator.ApiServer.Targets.{ClientConfigInput, target_has_client_group}
use singbox_operator.ApiServer.Policies.{
  ClientPolicies, refused, built, policy_match_rule, with_rule, resolve_client_policy_egress,
  policy_error, add_route_rule, add_policy_rule, client_policies, build_client_policies,
}
use singbox_operator.ApiServer.Config.{
  Selector, ClientConfig, hiding, entry_of, build_client_config,
}
use singbox_operator.ApiServer.Offers.{offers, any-build_client_config}

abbrev pub to_ai : RouteRule → Bool
to_ai r = r.outbound == "ai"

module _ (p : Platform) (input : ClientConfigInput) where
  -- Whether the selector of a route policy matches one target, and that target is of the group "ai".
  abbrev pub has_ai_target : EgressPolicy → Bool
  has_ai_target q =
      let (name, count) = resolve_client_policy_egress p input q in
      not (q.spec.action == action_reject)
      && nat_eq count 1
      && target_has_client_group input name "ai"

  Extends : Bool → ClientPolicies → ClientPolicies → Type 0
  Extends b rest (refused e) = Unit
  Extends b rest (built rules targets) =
      (r : List RouteRule) × (t : List String) × (rest ≡ built r t)
      × (any to_ai rules ≡ (b || any to_ai r))

  Extends-with_rule :
      (rule : RouteRule) (names : List String) (rest : ClientPolicies)
      → Extends (to_ai rule) rest (with_rule rule names rest)
  unfolding Extends
  Extends-with_rule rule names (refused e) = tt
  Extends-with_rule rule [] (built r t) = (r, t, refl, refl)
  Extends-with_rule rule (n ∷ ns) (built r t) = (r, t, refl, refl)

  Extends-same : (rest : ClientPolicies) → Extends false rest rest
  unfolding Extends
  Extends-same (refused e) = tt
  Extends-same (built r t) = (r, t, refl, refl)

  Extends-add_route_rule :
      (q : EgressPolicy) (name : String) (count : ℕ) (rest : ClientPolicies)
      → Extends
          (nat_eq count 1 && target_has_client_group input name "ai")
          rest
          (add_route_rule p input q (name, count) rest)
  unfolding Extends policy_match_rule
  Extends-add_route_rule q name count rest = elim (Bool-cases (nat_eq count 0)) [
    | inl none_matches ↦
        let other : nat_eq count 1 ≡ false = ground arith in
        rw (none_matches, other) (Extends-same rest)
    | inr some_match ↦ elim (Bool-cases (nat_eq count 1)) [
      | inr many ↦ rw (add_route_rule, some_match, many) tt
      | inl one ↦ elim (Bool-cases (target_has_client_group input name "ai")) [
        | inl t ↦
            rw (add_route_rule, some_match, one, t)
              (Extends-with_rule (record (policy_match_rule q.spec.match) { outbound = "ai" })
                (name ∷ []) rest)
        | inr f ↦
            rw (add_route_rule, some_match, one, f)
              (Extends-with_rule (record (policy_match_rule q.spec.match) { action = "reject" })
                (name ∷ []) rest)
      ]
    ]
  ]

  Extends-add_policy_rule :
      (q : EgressPolicy) (rest : ClientPolicies)
      → Extends (has_ai_target q) rest (add_policy_rule p input q rest)
  unfolding Extends policy_match_rule
  Extends-add_policy_rule q rest = elim (Bool-cases (q.spec.action == action_reject)) [
    | inl t ↦
        rw t (
          Extends-with_rule (record (policy_match_rule q.spec.match) { action = "reject" }) [] rest)
    | inr f ↦
        let (name, count) = resolve_client_policy_egress p input q in
        rw f (Extends-add_route_rule q name count rest)
  ]

  -- The rules that take "ai" come from the policies with such a target.
  IsFaithful : List EgressPolicy → ClientPolicies → Type 0
  IsFaithful qs (refused e) = Unit
  IsFaithful qs (built rules targets) = any to_ai rules ≡ any has_ai_target qs

  IsFaithful-client_policies : (qs : List EgressPolicy) → IsFaithful qs (client_policies p input qs)
  unfolding client_policies IsFaithful Extends
  IsFaithful-client_policies [] = refl
  IsFaithful-client_policies (q ∷ qs) = elim (Option-cases (policy_error p input q)) [
    | inl e ↦
        rw (client_policies, e)
          (extended (client_policies p input qs) (IsFaithful-client_policies qs)
            (add_policy_rule p input q (client_policies p input qs))
            (Extends-add_policy_rule q (client_policies p input qs)))
    | inr (e, some_error) ↦ rw (client_policies, some_error) tt
  ]
    where
      extended :
          (rest : ClientPolicies)
          → IsFaithful qs rest
          → (all : ClientPolicies) → Extends (has_ai_target q) rest all
          → IsFaithful (q ∷ qs) all
      extended rest h (refused e) ext = tt
      extended rest h (built rules targets) (r, t, e, grown) =
          let below : any to_ai r ≡ any has_ai_target qs = subst (IsFaithful qs) e h in
          grown ∙ ap (λ b. has_ai_target q || b) below

all_offline-offers :
    (p : Platform) (i : ClientConfigInput) (g : String) (ns : List SingBoxNode)
    → All (λ n. lookup_or false n.name i.offline_node_names ≡ true) ns
    → any (offers p i g) ns ≡ false
all_offline-offers p i g [] h = refl
all_offline-offers p i g (n ∷ ns) (offline, h) =
    rw (offers, entry_of, offline) (all_offline-offers p i g ns h)

no_selectors : (ss : List Selector) → ((g : String) → any (λ s. s.tag == g) ss ≡ false) → ss ≡ []
no_selectors [] h = refl
no_selectors (s ∷ ss) h = ground (arith, h s.tag, eq_refl s.tag)

-- The rules of a client's policies take the selector "ai" if a route policy matches exactly one
-- target and that is of the group "ai"; where every entry node is offline, the configuration has no
-- selector, the one named "ai" neither.
pub build_client_policies-build_client_config :
    (p : Platform) (input : ClientConfigInput) (rules : List RouteRule) (targets : List String)
    (cfg : ClientConfig)
    → build_client_policies p input ≡ built rules targets
    → build_client_config p input ≡ some cfg
    → All (λ n. lookup_or false n.name input.offline_node_names ≡ true) input.inbound_nodes
    → (any (λ r. r.outbound == "ai") rules ≡ any (has_ai_target p input) input.egress_policies)
      × (cfg.selectors ≡ [])
unfolding build_client_policies IsFaithful
build_client_policies-build_client_config p input rules targets cfg policies made offline =
    let sorted = sort policy_lt input.egress_policies in
    let faithful : any to_ai rules ≡ any (has_ai_target p input) sorted =
      subst (IsFaithful p input sorted) policies (IsFaithful-client_policies p input sorted) in
    (
      faithful ∙ any-sort policy_lt (has_ai_target p input) input.egress_policies,
      no_selectors cfg.selectors (λ g.
          any-build_client_config p input rules targets cfg g policies made
          ∙ all_offline-offers p (hiding input targets) g input.inbound_nodes offline),
    )
