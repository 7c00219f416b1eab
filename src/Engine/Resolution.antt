-- ===== src/Engine/Resolution.antt =====
-- The outbounds that the route rules name.
use mathlib.Core.Path.{subst}
use singbox_operator.Base.{
  String, Bool, true, false, not, ◌&&◌, ◌||◌, some, List, [], ◌∷◌, ◌≡◌, refl, ◌∙◌, sym, arith, ap,
  ◌==◌, contains, any, eq_iff, eq_refl, inl, inr, ◌⊎◌, Bool-cases, and-eq-true, lookup, nat_eq, All,
  All-append, All-any, All-keep, All-sort, any-sort, any-witness, any_mono, is_empty,
}
use singbox_operator.Api.Platform.{Platform}
use singbox_operator.Api.Objects.{CustomRoute, EgressPolicy}
use singbox_operator.Engine.Types.{Input, RouteRule, outbound_tag, admits}
use singbox_operator.Engine.Policies.{
  present, policy_lt, policies_for_node, policy_auth_users, policy_egress_available, egress_name,
  policy_rules, build_policy_rules,
}
use singbox_operator.Engine.Externals.{build_external_outbounds, resolve_external_outbounds}
use singbox_operator.Engine.Outbounds.{
  build_outbound_node_outbounds, build_route_outbounds, build_policy_outbounds,
  build_direct_outbound,
}
use singbox_operator.Engine.Inbounds.{
  is_node_route, has_relay, is_live_policy, outbound_names, route_rules, build_route_inbounds,
}
use singbox_operator.Engine.Config.{
  routes_for_node, is_inbound, is_self_outbound, self_outbound, relay_outbounds, client_side,
  has_outbound_peers, config_rules, config_outbounds, compute_config,
}
use singbox_operator.Engine.Consistent.{IsConsistent, TargetConnects, has_known_action}
use singbox_operator.Engine.Names.{
  Source, a_peer, a_route, a_policy, itself, an_external, outbound_names_sources,
}
use singbox_operator.Engine.Tags.{tags, tags-append, contains-deduplicate_by_tag}
use singbox_operator.Engine.Targets.{has, peer-has, route-has, routes_to, policy-has, external-has}

-- The rule names no outbound, or one whose tag is in the list.
abbrev pub resolves : List String → RouteRule → Bool
resolves ts r = r.outbound == "" || contains ts r.outbound

-- A usable route policy to the target `k`.
abbrev live_for : Platform → Input → String → EgressPolicy → Bool
live_for p input k q = is_live_policy p input q && egress_name p input q == k

module _ (p : Platform) (input : Input) (ts : List String) where
  route_rules-resolve :
      (targets : List String)
      → ((k : String)
          → contains targets k ≡ true
          → is_empty (policy_auth_users input k) ≡ false
          → contains ts (outbound_tag k) ≡ true)
      → All (λ r. resolves ts r ≡ true) (route_rules p input targets)
  unfolding route_rules
  route_rules-resolve [] h = tt
  route_rules-resolve (k ∷ targets) h =
      let rest = route_rules-resolve targets (λ j found. h j (ground (arith, found))) in
      elim (Bool-cases (is_empty (policy_auth_users input k))) [
        | inl nobody ↦ rw nobody rest
        | inr users ↦ rw users (ground (arith, h k (ground (arith, eq_refl k)) users), rest)
      ]

  policy_rules-resolve :
      (q : EgressPolicy)
      → has_known_action q ≡ true
      → (is_live_policy p input q ≡ true
          → contains ts (outbound_tag (egress_name p input q)) ≡ true)
      → All (λ r. resolves ts r ≡ true) (policy_rules p input q)
  unfolding policy_rules
  policy_rules-resolve q known h = ground arith

  build_policy_rules-resolve :
      (qs : List EgressPolicy)
      → All (λ q. has_known_action q ≡ true) qs
      → ((k : String) → any (live_for p input k) qs ≡ true → contains ts (outbound_tag k) ≡ true)
      → All (λ r. resolves ts r ≡ true) (build_policy_rules p input qs)
  unfolding build_policy_rules
  build_policy_rules-resolve [] known h = tt
  build_policy_rules-resolve (q ∷ qs) (k, known) h =
      All-append _ (policy_rules p input q) (build_policy_rules p input qs)
        (policy_rules-resolve q k (λ live.
          h (egress_name p input q) (ground (arith, live, eq_refl (egress_name p input q)))))
        (build_policy_rules-resolve qs known (λ j found. h j (ground (arith, found))))

pub client_side-rules :
    (p : Platform) (input : Input) (routes : List CustomRoute) (policies : List EgressPolicy)
    → ((client_side p input routes policies).1
        ≡ route_rules p input (outbound_names p input routes (is_self_outbound input)))
      ⊎ ((client_side p input routes policies).1 ≡ [])
unfolding client_side build_route_inbounds
client_side-rules p input routes policies = elim (Bool-cases (is_empty policies)) [
  | inl unset ↦ elim (Bool-cases (has_outbound_peers p input routes policies)) [
    | inl peers ↦ inl (rw (peers, unset))
    | inr alone ↦ inr (rw (alone, unset))
  ]
  | inr set ↦ inl (rw set)
]

module _ (p : Platform) (input : Input) (c : IsConsistent input) where
  routes_connect :
      All
        (λ r. TargetConnects input (lookup r.outbound_node input.outbound_nodes_by_name))
        (routes_for_node input)
  unfolding routes_for_node
  routes_connect = All-sort _ _ _ (All-keep _ _ input.routes c.routes_connect)

  -- A peer to which routes lead is the target of those routes.
  routed_peer :
      (k : String)
      → any (λ n. not (nat_eq n.spec.relay_port 0) && n.name == k) input.outbound_nodes ≡ true
      → has_relay (lookup k input.outbound_nodes_by_name) ≡ true
  routed_peer k peer =
      let (n, indexed, found) = All-any _ input.outbound_nodes c.peers_indexed peer in
      let (port, same) = and-eq-true _ _ found in
      let at_k =
        subst (λ t. lookup t input.outbound_nodes_by_name ≡ some n) ((eq_iff n.name k).0 same)
          indexed in
      rw at_k port

  to_relay :
      (k : String)
      → has_relay (lookup k input.outbound_nodes_by_name) ≡ true
      → (r : CustomRoute) → (r.outbound_node == k) ≡ true
      → (has_relay (lookup r.outbound_node input.outbound_nodes_by_name) && r.outbound_node == k)
        ≡ true
  to_relay k relay r same =
      let same_relay =
        subst (λ t. has_relay (lookup t input.outbound_nodes_by_name) ≡ true)
          (sym ((eq_iff r.outbound_node k).0 same)) relay in
      ground arith

  policy_target :
      (k : String)
      → any (live_for p input k) (present input.egress_policies) ≡ true
      → has (build_policy_outbounds p input [] (policies_for_node input)) k ≡ true
  unfolding policies_for_node
  policy_target k live =
      let (q, found) = any-witness (live_for p input k) (present input.egress_policies) live in
      let (is_live, same) = and-eq-true (is_live_policy p input q) _ found in
      let name_k : egress_name p input q ≡ k = (eq_iff _ _).0 same in
      let available : policy_egress_available input k ≡ true =
        subst (λ t. policy_egress_available input t ≡ true) name_k (ground arith) in
      let is_name : k == "" ≡ false = subst (λ t. t == "" ≡ false) name_k (ground arith) in
      policy-has input k (λ e found. c.externals_named k e found) available p is_name [] _ refl
        (any-sort policy_lt (routes_to p input k) (present input.egress_policies)
          ∙ any_mono (live_for p input k) (routes_to p input k) (λ x h. ground (arith, h))
              (present input.egress_policies) live)

  relay_parts :
      (routes : List CustomRoute) (policies : List EgressPolicy) (k : String)
      → has (relay_outbounds p input routes policies) k ≡ (
          has (build_outbound_node_outbounds input routes input.outbound_nodes) k
          || (has (build_route_outbounds input routes) k
              || (has (build_external_outbounds input routes) k
                  || (has (build_policy_outbounds p input [] policies) k
                      || has (self_outbound p input) k))))
  unfolding relay_outbounds
  relay_parts routes policies k = simp tags-append

  self_outbound-has :
      (k : String)
      → input.node.name ≡ k
      → is_self_outbound input ≡ true
      → admits input.node.spec.allowed_outbounds input.node.name ≡ true
      → has (self_outbound p input) k ≡ true
  unfolding self_outbound
  self_outbound-has k e both admitted = ground (arith, ap outbound_tag e, eq_refl (outbound_tag k))

  externals_have :
      (k : String)
      → any (λ e. e.name == k) (resolve_external_outbounds input (routes_for_node input)) ≡ true
      → has (build_external_outbounds input (routes_for_node input)) k ≡ true
  unfolding build_external_outbounds
  externals_have k h = external-has input k _ h

  -- Each target with a user has an entry among the outbounds.
  target-has :
      (k : String)
      → (is_self_outbound input ≡ true
          → admits input.node.spec.allowed_outbounds input.node.name ≡ true)
      → is_empty (policy_auth_users input k) ≡ false
      → Source p input (routes_for_node input) (is_self_outbound input) k
      → has (relay_outbounds p input (routes_for_node input) (policies_for_node input)) k ≡ true
  target-has k self users (a_peer h) =
      let routes = routes_for_node input in
      let parts = relay_parts routes (policies_for_node input) k in
      elim (Bool-cases (any (λ r. r.outbound_node == k) routes)) [
        | inl routed ↦
            let found =
              route-has input k routes users (λ n. c.nodes_named k n) routes_connect
                (any_mono _ _ (to_relay k (routed_peer k h)) routes routed) in
            ground (arith, parts, found)
        | inr unrouted ↦
            let found = peer-has input routes k input.outbound_nodes unrouted c.peers_connect h in
            ground (arith, parts, found)
      ]
  target-has k self users (a_route h) =
      let routes = routes_for_node input in
      let found =
        route-has input k routes users (λ n. c.nodes_named k n) routes_connect
          (any_mono (λ r. is_node_route input r && r.outbound_node == k) _
            (λ r e. ground (arith, e)) routes h) in
      ground (arith, found, relay_parts routes (policies_for_node input) k)
  target-has k self users (a_policy h) =
      ground
        (arith, policy_target k h, relay_parts (routes_for_node input) (policies_for_node input) k)
  target-has k self users (itself h e) = ground (
    arith,
    self h,
    self_outbound-has k e h (self h),
    relay_parts (routes_for_node input) (policies_for_node input) k,
  )
  target-has k self users (an_external h) =
      ground
        (arith, externals_have k h, relay_parts (routes_for_node input) (policies_for_node input) k)

  module _
      (self : is_self_outbound input ≡ true
        → admits input.node.spec.allowed_outbounds input.node.name ≡ true)
      (inbound : is_inbound input ≡ true) where
    in_config :
        (k : String)
        → has (relay_outbounds p input (routes_for_node input) (policies_for_node input)) k ≡ true
        → contains (tags (config_outbounds p input)) (outbound_tag k) ≡ true
    unfolding config_outbounds
    in_config k h =
        let relays = relay_outbounds p input (routes_for_node input) (policies_for_node input) in
        contains-deduplicate_by_tag _ (outbound_tag k)
        ∙ ground
            (arith, h, inbound, tags-append relays (build_direct_outbound ∷ []) (outbound_tag k))

    client_side-resolve :
        All
          (λ r. resolves (tags (config_outbounds p input)) r ≡ true)
          (client_side p input (routes_for_node input) (policies_for_node input)).1
    client_side-resolve =
        let resolved =
          route_rules-resolve p input (tags (config_outbounds p input)) _ λ k found users.
            in_config k (
              target-has k self users (
                outbound_names_sources p input (routes_for_node input) (is_self_outbound input) k
                  found)) in
        elim (client_side-rules p input (routes_for_node input) (policies_for_node input)) [
          | inl e ↦ rw e resolved
          | inr e ↦ rw e tt
        ]

    policies-resolve :
        All
          (λ r. resolves (tags (config_outbounds p input)) r ≡ true)
          (build_policy_rules p input (policies_for_node input))
    unfolding policies_for_node
    policies-resolve =
        build_policy_rules-resolve p input (tags (config_outbounds p input)) _
          (All-sort _ _ (present input.egress_policies) c.known_actions)
          λ k h.
            let found =
              policy_target k (
                sym (any-sort policy_lt (live_for p input k) (present input.egress_policies))
                ∙ h) in
            in_config k (
              ground
                (arith, found, relay_parts (routes_for_node input) (policies_for_node input) k))

  no-policies : is_inbound input ≡ false → present input.egress_policies ≡ []
  no-policies outbound = ground (arith, c.policies_inbound)

-- Every outbound that a rule of the configuration names is one of its outbounds, for a consistent
-- input whose node, if it has both roles, admits itself as an outbound.
pub config_rules-resolve :
    (p : Platform) (input : Input)
    → IsConsistent input
    → (is_self_outbound input ≡ true
        → admits input.node.spec.allowed_outbounds input.node.name ≡ true)
    → All
        (λ r. resolves (tags (compute_config p input).outbounds) r ≡ true)
        (compute_config p input).rules
unfolding compute_config config_rules
config_rules-resolve p input c self = elim (Bool-cases (is_inbound input)) [
  | inl inbound ↦ rw inbound (
      All-append _ (build_policy_rules p input (policies_for_node input)) _
        (policies-resolve p input c self inbound) (client_side-resolve p input c self inbound))
  | inr outbound ↦
      unfold policies_for_node build_policy_rules in
      rw (outbound, no-policies p input c outbound) tt
]
