-- ===== src/Engine/Relayed.antt =====
-- The rules that relay a user's traffic to a target of an inbound node.
use mathlib.Core.Path.{subst}
use singbox_operator.Base.{
  String, Bool, true, false, not, ◌&&◌, List, [], ◌∷◌, map, keep, ◌≡◌, refl, sym, ◌∙◌, ap, arith,
  if◌then◌else◌, ◌==◌, contains, any, any-append, is_empty, any-is_empty, any-contains, nat_eq,
  eq_iff, eq_refl, inl, inr, ◌⊎◌, Bool-cases, add_name, contains-add_name,
}
use singbox_operator.Api.Platform.{Platform}
use singbox_operator.Api.Objects.{User, CustomRoute, EgressPolicy}
use singbox_operator.Engine.Types.{Entry, Input, RouteRule, outbound_tag, virtual_user_name}
use singbox_operator.Engine.Policies.{
  build_policy_rules, user_allowed, policy_auth_users, policies_for_node, present,
}
use singbox_operator.Engine.Externals.{resolve_external_outbounds}
use singbox_operator.Engine.Inbounds.{
  peer_names, route_names, policy_names, outbound_names, route_rules, build_route_inbounds,
}
use singbox_operator.Engine.Names.{
  contains-peer_names, contains-route_names, contains-policy_names, contains-external_names,
}
use singbox_operator.Engine.Config.{
  is_inbound, is_self_outbound, has_outbound_peers, client_side, routes_for_node, config_rules,
  compute_config,
}

-- A rule that sends what a user sends to a target on to the target.
abbrev pub relays : String → String → RouteRule → Bool
relays user target r =
    contains r.auth_user (virtual_user_name user target) && r.outbound == outbound_tag target

-- A user of that name may relay through the target.
abbrev pub may_relay : Input → String → String → Bool
may_relay input target name = any (λ u. user_allowed input target u && u.name == name) input.users

module _ (input : Input) (name k : String) where
  contains-keep :
      (us : List User)
      → any (λ u. user_allowed input k u && u.name == name) us ≡ true
      → contains
          (map (λ u. virtual_user_name u.name k) (keep (user_allowed input k) us))
          (virtual_user_name name k)
        ≡ true
  contains-keep [] e = e
  contains-keep (u ∷ us) e = elim (Bool-cases (user_allowed input k u)) [
    | inr f ↦ rw f (contains-keep us (ground arith))
    | inl t ↦ rw t (elim (Bool-cases (u.name == name)) [
      | inl same ↦ ground (
        arith,
        ap (λ x. virtual_user_name x k) ((eq_iff u.name name).0 same),
        eq_refl (virtual_user_name name k),
      )
      | inr other ↦ ground (arith, contains-keep us)
    ])
  ]

  contains-policy_auth_users :
      may_relay input k name ≡ true
      → contains (policy_auth_users input k) (virtual_user_name name k) ≡ true
  unfolding policy_auth_users
  contains-policy_auth_users e = contains-keep input.users e

  any-route_rules :
      (p : Platform) (names : List String)
      → may_relay input k name ≡ true
      → contains names k ≡ true
      → any (relays name k) (route_rules p input names) ≡ true
  unfolding route_rules
  any-route_rules p [] e m = m
  any-route_rules p (n ∷ ns) e m = elim (Bool-cases (n == k)) [
    | inl same ↦
        let n_k : n ≡ k = (eq_iff n k).0 same in
        subst (λ x. any (relays name k) (route_rules p input (x ∷ ns)) ≡ true) (sym n_k) here
    | inr other ↦ elim (Bool-cases (is_empty (policy_auth_users input n))) [
      | inl none_allowed ↦ rw (route_rules, none_allowed) (any-route_rules p ns e (ground arith))
      | inr some_allowed ↦ rw (route_rules, some_allowed) (ground (arith, any-route_rules p ns e))
    ]
  ]
    where
      here : any (relays name k) (route_rules p input (k ∷ ns)) ≡ true
      here =
          let auth = contains-policy_auth_users e in
          elim (Bool-cases (is_empty (policy_auth_users input k))) [
            | inl none_allowed ↦ ground (
              arith,
              auth,
              any-contains (policy_auth_users input k) (virtual_user_name name k),
              any-is_empty (λ x. x == virtual_user_name name k) (policy_auth_users input k),
            )
            | inr some_allowed ↦ rw (route_rules, some_allowed, auth, eq_refl (outbound_tag k))
          ]

-- A peer with a relay port, or the node itself where it has both roles.
abbrev pub IsTarget : Input → String → Type 0
IsTarget input k =
    (any (λ n. not (nat_eq n.spec.relay_port 0) && n.name == k) input.outbound_nodes ≡ true)
    ⊎ ((is_self_outbound input ≡ true) × (input.node.name ≡ k))

module _ (p : Platform) (input : Input) (k : String) where
  contains-outbound_names :
      (routes : List CustomRoute)
      → IsTarget input k
      → contains (outbound_names p input routes (is_self_outbound input)) k ≡ true
  unfolding outbound_names
  contains-outbound_names routes target =
      let peers = peer_names input.outbound_nodes [] in
      let routed = route_names input routes peers in
      let selected = policy_names p input (present input.egress_policies) routed in
      contains-external_names (resolve_external_outbounds input routes)
        (if is_self_outbound input then add_name selected input.node.name else selected) k
      ∙ elim target [
        | inl peer ↦
            let known : contains selected k ≡ true = ground (
              arith,
              contains-peer_names input.outbound_nodes [] k,
              contains-route_names input routes peers k,
              contains-policy_names input p (present input.egress_policies) routed k,
            ) in
            elim (Bool-cases (is_self_outbound input)) [
              | inl t ↦ rw t (ground (arith, contains-add_name selected input.node.name k))
              | inr f ↦ rw f (ground arith)
            ]
        | inr (self, same) ↦
            rw self (
              ground
                (arith, contains-add_name selected input.node.name k, eq_iff input.node.name k))
      ]

  has_outbound_peers-IsTarget :
      (routes : List CustomRoute) (policies : List EgressPolicy)
      → IsTarget input k
      → has_outbound_peers p input routes policies ≡ true
  has_outbound_peers-IsTarget routes policies (inl peer) = ground (
    arith,
    any-is_empty (λ n. not (nat_eq n.spec.relay_port 0) && n.name == k) input.outbound_nodes,
  )
  has_outbound_peers-IsTarget routes policies (inr (self, same)) = ground arith

  client_side-rules_of_target :
      (routes : List CustomRoute) (policies : List EgressPolicy)
      → IsTarget input k
      → (client_side p input routes policies).1
        ≡ route_rules p input (outbound_names p input routes (is_self_outbound input))
  unfolding client_side build_route_inbounds
  client_side-rules_of_target routes policies target =
      either_way (not (is_empty policies)) (has_outbound_peers p input routes policies) _ _ _ _
        (has_outbound_peers-IsTarget routes policies target)
    where
      rules_of : List Entry × List RouteRule → List RouteRule
      rules_of x = x.1

      either_way :
          (a b : Bool) (x y z : List Entry) (rules : List RouteRule)
          → b ≡ true
          → rules_of (if a then (x, rules) else if b then (y, rules) else (z, [])) ≡ rules
      either_way true b x y z rules e = refl
      either_way false true x y z rules e = refl
      either_way false false x y z rules e = cc

  pub any-compute_config :
      (name : String)
      → is_inbound input ≡ true
      → may_relay input k name ≡ true
      → IsTarget input k
      → any (relays name k) (compute_config p input).rules ≡ true
  unfolding compute_config config_rules
  any-compute_config name inbound allowed target =
      let routes = routes_for_node input in
      let policies = policies_for_node input in
      let side : any (relays name k) (client_side p input routes policies).1 ≡ true =
        ap (any (relays name k)) (client_side-rules_of_target routes policies target)
        ∙ any-route_rules input name k p (outbound_names p input routes (is_self_outbound input))
            allowed (contains-outbound_names routes target) in
      any-append (relays name k) (build_policy_rules p input policies) _
      ∙ rw inbound (ground (arith, side))
