-- ===== src/Engine/Names.antt =====
-- The targets that buildRouteInbounds collects.
use singbox_operator.Base.{
  String, Bool, true, false≢true, not, ◌&&◌, ◌||◌, List, [], ◌∷◌, ◌≡◌, arith, if◌then◌else◌, ◌==◌,
  contains, any, nat_eq, eq_iff, ◌⊎◌, inl, inr, Bool-cases, or-of, add_name, contains-add_name,
}
use singbox_operator.Api.Platform.{Platform}
use singbox_operator.Api.Objects.{SingBoxNode, CustomRoute, EgressPolicy, ExternalOutbound}
use singbox_operator.Engine.Types.{Input}
use singbox_operator.Engine.Policies.{present, egress_name}
use singbox_operator.Engine.Externals.{resolve_external_outbounds}
use singbox_operator.Engine.Inbounds.{
  peer_names, route_names, is_node_route, policy_names, is_live_policy, external_names,
  outbound_names,
}

-- What each loop adds to the names that it starts from.
pub contains-peer_names :
    (ns : List SingBoxNode) (names : List String) (k : String)
    → contains (peer_names ns names) k
      ≡ (contains names k || any (λ n. not (nat_eq n.spec.relay_port 0) && n.name == k) ns)
contains-peer_names [] names k = ground arith
contains-peer_names (n ∷ ns) names k = elim (Bool-cases (nat_eq n.spec.relay_port 0)) [
  | inl none ↦ rw none (contains-peer_names ns names k)
  | inr port ↦ rw port (
      ground
        (arith, contains-peer_names ns (add_name names n.name) k, contains-add_name names n.name k))
]

module _ (input : Input) where
  pub contains-route_names :
      (rs : List CustomRoute) (names : List String) (k : String)
      → contains (route_names input rs names) k
        ≡ (contains names k || any (λ r. is_node_route input r && r.outbound_node == k) rs)
  contains-route_names [] names k = ground arith
  contains-route_names (r ∷ rs) names k = elim (Bool-cases (is_node_route input r)) [
    | inl node ↦ rw node (
        ground (
          arith,
          contains-route_names rs (add_name names r.outbound_node) k,
          contains-add_name names r.outbound_node k,
        ))
    | inr other ↦ rw other (contains-route_names rs names k)
  ]

  pub contains-policy_names :
      (p : Platform) (ps : List EgressPolicy) (names : List String) (k : String)
      → contains (policy_names p input ps names) k
        ≡ (contains names k || any (λ q. is_live_policy p input q && egress_name p input q == k) ps)
  contains-policy_names p [] names k = ground arith
  contains-policy_names p (q ∷ ps) names k = elim (Bool-cases (is_live_policy p input q)) [
    | inl live ↦ rw live (
        ground (
          arith,
          contains-policy_names p ps (add_name names (egress_name p input q)) k,
          contains-add_name names (egress_name p input q) k,
        ))
    | inr other ↦ rw other (contains-policy_names p ps names k)
  ]

pub contains-external_names :
    (es : List ExternalOutbound) (names : List String) (k : String)
    → contains (external_names es names) k ≡ (contains names k || any (λ e. e.name == k) es)
contains-external_names [] names k = ground arith
contains-external_names (e ∷ es) names k =
    ground (
      arith,
      contains-external_names es (add_name names e.name) k,
      contains-add_name names e.name k,
    )

-- A target of the node, by where it comes from.
pub data Source (p : Platform) (input : Input) (routes : List CustomRoute) (self : Bool)
    (k : String) : Type 0 where
  a_peer :
      any (λ n. not (nat_eq n.spec.relay_port 0) && n.name == k) input.outbound_nodes ≡ true
      → Source p input routes self k
  a_route :
      any (λ r. is_node_route input r && r.outbound_node == k) routes ≡ true
      → Source p input routes self k
  a_policy :
      any
          (λ q. is_live_policy p input q && egress_name p input q == k)
          (present input.egress_policies)
        ≡ true
      → Source p input routes self k
  itself : self ≡ true → input.node.name ≡ k → Source p input routes self k
  an_external :
      any (λ e. e.name == k) (resolve_external_outbounds input routes) ≡ true
      → Source p input routes self k

module _ (p : Platform) (input : Input) (routes : List CustomRoute) (self : Bool) where
  abbrev selected : List String
  selected =
      policy_names p input (present input.egress_policies)
        (route_names input routes (peer_names input.outbound_nodes []))

  contains_self :
      (names : List String) (k : String)
      → contains (if self then add_name names input.node.name else names) k ≡ true
      → (contains names k ≡ true) ⊎ ((self ≡ true) × (input.node.name ≡ k))
  contains_self names k h = elim (Bool-cases self) [
    | inl yes_self ↦
        let found = rw (yes_self, contains-add_name names input.node.name k) at h in
        ground (arith, found, eq_iff input.node.name k)
    | inr no_self ↦ inl (rw no_self at h)
  ]

  -- Every collected target comes from one of the five places.
  pub outbound_names_sources :
      (k : String)
      → contains (outbound_names p input routes self) k ≡ true
      → Source p input routes self k
  unfolding outbound_names
  outbound_names_sources k h =
      elim (or-of h (contains-external_names (resolve_external_outbounds input routes) _ k)) [
        | inr external ↦ an_external external
        | inl before ↦ elim (contains_self selected k before) [
          | inr (is_self, same) ↦ itself is_self same
          | inl before ↦
              elim (or-of before
                (contains-policy_names input p (present input.egress_policies) _ k)) [
                  | inr policy ↦ a_policy policy
                  | inl before ↦ elim (or-of before (contains-route_names input routes _ k)) [
                    | inr route ↦ a_route route
                    | inl before ↦
                        elim (or-of before (contains-peer_names input.outbound_nodes [] k)) [
                          | inr peer ↦ a_peer peer
                          | inl nothing ↦ absurd (false≢true nothing)
                        ]
                  ]
                ]
        ]
      ]
