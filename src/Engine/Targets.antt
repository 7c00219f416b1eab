-- ===== src/Engine/Targets.antt =====
-- The tags of the outbound entries of each kind of target.
use singbox_operator.Base.{
  String, Bool, true, false, not, ◌&&◌, Option, none, some, List, [], ◌∷◌, map, ◌≡◌, refl, sym,
  arith, ap, ◌==◌, contains, any, eq_iff, eq_refl, inl, inr, Bool-cases, or-cases, and-eq-true,
  Option-cases, lookup, nat_eq, All, is_empty, is_empty-map-keep,
}
use singbox_operator.Api.Platform.{Platform}
use singbox_operator.Api.Objects.{
  SingBoxNode, CustomRoute, EgressPolicy, ExternalOutbound, action_route,
}
use mathlib.Core.Path.{subst}
use singbox_operator.Engine.Types.{Input, Entry, outbound_tag, virtual_user_name}
use singbox_operator.Engine.Policies.{
  user_allowed, policy_auth_users, policy_egress_available, egress_name, creds_of,
}
use singbox_operator.Engine.Externals.{build_external_outbound_entry}
use singbox_operator.Engine.Outbounds.{
  connects, all_denied, build_outbound_node_outbounds, build_route_outbounds, route_entry,
  policy_entry, build_policy_outbounds,
}
use singbox_operator.Engine.Inbounds.{has_relay}
use singbox_operator.Engine.Consistent.{TargetConnects}
use singbox_operator.Engine.Tags.{tags, tags-append, tag_of-peer_entry, tag_of-external_entry}

-- The entries have one for the target `k`.
abbrev pub has : List Entry → String → Bool
has es k = contains (tags es) (outbound_tag k)

module _ (input : Input) where
  pub peer-has :
      (routes : List CustomRoute) (k : String) (ns : List SingBoxNode)
      → any (λ r. r.outbound_node == k) routes ≡ false
      → All (λ n. connects input n ≡ true) ns
      → any (λ n. not (nat_eq n.spec.relay_port 0) && n.name == k) ns ≡ true
      → has (build_outbound_node_outbounds input routes ns) k ≡ true
  unfolding build_outbound_node_outbounds
  peer-has routes k [] unrouted h e = e
  peer-has routes k (n ∷ ns) unrouted (c, h) e = elim (Bool-cases (n.name == k)) [
    | inl same ↦
        let name_k : n.name ≡ k = (eq_iff _ _).0 same in
        let unrouted_n : any (λ r. r.outbound_node == n.name) routes ≡ false =
          subst (λ t. any (λ r. r.outbound_node == t) routes ≡ false) (sym name_k) unrouted in
        ground (
          arith,
          unrouted_n,
          peer-has routes k ns unrouted h,
          tag_of-peer_entry input n.name n,
          ap outbound_tag name_k,
          eq_refl (outbound_tag k),
        )
    | inr other ↦ ground (arith, peer-has routes k ns unrouted h)
  ]

  -- A target with an authorised user is not denied to all.
  not-all_denied :
      (k : String) → is_empty (policy_auth_users input k) ≡ false → all_denied input k ≡ false
  unfolding policy_auth_users
  not-all_denied k h = ground (
    arith,
    h,
    is_empty-map-keep (λ u. virtual_user_name u.name k) (user_allowed input k) input.users,
  )

  -- A target that is not denied to all users, and that this node may use, has its entry.
  route_entry-has :
      (k : String) (o : Option SingBoxNode)
      → is_empty (policy_auth_users input k) ≡ false
      → ((n : SingBoxNode) → o ≡ some n → n.name ≡ k)
      → TargetConnects input o
      → has_relay o ≡ true
      → has (route_entry input o) k ≡ true
  unfolding route_entry
  route_entry-has k none users named c relay = cc
  route_entry-has k (some n) users named c relay =
      let name_k : n.name ≡ k = named n refl in
      ground (
        arith,
        not-all_denied k users,
        tag_of-peer_entry input n.name n,
        name_k,
        ap (all_denied input) name_k,
        ap outbound_tag name_k,
        eq_refl (outbound_tag k),
      )

  pub route-has :
      (k : String) (rs : List CustomRoute)
      → is_empty (policy_auth_users input k) ≡ false
      → ((n : SingBoxNode) → lookup k input.outbound_nodes_by_name ≡ some n → n.name ≡ k)
      → All (λ r. TargetConnects input (lookup r.outbound_node input.outbound_nodes_by_name)) rs
      → any
          (λ r.
            has_relay (lookup r.outbound_node input.outbound_nodes_by_name) && r.outbound_node == k)
          rs
        ≡ true
      → has (build_route_outbounds input rs) k ≡ true
  unfolding build_route_outbounds
  route-has k [] users named h e = e
  route-has k (r ∷ rs) users named (c, h) e =
      let o = lookup r.outbound_node input.outbound_nodes_by_name in
      let split =
        tags-append (route_entry input o) (build_route_outbounds input rs) (outbound_tag k) in
      elim (or-cases _ _ e) [
        | inl this ↦
            let (relay, same) = and-eq-true _ _ this in
            let to_k : r.outbound_node ≡ k = (eq_iff _ _).0 same in
            let found =
              route_entry-has k o users
                (λ n found.
                  named n (subst (λ t. lookup t input.outbound_nodes_by_name ≡ some n) to_k found))
                c relay in
            ground (arith, split, found)
        | inr later ↦ ground (arith, split, route-has k rs users named h later)
      ]

-- A route policy to the target `k`.
abbrev pub routes_to : Platform → Input → String → EgressPolicy → Bool
routes_to p input k q = q.spec.action == action_route && egress_name p input q == k

module _ (input : Input) (k : String)
    (named : (e : ExternalOutbound)
      → lookup k input.external_outbounds_by_name ≡ some e
      → e.name ≡ k)
    (available : policy_egress_available input k ≡ true) where
  -- A target that policies may use has an entry.
  policy_entry-has : has (policy_entry input k) k ≡ true
  unfolding policy_entry policy_egress_available
  policy_entry-has = elim (Option-cases (lookup k input.outbound_nodes_by_name)) [
    | inr (n, found) ↦
        ground (arith, available, found, tag_of-peer_entry input k n, eq_refl (outbound_tag k))
    | inl missing ↦ elim (Option-cases (lookup k input.external_outbounds_by_name)) [
      | inr (e, found) ↦ ground (
        arith,
        available,
        missing,
        found,
        tag_of-external_entry e (creds_of input k),
        ap outbound_tag (named e found),
        eq_refl (outbound_tag k),
      )
      | inl absent ↦ ground (arith, available, missing, absent)
    ]
  ]

  module _ (p : Platform) (is_name : k == "" ≡ false) where
    pub policy-has :
        (seen : List String) (qs : List EgressPolicy)
        → contains seen k ≡ false
        → any (routes_to p input k) qs ≡ true
        → has (build_policy_outbounds p input seen qs) k ≡ true
    unfolding build_policy_outbounds
    policy-has seen [] fresh e = e
    policy-has seen (q ∷ qs) fresh e =
        let name = egress_name p input q in
        let split =
          tags-append (policy_entry input name) (build_policy_outbounds p input (name ∷ seen) qs)
            (outbound_tag k) in
        elim (Bool-cases (name == k)) [
          | inl same ↦
              let name_k : name ≡ k = (eq_iff _ _).0 same in
              let here : has (policy_entry input name) k ≡ true =
                subst (λ t. has (policy_entry input t) k ≡ true) (sym name_k) policy_entry-has in
              ground (
                arith,
                here,
                split,
                policy-has seen qs fresh,
                ap (contains seen) name_k,
                ap (λ t. t == "") name_k,
              )
          | inr other ↦ ground (arith, split, policy-has seen qs fresh, policy-has (name ∷ seen) qs)
        ]

-- Each usable external outbound has an entry.
pub external-has :
    (input : Input) (k : String) (es : List ExternalOutbound)
    → any (λ e. e.name == k) es ≡ true
    → has (map (λ e. build_external_outbound_entry e (creds_of input e.name)) es) k ≡ true
external-has input k [] h = h
external-has input k (e ∷ es) h = elim (Bool-cases (e.name == k)) [
  | inl same ↦
      let name_k : e.name ≡ k = (eq_iff _ _).0 same in
      ground (
        arith,
        tag_of-external_entry e (creds_of input e.name),
        ap outbound_tag name_k,
        eq_refl (outbound_tag k),
      )
  | inr other ↦ ground (arith, external-has input k es)
]
