-- ===== src/Engine/Counted.antt =====
-- The users that sing-box counts (buildExperimentalConfig).
use singbox_operator.Base.{
  true, not, ◌&&◌, nat_eq, eq_iff, eq_refl, ap, inl, inr, ◌↔◌, Bool-cases, String, Bool, ◌||◌, List,
  [], ◌∷◌, ◌≡◌, sym, ◌∙◌, arith, ◌==◌, contains, any, any-contains, add_name, contains-add_name,
  sort, sort-IsSorted, IsSorted, any-sort, text_lt, text_lt_asym,
}
use singbox_operator.Api.Objects.{User, CustomRoute, has_role}
use singbox_operator.Engine.Types.{Input, virtual_user_name}
use singbox_operator.Engine.Externals.{resolve_external_outbounds}
use singbox_operator.Engine.Inbounds.{is_node_route, peer_names, route_names}
use singbox_operator.Engine.Names.{
  contains-peer_names, contains-route_names, contains-external_names,
}
use singbox_operator.Engine.Stats.{add_users, stats_users, stats_targets, build_experimental_config}

contains-add_users :
    (target : String) (us : List User) (names : List String) (k : String)
    → contains (add_users target us names) k
      ≡ (contains names k || any (λ u. virtual_user_name u.name target == k) us)
contains-add_users target [] names k = ground arith
contains-add_users target (u ∷ us) names k =
    let v = virtual_user_name u.name target in
    ground (arith, contains-add_users target us (add_name names v) k, contains-add_name names v k)

-- Some user and some target have the virtual user `k`.
abbrev pub pairs : List User → List String → String → Bool
pairs users targets k = any (λ t. any (λ u. virtual_user_name u.name t == k) users) targets

contains-stats_users :
    (users : List User) (targets names : List String) (k : String)
    → contains (stats_users users targets names) k ≡ (contains names k || pairs users targets k)
contains-stats_users users [] names k = ground arith
contains-stats_users users (t ∷ ts) names k = ground (
  arith,
  contains-stats_users users ts (add_users t users names) k,
  contains-add_users t users names k,
)

contains-sort : (xs : List String) (k : String) → contains (sort text_lt xs) k ≡ contains xs k
contains-sort xs k =
    any-contains (sort text_lt xs) k ∙ any-sort text_lt (λ x. x == k) xs ∙ sym (any-contains xs k)

-- A peer with a relay port, a routed node, the node itself where it has both roles, or an external outbound that
-- the node uses.
abbrev pub is_counted : Input → List CustomRoute → String → Bool
is_counted input routes k =
    any (λ n. not (nat_eq n.spec.relay_port 0) && n.name == k) input.outbound_nodes
    || any (λ r. is_node_route input r && r.outbound_node == k) routes
    || has_role input.node "inbound" && has_role input.node "outbound" && input.node.name == k
    || any (λ e. e.name == k) (resolve_external_outbounds input routes)

contains-stats_targets :
    (input : Input) (routes : List CustomRoute) (k : String)
    → contains (stats_targets input routes) k ≡ is_counted input routes k
unfolding stats_targets
contains-stats_targets input routes k =
    let peers = peer_names input.outbound_nodes [] in
    let routed = route_names input routes peers in
    let known = contains-route_names input routes peers k in
    let peers_known = contains-peer_names input.outbound_nodes [] k in
    elim (Bool-cases (has_role input.node "inbound" && has_role input.node "outbound")) [
      | inl t ↦ rw t (
          contains-external_names (resolve_external_outbounds input routes)
            (add_name routed input.node.name) k
          ∙ ground (arith, contains-add_name routed input.node.name k))
      | inr f ↦ rw f (
          contains-external_names (resolve_external_outbounds input routes) routed k ∙ ground arith)
    ]

any_iff :
    (q : String → Bool) (xs : List String)
    → (any q xs ≡ true) ↔ ((t : String) × (contains xs t ≡ true) × (q t ≡ true))
any_iff q [] = (λ e. cc, λ (t, m, h). cc)
any_iff q (x ∷ xs) = (
  λ e. elim (Bool-cases (q x)) [
    | inl here ↦ (x, rw (eq_refl x), here)
    | inr f ↦ let (t, m, h) = (any_iff q xs).0 (ground arith) in (t, ground arith, h)
  ],
  λ (t, m, h). elim (Bool-cases (x == t)) [
    | inl same ↦ let here : q x ≡ true = ap q ((eq_iff x t).0 same) ∙ h in ground arith
    | inr f ↦ let there : any q xs ≡ true = (any_iff q xs).1 (t, ground arith, h) in ground arith
  ],
)

-- The counted users are in order, and a name is among them exactly when it is the virtual user of a user of the
-- node and one of these targets: a peer with a relay port, a node of a route, the node
-- itself where it has both roles, or an external outbound that the node uses.
pub build_experimental_config_iff :
    (input : Input) (routes : List CustomRoute)
    → IsSorted text_lt (build_experimental_config input routes).users
      × ((k : String)
          → (contains (build_experimental_config input routes).users k ≡ true) ↔ (
              (t : String) × (is_counted input routes t ≡ true)
              × (any (λ u. virtual_user_name u.name t == k) input.users ≡ true)))
unfolding build_experimental_config
build_experimental_config_iff input routes = (
  sort-IsSorted text_lt text_lt_asym (stats_users input.users (stats_targets input routes) []),
  λ k.
      let targets = stats_targets input routes in
      let same : contains (build_experimental_config input routes).users k
          ≡ pairs input.users targets k =
        contains-sort (stats_users input.users targets []) k
        ∙ contains-stats_users input.users targets [] k in
      let some_target =
        any_iff (λ t. any (λ u. virtual_user_name u.name t == k) input.users) targets in
      (
        λ e.
            let (t, m, h) = some_target.0 (sym same ∙ e) in
            (t, sym (contains-stats_targets input routes t) ∙ m, h),
        λ (t, m, h). same ∙ some_target.1 (t, contains-stats_targets input routes t ∙ m, h),
      ),
)
