-- ===== src/ApiServer/Offered.antt =====
-- The targets that a client is offered, and the outbounds that the controller gives the node.
use mathlib.Core.Path.{subst}
use mathlib.Core.List.{Memᴰ}
use mathlib.Core.Option.{some-injective}
use singbox_operator.Base.{
  nat_eq, String, true, false, not, ◌&&◌, some, List, [], ◌∷◌, ◌++◌, StringMap, lookup, lookup_or,
  find, sort, text_lt, ◌==◌, ◌≡◌, refl, sym, ◌⊎◌, inl, inr, arith, All, All-append, All-both,
  All-mono, map, All-sort, Bool-cases, Option-cases, eq_iff,
}
use singbox_operator.Api.Platform.{Platform}
use singbox_operator.Api.Objects.{
  SingBoxNode, ExternalOutbound, CustomRoute, has_role, role_outbound, effective_outbound_kind,
  kind_external_outbound,
}
use singbox_operator.Engine.Types.{is_node_allowed, admits}
use singbox_operator.Controllers.Client.{Client}
use singbox_operator.Controllers.Collect.{is_peer, is_usable}
use singbox_operator.ApiServer.Targets.{
  ClientConfigInput, OutboundRef, ref_of_node, ref_of_external, ref_of_self, is_seen, is_open,
  is_offline, is_absent, add_node, add_nodes, add_self, add_external, add_externals, add_route,
  add_routes, found_refs, resolve_outbound_nodes,
}
use singbox_operator.ApiServer.Apart.{Apart, Apart-append, Apart-sort}

All-lookup {ℓ κ} :
    {V : Type ℓ} (P : V → Type κ) (m : StringMap V)
    → All (λ kv. P kv.1) m
    → (k : String) (v : V) → lookup k m ≡ some v
    → P v
All-lookup P [] h k v e = cc
All-lookup P ((j, w) ∷ m) (p, h) k v e = elim (Bool-cases (j == k)) [
  | inl t ↦ subst P (some-injective w v (rw t at e)) p
  | inr f ↦ All-lookup P m h k v (rw f at e)
]

module _ (p : Platform) (c : Client) (input : ClientConfigInput) (inbound : SingBoxNode) where
  -- The node itself, where it has the outbound role and admits itself.
  abbrev pub Own : OutboundRef → Type 0
  Own r =
      (r.name ≡ inbound.name)
      × (has_role inbound role_outbound ≡ true)
      × (admits inbound.spec.allowed_outbounds inbound.name ≡ true)

  -- A node that is up, with a relay port, that the controller takes for a peer of the inbound node.
  abbrev pub Peer : OutboundRef → Type 0
  Peer r =
      (n : SingBoxNode) × (r.name ≡ n.name)
      × Memᴰ n (map (λ kn. kn.1) input.outbounds_by_name)
      × (is_peer p c inbound n ≡ true)
      × (nat_eq n.spec.relay_port 0 ≡ false)
      × (is_offline input n.name ≡ false)

  -- An external outbound that the controller takes if no node has its name; no outbound node has.
  abbrev pub External : OutboundRef → Type 0
  External r =
      (e : ExternalOutbound) × (r.name ≡ e.name)
      × (is_usable p c inbound [] e ≡ true)
      × (is_absent (lookup e.name input.outbounds_by_name) ≡ true)

  abbrev pub Offered : OutboundRef → Type 0
  Offered r =
      (is_node_allowed r.name input.allowed_node_names input.denied_node_names ≡ true)
      × (Own r ⊎ (Peer r ⊎ External r))

  -- A node with the outbound role; if it has the name of the inbound node, that one has the role.
  abbrev pub IsOutbound : SingBoxNode → Type 0
  IsOutbound n =
      (has_role n role_outbound ≡ true)
      × (n.name == inbound.name ≡ true → has_role inbound role_outbound ≡ true)

  own_members : (m : StringMap SingBoxNode) → All (λ kn. Memᴰ kn.1 (map (λ kn. kn.1) m)) m
  own_members [] = tt
  own_members ((k, n) ∷ m) =
      (Memᴰ.head refl, All-mono (λ kn here. Memᴰ.tail here) m (own_members m))

  abbrev IsKnown : SingBoxNode → Type 0
  IsKnown n = IsOutbound n × Memᴰ n (map (λ kn. kn.1) input.outbounds_by_name)

  abbrev Inv : List OutboundRef → Type 0
  Inv refs = Apart refs × All Offered refs

  append-Inv :
      (refs : List OutboundRef) (r : OutboundRef)
      → Inv refs
      → is_seen refs r.name ≡ false
      → Offered r
      → Inv (refs ++ r ∷ [])
  append-Inv refs r (d, o) fresh new =
      (Apart-append refs r d fresh, All-append Offered refs (r ∷ []) o (new, tt))

  add_node-Inv :
      (n : SingBoxNode) (refs : List OutboundRef)
      → IsKnown n
      → Inv refs
      → Inv (add_node input inbound n refs)
  add_node-Inv n refs ((role, same), known) v =
      elim (Bool-cases (
        not (nat_eq n.spec.relay_port 0)
        && n.spec.region == inbound.spec.region
        && is_open input inbound refs n.name
        && not (is_offline input n.name)
        && admits n.spec.allowed_inbounds inbound.name)) [
          | inr f ↦ rw f v
          | inl t ↦ rw t (
              append-Inv refs (ref_of_node n) v (ground arith) (
                ground arith,
                elim (Bool-cases (n.name == inbound.name)) [
                  | inl own ↦ inl (
                    (eq_iff n.name inbound.name).0 own,
                    same own,
                    ground (arith, eq_iff n.name inbound.name),
                  )
                  | inr other ↦ inr (inl (n, refl, known, ground arith, ground arith, ground arith))
                ],
              ))
        ]

  add_self-Inv : (refs : List OutboundRef) → Inv refs → Inv (add_self input inbound refs)
  add_self-Inv refs v =
      elim (Bool-cases (
        has_role inbound role_outbound
        && is_open input inbound refs inbound.name
        && not (is_offline input inbound.name))) [
          | inr f ↦ rw f v
          | inl t ↦ rw t (
              append-Inv refs (ref_of_self inbound) v (ground arith)
                (ground arith, inl (refl, ground arith, ground arith)))
        ]

  add_external-Inv :
      (e : ExternalOutbound) (refs : List OutboundRef)
      → e.spec.region == "" ≡ false ⊎ (inbound.spec.region == "" ≡ false)
      → Inv refs
      → Inv (add_external input inbound e refs)
  add_external-Inv e refs region v =
      elim (Bool-cases (
        e.spec.region == inbound.spec.region
        && is_open input inbound refs e.name
        && is_absent (lookup e.name input.outbounds_by_name)
        && admits e.spec.allowed_inbounds inbound.name)) [
          | inr f ↦ rw f v
          | inl t ↦ rw t (
              append-Inv refs (ref_of_external e) v (ground arith) (
                ground arith,
                inr (
                    inr (
                      e,
                      refl,
                      ground (
                        arith,
                        eq_iff e.spec.region inbound.spec.region,
                        eq_iff e.spec.region "",
                        eq_iff inbound.spec.region "",
                      ),
                      ground arith,
                    )),
              ))
        ]

  add_nodes-Inv :
      (ns : StringMap SingBoxNode) (refs : List OutboundRef)
      → All (λ kn. IsKnown kn.1) ns
      → Inv refs
      → Inv (add_nodes input inbound ns refs)
  unfolding add_nodes
  add_nodes-Inv [] refs h v = v
  add_nodes-Inv ((k, n) ∷ ns) refs (o, h) v =
      add_nodes-Inv ns (add_node input inbound n refs) h (add_node-Inv n refs o v)

  add_externals-Inv :
      (es : StringMap ExternalOutbound) (refs : List OutboundRef)
      → Inv refs
      → Inv (add_externals input inbound es refs)
  unfolding add_externals
  add_externals-Inv [] refs v = v
  add_externals-Inv ((k, e) ∷ es) refs v = elim (Bool-cases (e.spec.region == "")) [
    | inl t ↦ rw t (add_externals-Inv es refs v)
    | inr f ↦ rw f (
        add_externals-Inv es (add_external input inbound e refs)
          (add_external-Inv e refs (inl f) v))
  ]

  add_route-Inv :
      (r : CustomRoute) (refs : List OutboundRef)
      → inbound.spec.region == "" ≡ false
      → All (λ kn. IsKnown kn.1) input.outbounds_by_name
      → Inv refs
      → Inv (add_route input inbound r refs)
  add_route-Inv r refs region h v =
      elim (Bool-cases (effective_outbound_kind r == kind_external_outbound)) [
        | inl t ↦
            rw t (elim (Option-cases (lookup r.outbound_node input.external_outbounds_by_name)) [
              | inl missing ↦ rw missing v
              | inr (e, is) ↦ rw is (add_external-Inv e refs (inr region) v)
            ])
        | inr f ↦ rw f (elim (Option-cases (lookup r.outbound_node input.outbounds_by_name)) [
          | inl missing ↦ rw missing v
          | inr (n, is) ↦ rw is (
              add_node-Inv n refs
                (All-lookup IsKnown input.outbounds_by_name h r.outbound_node n is) v)
        ])
      ]

  add_routes-Inv :
      (rs : List CustomRoute) (refs : List OutboundRef)
      → inbound.spec.region == "" ≡ false
      → All (λ kn. IsKnown kn.1) input.outbounds_by_name
      → Inv refs
      → Inv (add_routes input inbound rs refs)
  unfolding add_routes
  add_routes-Inv [] refs region h v = v
  add_routes-Inv (r ∷ rs) refs region h v =
      add_routes-Inv rs (add_route input inbound r refs) region h (add_route-Inv r refs region h v)

  -- The targets that a client is offered through an inbound node with a region have different
  -- names. Its group lets the user relay through each, and each is the node itself, which has the
  -- outbound role and admits itself; or a node of the input that is not offline, has a relay port, and that the
  -- controller takes for a peer of the inbound node; or an external outbound that the controller
  -- takes if no node has its name, which no outbound node has. The outbounds of the input have the
  -- outbound role, and if one has the name of the inbound node, that node has the role too.
  pub resolve_outbound_nodes-Offered :
      find (λ n. n.name == inbound.name) input.inbound_nodes ≡ some inbound
      → inbound.spec.region == "" ≡ false
      → All (λ kn. IsOutbound kn.1) input.outbounds_by_name
      → Apart (resolve_outbound_nodes input inbound.name)
        × All Offered (resolve_outbound_nodes input inbound.name)
  unfolding resolve_outbound_nodes
  resolve_outbound_nodes-Offered is_first region outbounds =
      let h =
        All-both _ _ input.outbounds_by_name outbounds (own_members input.outbounds_by_name) in
      let nodes = add_nodes-Inv input.outbounds_by_name [] h (tt, tt) in
      let self = add_self-Inv (add_nodes input inbound input.outbounds_by_name []) nodes in
      let externals =
        add_externals-Inv input.external_outbounds_by_name
          (add_self input inbound (add_nodes input inbound input.outbounds_by_name [])) self in
      let (apart, offered) =
        add_routes-Inv (lookup_or [] inbound.name input.routes_by_inbound)
          (add_externals input inbound input.external_outbounds_by_name
            (add_self input inbound (add_nodes input inbound input.outbounds_by_name [])))
          region h externals in
      let sorted : resolve_outbound_nodes input inbound.name
          ≡ sort (λ a b. text_lt a.name b.name) (found_refs input inbound) =
        rw (resolve_outbound_nodes, is_first) in
      subst (λ refs. Apart refs × All Offered refs) (sym sorted)
        (
          Apart-sort (found_refs input inbound) apart,
          All-sort (λ a b. text_lt a.name b.name) Offered (found_refs input inbound) offered,
        )
