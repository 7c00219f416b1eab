-- ===== src/Controllers/Collected.antt =====
-- What collectInput hands to the engine.
use mathlib.Core.Path.{subst}
use singbox_operator.Base.{
  String, Bool, true, not, ◌||◌, Option, none, some, List, [], ◌∷◌, ◌++◌, lookup, Distinct,
  Distinct-find, Distinct-map-sort, All, All-append, All-mono, sort, text_lt, ◌==◌, ◌≡◌, refl, sym,
  arith, Bool-cases, Option-cases, inl, inr, if◌then◌else◌,
}
use singbox_operator.Api.Platform.{Platform}
use singbox_operator.Api.Objects.{
  SingBoxNode, ExternalOutbound, EgressPolicy, has_role, role_inbound, role_outbound, action_reject,
}
use singbox_operator.Engine.Types.{Input}
use singbox_operator.Engine.Policies.{present}
use singbox_operator.Engine.Consistent.{TargetConnects, IsConsistent, has_known_action}
use singbox_operator.Controllers.Client.{Client}
use singbox_operator.Controllers.Egress.{
  Resolved, message, target, resolve_egress_policy, find_outbound_node, find_external_outbound,
  egress_connected_to_inbound,
}
use singbox_operator.Controllers.Collect.{
  start, add_peers, add_externals, with_policy, set_target, is_ingress, add_policy, add_policies,
  collect_users, own_credential, collect_input,
}
use singbox_operator.Controllers.Known.{Known, node_names, find_outbound_node-Known}
use singbox_operator.Controllers.Gathered.{
  Inv, if-Inv, set_node_credential-Inv, set_external_credential-Inv, under_name-Inv,
  external_under_name-Inv, add_peers-Inv, add_externals-Inv, add_users-Inv,
}

present-append :
    (qs : List (Option EgressPolicy)) (q : EgressPolicy)
    → present (qs ++ some q ∷ []) ≡ present qs ++ q ∷ []
present-append [] q = refl
present-append (none ∷ qs) q = present-append qs q
present-append (some r ∷ qs) q = rw (present-append qs q)

target-has_known_action :
    (p : Platform) (q : EgressPolicy) (nodes : List SingBoxNode) (externals : List ExternalOutbound)
    (name : String)
    → resolve_egress_policy p q nodes externals ≡ target name
    → has_known_action q ≡ true
unfolding resolve_egress_policy
target-has_known_action p q nodes externals name e = ground arith

module _ (p : Platform) (c : Client) (node : SingBoxNode) (nodes : List SingBoxNode) where
  with_policy-Inv :
      (q : EgressPolicy) (input : Input)
      → is_ingress p c node q ≡ true
      → has_known_action q ≡ true
      → Inv p c node nodes input
      → Inv p c node nodes (with_policy p c node q input)
  with_policy-Inv q input ingress known h = record {
    own_node = h.own_node;
    no_routes = h.no_routes;
    all_peers = h.all_peers;
    nodes_named = h.nodes_named;
    externals_named = h.externals_named;
    inbound = ground arith;
    known_actions =
        rw (present-append input.egress_policies q)
          (All-append _ (present input.egress_policies) (q ∷ []) h.known_actions (known, tt));
  }

  set_target-Inv :
      (o : Option SingBoxNode) (e : Option ExternalOutbound) (input : Input)
      → ((n : SingBoxNode) → o ≡ some n → Known nodes n)
      → Inv p c node nodes input
      → Inv p c node nodes (set_target p c node o e input)
  set_target-Inv (some n) e input known h =
      set_node_credential-Inv p c node nodes n.name _ _
        (under_name-Inv p c node nodes n input (known n refl) h)
  set_target-Inv none (some e) input known h =
      set_external_credential-Inv p c node nodes e.name _ _
        (external_under_name-Inv p c node nodes e input h)
  set_target-Inv none none input known h = h

  add_policy-Inv :
      (externals : List ExternalOutbound) (q : EgressPolicy) (input : Input)
      → All (Known nodes) nodes
      → Inv p c node nodes input
      → Inv p c node nodes (add_policy p c node nodes externals q input)
  unfolding add_policy
  add_policy-Inv externals q input known h =
      if-Inv p c node nodes (not (is_ingress p c node q)) input _ (λ t. h)
        (λ f. by_target (ground arith) (resolve_egress_policy p q nodes externals) refl)
    where
      by_target :
          is_ingress p c node q ≡ true
          → (r : Resolved) → resolve_egress_policy p q nodes externals ≡ r
          → Inv p c node nodes (elim r [
            | message ↦ input
            | target name ↦
                if q.spec.action == action_reject
                then with_policy p c node q input
                else if name == "" || not (egress_connected_to_inbound node name nodes externals)
                then input
                else set_target p c node
                    (find_outbound_node nodes name)
                    (find_external_outbound externals name)
                    (with_policy p c node q input)
          ])
      by_target ingress message e = h
      by_target ingress (target name) e =
          let action = target-has_known_action p q nodes externals name e in
          let v = with_policy-Inv q input ingress action h in
          if-Inv p c node nodes (q.spec.action == action_reject) (with_policy p c node q input)
            (if name == "" || not (egress_connected_to_inbound node name nodes externals)
              then input
              else set_target p c node (find_outbound_node nodes name)
                  (find_external_outbound externals name) (with_policy p c node q input))
            (λ t. v)
            (λ f.
              if-Inv p c node nodes
                (name == "" || not (egress_connected_to_inbound node name nodes externals)) input
                (set_target p c node (find_outbound_node nodes name)
                  (find_external_outbound externals name) (with_policy p c node q input))
                (λ t. h)
                (λ g.
                  set_target-Inv (find_outbound_node nodes name)
                    (find_external_outbound externals name) (with_policy p c node q input)
                    (λ n found_it. (find_outbound_node-Known nodes nodes name n known found_it).1)
                    v))

  add_policies-Inv :
      (externals : List ExternalOutbound) (qs : List EgressPolicy) (input : Input)
      → All (Known nodes) nodes
      → Inv p c node nodes input
      → Inv p c node nodes (add_policies p c node nodes externals qs input)
  unfolding add_policies
  add_policies-Inv externals [] input known h = h
  add_policies-Inv externals (q ∷ qs) input known h =
      add_policies-Inv externals qs _ known (add_policy-Inv externals q input known h)

  own_credential-Inv :
      (input : Input)
      → Inv p c node nodes input
      → Inv p c node nodes (own_credential p c node input)
  own_credential-Inv input h =
      if-Inv p c node nodes (has_role node role_outbound) _ input
        (λ t. set_node_credential-Inv p c node nodes node.name _ input h) (λ f. h)

  start-Inv : (usage : Bool) (listen : String) → Inv p c node nodes (start p c node usage listen)
  start-Inv usage listen = record {
    own_node = refl;
    no_routes = refl;
    all_peers = tt;
    nodes_named = λ k n e. absurd (cc);
    externals_named = λ k x e. absurd (cc);
    inbound = refl;
    known_actions = tt;
  }

  collect_users-Inv :
      (input result : Input)
      → Inv p c node nodes input
      → collect_users p c node input ≡ some result
      → Inv p c node nodes result
  unfolding collect_users
  collect_users-Inv input result h e = elim (Bool-cases (has_role node role_inbound)) [
    | inr f ↦
        let kept = rw (collect_users, f) at e in
        let same : input ≡ result = cc in subst (Inv p c node nodes) same h
    | inl t ↦ elim (Option-cases (c.list_users node.namespace)) [
      | inl none_listed ↦ let bad = rw (collect_users, t, none_listed) at e in absurd (cc)
      | inr (users, listed) ↦
          add_users-Inv p c node nodes _ input result h (rw (collect_users, t, listed) at e)
    ]
  ]

  Inv-IsConsistent : (input : Input) → Inv p c node nodes input → IsConsistent input
  Inv-IsConsistent input h = record {
    peers_connect =
        All-mono (λ n (known, admitted, at_name). rw (h.own_node) admitted) _ h.all_peers;
    peers_indexed = All-mono (λ n (known, admitted, at_name). at_name) _ h.all_peers;
    routes_connect =
        subst
          (All (λ r. TargetConnects input (lookup r.outbound_node input.outbound_nodes_by_name)))
          (sym h.no_routes) tt;
    nodes_named = h.nodes_named;
    externals_named = h.externals_named;
    policies_inbound = rw (h.own_node) h.inbound;
    known_actions = h.known_actions;
  }

abbrev by_node_name : SingBoxNode → SingBoxNode → Bool
by_node_name a b = text_lt a.name b.name

abbrev by_external_name : ExternalOutbound → ExternalOutbound → Bool
by_external_name a b = text_lt a.name b.name

-- An input for the node, of which the engine's assumptions hold.
abbrev Ready : SingBoxNode → Input → Type 0
Ready node input = (input.node ≡ node) × IsConsistent input

-- The loops of collectInput, on lists that the client gave.
gathered :
    (p : Platform) (c : Client) (node : SingBoxNode) (usage : Bool) (listen : String)
    (nodes : List SingBoxNode) (externals : List ExternalOutbound) (policies : List EgressPolicy)
    (input : Input)
    → Distinct (node_names nodes)
    → collect_users p c node (
        add_externals p c node
          (node.name ∷ node_names nodes)
          externals
          (add_peers p c node nodes (start p c node usage listen)))
      ≡ some input
    → Ready node (own_credential p c node (add_policies p c node nodes externals policies input))
gathered p c node usage listen nodes externals policies input d e =
    let known = Distinct-find (λ n. n.name) nodes d in
    let peers =
      add_peers-Inv p c node nodes nodes _ known (start-Inv p c node nodes usage listen) in
    let reached =
      add_externals-Inv p c node nodes (node.name ∷ node_names nodes) externals _ peers in
    let listed = collect_users-Inv p c node nodes _ input reached e in
    let own =
      own_credential-Inv p c node nodes _
        (add_policies-Inv p c node nodes externals policies input known listed) in
    (own.own_node, Inv-IsConsistent p c node nodes _ own)

collect_input-Ready :
    (p : Platform) (c : Client) (node : SingBoxNode) (usage : Bool) (listen : String)
    (input : Input)
    → ((all_nodes : List SingBoxNode)
        → c.list_nodes node.namespace ≡ some all_nodes
        → Distinct (node_names all_nodes))
    → collect_input p c node usage listen ≡ some input
    → Ready node input
unfolding collect_input
collect_input-Ready p c node usage listen input names e =
    elim (Option-cases (c.list_nodes node.namespace)) [
      | inl x ↦ let bad = rw (collect_input, x) at e in absurd (cc)
      | inr (all_nodes, x) ↦
          let nodes = sort by_node_name all_nodes in
          let e = rw (collect_input, x) at e in
          elim (Option-cases (c.list_externals node.namespace)) [
            | inl y ↦ let bad = rw y at e in absurd (cc)
            | inr (all_externals, y) ↦
                let e = rw y at e in
                let externals = sort by_external_name all_externals in
                elim (Option-cases (
                  collect_users p c node (
                    add_externals p c node (node.name ∷ node_names nodes) externals
                      (add_peers p c node nodes (start p c node usage listen))))) [
                        | inl z ↦ let bad = rw z at e in absurd (cc)
                        | inr (users, z) ↦
                            let e = rw z at e in
                            elim (Option-cases (c.list_policies node.namespace)) [
                              | inl w ↦ let bad = rw w at e in absurd (cc)
                              | inr (policies, w) ↦
                                  let e = rw w at e in
                                  let same : own_credential p c node
                                        (add_policies p c node nodes externals policies users)
                                      ≡ input =
                                    cc in
                                  subst (Ready node) same (
                                    gathered p c node usage listen nodes externals policies users
                                      (Distinct-map-sort (λ n. n.name) by_node_name all_nodes
                                        (names all_nodes x))
                                      z)
                            ]
                      ]
          ]
    ]

-- Where the nodes of a namespace have different names, what the controller collects for a node is
-- what the engine relies on.
pub collect_input-IsConsistent :
    (p : Platform) (c : Client) (node : SingBoxNode) (usage : Bool) (listen : String)
    (input : Input)
    → ((all_nodes : List SingBoxNode)
        → c.list_nodes node.namespace ≡ some all_nodes
        → Distinct (node_names all_nodes))
    → collect_input p c node usage listen ≡ some input
    → IsConsistent input
collect_input-IsConsistent p c node usage listen input names e =
    (collect_input-Ready p c node usage listen input names e).1

pub collect_input-node :
    (p : Platform) (c : Client) (node : SingBoxNode) (usage : Bool) (listen : String)
    (input : Input)
    → ((all_nodes : List SingBoxNode)
        → c.list_nodes node.namespace ≡ some all_nodes
        → Distinct (node_names all_nodes))
    → collect_input p c node usage listen ≡ some input
    → input.node ≡ node
collect_input-node p c node usage listen input names e =
    (collect_input-Ready p c node usage listen input names e).0
