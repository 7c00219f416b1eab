-- ===== src/ApiServer/Collected.antt =====
-- What collectInput gathers for an inbound node: the peers of the list, and for each user the sets
-- that the handler reads too.
use singbox_operator.Base.{
  lookup_or, String, Bool, true, ◌&&◌, Option, none, some, List, [], ◌∷◌, map, ◌≡◌, refl, sym, ◌∙◌,
  ap, ◌==◌, any, any-sort, find, sort, text_lt, Distinct, Distinct-map-sort, Distinct-find,
  All-unsort, All-find, Option-cases, inl, inr,
}
use mathlib.Core.Path.{subst}
use mathlib.Core.Option.{some-injective}
use singbox_operator.Api.Platform.{Platform}
use singbox_operator.Api.Objects.{
  SingBoxNode, ExternalOutbound, User, EgressPolicy, has_role, role_inbound,
}
use singbox_operator.Engine.Types.{Input}
use singbox_operator.Controllers.Client.{Client}
use singbox_operator.Controllers.Collect.{
  is_peer, start, add_peers, add_externals, add_users, add_policies, collect_users, own_credential,
  collect_input,
}
use singbox_operator.Controllers.Kept.{
  relay_named, core-add_externals, core-add_policies, core-own_credential, any-add_peers,
  allowances-add_peers,
}
use singbox_operator.ApiServer.Handler.{group_sets}
use singbox_operator.ApiServer.Granted.{sets, is_user, add_users-sets, add_users-node}

module _ (p : Platform) (c : Client) (node : SingBoxNode) where
  abbrev pub IsGathered : List SingBoxNode → List User → Input → Type 0
  IsGathered nodes users i =
      (i.node ≡ node)
      × ((k : String)
          → any (relay_named p c node k) i.outbound_nodes
            ≡ any (λ n. is_peer p c node n && relay_named p c node k n) nodes)
      × ((u : User)
          → find (λ v. v.name == u.name) users ≡ some u
          → (group_sets c node.namespace u ≡ some (sets u.name i))
            × (is_user u.name i.users ≡ true))

  -- A user of a list with different names is found in the sorted list too.
  find-sort :
      (users : List User) (u : User)
      → Distinct (map (λ v. v.name) users)
      → find (λ v. v.name == u.name) users ≡ some u
      → find (λ v. v.name == u.name) (sort (λ a b. text_lt a.name b.name) users) ≡ some u
  find-sort users u d f =
      All-find
        (λ v. find (λ w. w.name == v.name) (sort (λ a b. text_lt a.name b.name) users) ≡ some v)
        (λ v. v.name == u.name) users u
        (All-unsort _ (λ a b. text_lt a.name b.name) users
          (Distinct-find (λ v. v.name) (sort (λ a b. text_lt a.name b.name) users)
            (Distinct-map-sort (λ v. v.name) (λ a b. text_lt a.name b.name) users d)))
        f

  -- The loops, from the sorted lists on.
  gathered :
      (usage : Bool) (listen : String) (nodes : List SingBoxNode) (users : List User)
      (externals : List ExternalOutbound) (policies : List EgressPolicy) (taken : List String)
      (i : Input)
      → Distinct (map (λ v. v.name) users)
      → add_users p c node (sort (λ a b. text_lt a.name b.name) users) (
          add_externals p c node taken externals (
            add_peers p c node
              (sort (λ a b. text_lt a.name b.name) nodes)
              (start p c node usage listen)))
        ≡ some i
      → IsGathered nodes users (
          own_credential p c node (
            add_policies p c node (sort (λ a b. text_lt a.name b.name) nodes) externals policies i))
  gathered usage listen nodes users externals policies taken i d e =
      let sorted = sort (λ a b. text_lt a.name b.name) nodes in
      let empty = start p c node usage listen in
      let peers = add_peers p c node sorted empty in
      let all_of = add_externals p c node taken externals peers in
      let last =
        core-own_credential p c node (add_policies p c node sorted externals policies i)
        ∙ core-add_policies p c node sorted externals policies i in
      let before = core-add_externals p c node taken externals peers in
      let (no_sets, own) = allowances-add_peers p c node sorted empty in
      let (same_node, same_peers) =
        add_users-node p c node (sort (λ a b. text_lt a.name b.name) users) all_of i e in
      (
        ap (λ x. x.0) last ∙ (same_node ∙ (ap (λ x. x.0) before ∙ own)),
        λ k.
            ap (λ x. any (relay_named p c node k) x.1) last
            ∙ (ap (any (relay_named p c node k)) same_peers
                ∙ (ap (λ x. any (relay_named p c node k) x.1) before
                    ∙ (any-add_peers p c node k sorted empty
                        ∙ any-sort (λ a b. text_lt a.name b.name)
                            (λ n. is_peer p c node n && relay_named p c node k n) nodes))),
        λ u f.
            let fresh : sets u.name all_of ≡ ([], []) =
              ap (λ x. (lookup_or [] u.name x.2.2, lookup_or [] u.name x.2.1)) before
              ∙ ap (λ x. (lookup_or [] u.name x.2, lookup_or [] u.name x.1)) no_sets in
            let (granted, known) =
              add_users-sets p c node u.name (sort (λ a b. text_lt a.name b.name) users) u all_of i
                (Distinct-map-sort (λ v. v.name) (λ a b. text_lt a.name b.name) users d)
                (find-sort users u d f) fresh e in
            (
              granted
                  ∙ ap some
                      (sym (ap (λ x. (lookup_or [] u.name x.2.2, lookup_or [] u.name x.2.1)) last)),
              ap (λ x. is_user u.name x.2.0) last ∙ known,
            ),
      )

  pub collect_input-IsGathered :
      (usage : Bool) (listen : String) (nodes : List SingBoxNode) (users : List User) (i : Input)
      → c.list_nodes node.namespace ≡ some nodes
      → c.list_users node.namespace ≡ some users
      → has_role node role_inbound ≡ true
      → Distinct (map (λ v. v.name) users)
      → collect_input p c node usage listen ≡ some i
      → IsGathered nodes users i
  unfolding collect_input collect_users
  collect_input-IsGathered usage listen nodes users i listed all_users inbound d e =
      elim (Option-cases (c.list_externals node.namespace)) [
        | inl none_listed ↦ let bad = rw (collect_input, listed, none_listed) at e in absurd (cc)
        | inr (externals, known) ↦
            let sorted = sort (λ a b. text_lt a.name b.name) externals in
            with_the_users sorted
              (node.name ∷ map (λ n. n.name) (sort (λ a b. text_lt a.name b.name) nodes))
              (rw (collect_input, listed, known) at e)
      ]
    where
      with_the_policies :
          (externals : List ExternalOutbound) (taken : List String)
          → (gathered_users : Option Input)
          → add_users p c node (sort (λ a b. text_lt a.name b.name) users) (
              add_externals p c node taken externals (
                add_peers p c node
                  (sort (λ a b. text_lt a.name b.name) nodes)
                  (start p c node usage listen)))
            ≡ gathered_users
          → (policies : Option (List EgressPolicy))
          → elim gathered_users [
            | none ↦ none
            | some j ↦ elim policies [
              | none ↦ none
              | some qs ↦ some (
                  own_credential p c node (
                    add_policies p c node
                      (sort (λ a b. text_lt a.name b.name) nodes)
                      externals
                      qs
                      j))
            ]
          ]
            ≡ some i
          → IsGathered nodes users i
      with_the_policies externals taken none u policies e = cc
      with_the_policies externals taken (some j) u none e = cc
      with_the_policies externals taken (some j) u (some qs) e =
          subst (IsGathered nodes users) (some-injective _ i e)
            (gathered usage listen nodes users externals qs taken j d u)

      with_the_users :
          (externals : List ExternalOutbound) (taken : List String)
          → elim (collect_users p c node (
              add_externals p c node taken externals (
                add_peers p c node
                  (sort (λ a b. text_lt a.name b.name) nodes)
                  (start p c node usage listen)))) [
                    | none ↦ none
                    | some j ↦ elim (c.list_policies node.namespace) [
                      | none ↦ none
                      | some qs ↦ some (
                          own_credential p c node (
                            add_policies p c node
                              (sort (λ a b. text_lt a.name b.name) nodes)
                              externals
                              qs
                              j))
                    ]
                  ]
            ≡ some i
          → IsGathered nodes users i
      with_the_users externals taken e =
          with_the_policies externals taken _ refl (c.list_policies node.namespace)
            (rw (collect_users, inbound, all_users) at e)
