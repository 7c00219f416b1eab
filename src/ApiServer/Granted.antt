-- ===== src/ApiServer/Granted.antt =====
-- What the groups let users do: the sets that collectInput gathers for a node, and those that the
-- handler reads for a user.
use mathlib.Core.Path.{subst}
use mathlib.Core.Option.{some-injective}
use singbox_operator.Base.{
  String, Bool, true, false, ◌||◌, none, some, List, [], ◌∷◌, ◌++◌, map, StringMap, lookup,
  lookup_or, lookup-insert, lookup_or-insert, insert, ◌≡◌, refl, sym, ◌∙◌, ap, arith, if◌then◌else◌,
  ◌==◌, any, any-append, find, is_empty, eq-nil, contains, Distinct, Bool-cases, inl, inr, eq_iff,
}
use singbox_operator.Api.Platform.{Platform}
use singbox_operator.Api.Objects.{SingBoxNode, User, UserGroup}
use singbox_operator.Engine.Types.{Input, NameSet}
use singbox_operator.Controllers.Client.{Client, Got, found, not_found, failed}
use singbox_operator.Controllers.Credentials.{get_user_credential}
use singbox_operator.Controllers.Collect.{name_set, with_user, with_group, add_users}
use singbox_operator.Controllers.Kept.{core, core-set_user_credential}
use singbox_operator.ApiServer.Handler.{group_sets}

-- The sets of a user of that name.
abbrev pub sets : String → Input → NameSet × NameSet
sets n i = (lookup_or [] n i.user_node_allowlist, lookup_or [] n i.user_node_restrictions)

abbrev no_sets : Input → SingBoxNode × List SingBoxNode × List User
no_sets i = (i.node, i.outbound_nodes, i.users)

abbrev pub is_user : String → List User → Bool
is_user n us = any (λ u. u.name == n) us

lookup_or-insert_other :
    (j k : String) (v : NameSet) (m : StringMap NameSet)
    → k == j ≡ false
    → lookup_or [] j (insert k v m) ≡ lookup_or [] j m
lookup_or-insert_other j k v m h =
    ap (λ o. elim o [ none ↦ [] | some s ↦ s ])
      (lookup-insert k j v m ∙ ap (λ b. if b then some v else lookup j m) h)

module _ (p : Platform) (c : Client) (node : SingBoxNode) where
  with_user-core :
      (u : User) (i : Input)
      → core (with_user p c node u i) ≡ core (record i { users = i.users ++ u ∷ [] })
  with_user-core u i =
      core-set_user_credential p c node u.name (get_user_credential c.get_secret u) _

  sets-with_user : (u : User) (i : Input) (n : String) → sets n (with_user p c node u i) ≡ sets n i
  sets-with_user u i n = ap (λ x. (lookup_or [] n x.2.2, lookup_or [] n x.2.1)) (with_user-core u i)

  is_user-with_user :
      (u : User) (i : Input) (n : String)
      → is_user n (with_user p c node u i).users ≡ (is_user n i.users || u.name == n)
  is_user-with_user u i n =
      ap (λ x. is_user n x.2.0) (with_user-core u i)
      ∙ (any-append (λ v. v.name == n) i.users (u ∷ []) ∙ ground arith)

  sets-with_group_other :
      (u : User) (g : UserGroup) (i : Input) (n : String)
      → u.name == n ≡ false
      → sets n (with_group p c node u g i) ≡ sets n i
  sets-with_group_other u g i n h =
      let denied =
        lookup_or-insert_other n u.name (name_set g.denied_nodes []) i.user_node_restrictions h in
      elim (Bool-cases (is_empty (name_set g.allowed_nodes []))) [
        | inl t ↦ rw (with_group, t) (ap (λ s. (lookup_or [] n i.user_node_allowlist, s)) denied)
        | inr f ↦
            rw (with_group, f)
              (ap
                  (λ s. (
                    s,
                    lookup_or [] n
                        (insert u.name (name_set g.denied_nodes []) i.user_node_restrictions),
                  ))
                  (lookup_or-insert_other n u.name (name_set g.allowed_nodes [])
                    i.user_node_allowlist h)
                ∙ ap (λ s. (lookup_or [] n i.user_node_allowlist, s)) denied)
      ]

  sets-with_group :
      (u : User) (g : UserGroup) (i : Input)
      → sets u.name i ≡ ([], [])
      → sets u.name (with_group p c node u g i)
        ≡ (name_set g.allowed_nodes [], name_set g.denied_nodes [])
  sets-with_group u g i h =
      let denied =
        lookup_or-insert [] u.name (name_set g.denied_nodes []) i.user_node_restrictions in
      elim (Bool-cases (is_empty (name_set g.allowed_nodes []))) [
        | inl t ↦
            rw (with_group, t)
              (ap (λ s. (lookup_or [] u.name i.user_node_allowlist, s)) denied
                ∙ ap (λ s. (s, name_set g.denied_nodes [])) (ap (λ x. x.0) h ∙ sym (eq-nil _ t)))
        | inr f ↦
            rw (with_group, f)
              (ap
                  (λ s. (
                    s,
                    lookup_or [] u.name
                        (insert u.name (name_set g.denied_nodes []) i.user_node_restrictions),
                  ))
                  (lookup_or-insert [] u.name (name_set g.allowed_nodes []) i.user_node_allowlist)
                ∙ ap (λ s. (name_set g.allowed_nodes [], s)) denied)
      ]

  with_group-kept :
      (u : User) (g : UserGroup) (i : Input) → no_sets (with_group p c node u g i) ≡ no_sets i
  with_group-kept u g i = elim (Bool-cases (is_empty (name_set g.allowed_nodes []))) [
    | inl t ↦ rw (with_group, t)
    | inr f ↦ rw (with_group, f)
  ]

  -- What one round of the loop over the users does.
  abbrev Stepped : User → Input → Input → Type 0
  Stepped u i j =
      ((n : String) → is_user n j.users ≡ (is_user n i.users || u.name == n))
      × ((n : String) → u.name == n ≡ false → sets n j ≡ sets n i)
      × (sets u.name i ≡ ([], []) → group_sets c node.namespace u ≡ some (sets u.name j))
      × (j.node ≡ i.node)
      × (j.outbound_nodes ≡ i.outbound_nodes)

  listed-Stepped :
      (u : User) (i : Input)
      → (sets u.name i ≡ ([], []) → group_sets c node.namespace u ≡ some ([], []))
      → Stepped u i (with_user p c node u i)
  listed-Stepped u i h = (
    is_user-with_user u i,
    λ n e. sets-with_user u i n,
    λ e. h e ∙ ap some (sym (sets-with_user u i u.name ∙ e)),
    ap (λ x. x.0) (with_user-core u i),
    ap (λ x. x.1) (with_user-core u i),
  )

  grouped-Stepped :
      (u : User) (g : UserGroup) (i : Input)
      → group_sets c node.namespace u
        ≡ some (name_set g.allowed_nodes [], name_set g.denied_nodes [])
      → Stepped u i (with_group p c node u g (with_user p c node u i))
  grouped-Stepped u g i h =
      let listed = with_user p c node u i in
      (
        λ n. ap (λ x. is_user n x.2) (with_group-kept u g listed) ∙ is_user-with_user u i n,
        λ n e. sets-with_group_other u g listed n e ∙ sets-with_user u i n,
        λ e. h ∙ ap some (sym (sets-with_group u g listed (sets-with_user u i u.name ∙ e))),
        ap (λ x. x.0) (with_group-kept u g listed) ∙ ap (λ x. x.0) (with_user-core u i),
        ap (λ x. x.1) (with_group-kept u g listed) ∙ ap (λ x. x.1) (with_user-core u i),
      )

  add_users-Stepped :
      (u : User) (us : List User) (i r : Input)
      → add_users p c node (u ∷ us) i ≡ some r
      → (j : Input) × Stepped u i j × (add_users p c node us j ≡ some r)
  unfolding add_users group_sets
  add_users-Stepped u us i r e = elim (Bool-cases (u.spec.user_group_ref == "")) [
    | inl free ↦
        (with_user p c node u i, listed-Stepped u i (λ h. rw (group_sets, free)), rw (free) at e)
    | inr grouped ↦
        by_group (c.get_group node.namespace u.spec.user_group_ref) refl grouped (rw grouped at e)
  ]
    where
      by_group :
          (got : Got UserGroup)
          → c.get_group node.namespace u.spec.user_group_ref ≡ got
          → u.spec.user_group_ref == "" ≡ false
          → elim got [
            | not_found ↦ add_users p c node us (with_user p c node u i)
            | found ug ↦ add_users p c node us (with_group p c node u ug (with_user p c node u i))
            | failed ↦ none
          ]
            ≡ some r
          → (j : Input) × Stepped u i j × (add_users p c node us j ≡ some r)
      by_group not_found g grouped e =
          (with_user p c node u i, listed-Stepped u i (λ h. rw (group_sets, grouped, g)), e)
      by_group (found ug) g grouped e = (
        with_group p c node u ug (with_user p c node u i),
        grouped-Stepped u ug i (rw (group_sets, grouped, g)),
        e,
      )
      by_group failed g grouped e = cc

  -- Users of other names leave the sets of a name alone, and no user goes.
  add_users-kept :
      (n : String) (us : List User) (i r : Input)
      → is_user n us ≡ false
      → add_users p c node us i ≡ some r
      → (sets n r ≡ sets n i) × (is_user n r.users ≡ is_user n i.users)
  unfolding add_users
  add_users-kept n [] i r h e =
      let same : i ≡ r = some-injective i r e in
      (ap (sets n) (sym same), ap (λ x. is_user n x.users) (sym same))
  add_users-kept n (u ∷ us) i r h e =
      let (j, (names, others, own, node_kept, peers_kept), rest) = add_users-Stepped u us i r e in
      let (kept, known) = add_users-kept n us j r (ground arith) rest in
      let other : u.name == n ≡ false = ground arith in
      (kept ∙ others n other, known ∙ (names n ∙ ground arith))

  pub add_users-sets :
      (n : String) (us : List User) (u : User) (i r : Input)
      → Distinct (map (λ v. v.name) us)
      → find (λ v. v.name == n) us ≡ some u
      → sets n i ≡ ([], [])
      → add_users p c node us i ≡ some r
      → (group_sets c node.namespace u ≡ some (sets n r)) × (is_user n r.users ≡ true)
  unfolding add_users
  add_users-sets n [] u i r d f h e = cc
  add_users-sets n (v ∷ us) u i r (new, d) f h e =
      let (j, (names, others, own, node_kept, peers_kept), rest) = add_users-Stepped v us i r e in
      elim (Bool-cases (v.name == n)) [
        | inl same ↦
            let v_n : v.name ≡ n = (eq_iff v.name n).0 same in
            let v_u : v ≡ u =
              some-injective v u
                (sym (ap (λ b. if b then some v else find (λ w. w.name == n) us) same) ∙ f) in
            let gone : is_user n us ≡ false =
              absent us (subst (λ x. contains (map (λ w. w.name) us) x ≡ false) v_n new) in
            let (kept, known) = add_users-kept n us j r gone rest in
            let start : sets v.name i ≡ ([], []) = subst (λ x. sets x i ≡ ([], [])) (sym v_n) h in
            let granted : group_sets c node.namespace u ≡ some (sets n j) =
              subst (λ x. group_sets c node.namespace x ≡ some (sets n j)) v_u
                (subst (λ x. group_sets c node.namespace v ≡ some (sets x j)) v_n (own start)) in
            (granted ∙ ap some (sym kept), known ∙ (names n ∙ ground arith))
        | inr other ↦
            let later : find (λ w. w.name == n) us ≡ some u =
              sym (ap (λ b. if b then some v else find (λ w. w.name == n) us) other) ∙ f in
            add_users-sets n us u j r d later (others n other ∙ h) rest
      ]
    where
      absent : (vs : List User) → contains (map (λ w. w.name) vs) n ≡ false → is_user n vs ≡ false
      absent [] h = refl
      absent (w ∷ ws) h = ground (arith, absent ws)

  -- The users leave the node and its peers alone.
  pub add_users-node :
      (us : List User) (i r : Input)
      → add_users p c node us i ≡ some r
      → (r.node ≡ i.node) × (r.outbound_nodes ≡ i.outbound_nodes)
  unfolding add_users
  add_users-node [] i r e =
      let same : i ≡ r = some-injective i r e in
      (ap (λ x. x.node) (sym same), ap (λ x. x.outbound_nodes) (sym same))
  add_users-node (u ∷ us) i r e =
      let (j, (names, others, own, node_kept, peers_kept), rest) = add_users-Stepped u us i r e in
      let (n, ps) = add_users-node us j r rest in (n ∙ node_kept, ps ∙ peers_kept)
