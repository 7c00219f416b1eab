-- ===== src/Controllers/Kept.antt =====
-- The peers, the users and their restrictions, through the loops of collectInput that leave them alone.
use singbox_operator.Base.{
  String, Bool, true, false, not, ◌&&◌, ◌||◌, Option, none, some, List, [], ◌∷◌, ◌++◌, StringMap,
  ◌≡◌, refl, ◌∙◌, ap, arith, if◌then◌else◌, ◌==◌, any, any-append, nat_eq, Bool-cases, inl, inr,
}
use singbox_operator.Api.Platform.{Platform}
use singbox_operator.Api.Objects.{
  SingBoxNode, ExternalOutbound, User, EgressPolicy, has_role, role_outbound, action_reject,
}
use singbox_operator.Engine.Types.{
  Input, NameSet, NodeCredential, ExternalCredential, UserCredential,
}
use singbox_operator.Controllers.Client.{Client}
use singbox_operator.Controllers.Credentials.{get_node_credential, get_external_credentials}
use singbox_operator.Controllers.Egress.{
  Resolved, message, target, resolve_egress_policy, find_outbound_node, find_external_outbound,
  egress_connected_to_inbound,
}
use singbox_operator.Controllers.Collect.{
  set_node_credential, set_external_credential, set_user_credential, is_peer, with_peer, add_peers,
  is_usable, with_external, add_externals, with_policy, set_target, is_ingress, add_policy,
  add_policies, own_credential,
}

-- The groups' effect on the users.
abbrev pub Allowances : Type 0
Allowances = List User × StringMap NameSet × StringMap NameSet

abbrev pub allowances : Input → Allowances
allowances i = (i.users, i.user_node_restrictions, i.user_node_allowlist)

abbrev pub core : Input → SingBoxNode × List SingBoxNode × Allowances
core i = (i.node, i.outbound_nodes, allowances i)

pub if-same {ℓ κ} :
    {A : Type ℓ} {B : Type κ} (f : A → B) (b : Bool) (x y : A) (z : B)
    → f x ≡ z
    → f y ≡ z
    → f (if b then x else y) ≡ z
if-same f true x y z h k = h
if-same f false x y z h k = k

module _ (p : Platform) (c : Client) (node : SingBoxNode) where
  pub core-set_node_credential :
      (name : String) (o : Option NodeCredential) (i : Input)
      → core (set_node_credential p c node name o i) ≡ core i
  core-set_node_credential name none i = refl
  core-set_node_credential name (some cred) i = refl

  core-set_external_credential :
      (name : String) (o : Option ExternalCredential) (i : Input)
      → core (set_external_credential p c node name o i) ≡ core i
  core-set_external_credential name none i = refl
  core-set_external_credential name (some cred) i = refl

  pub core-set_user_credential :
      (name : String) (o : Option UserCredential) (i : Input)
      → core (set_user_credential p c node name o i) ≡ core i
  core-set_user_credential name none i = refl
  core-set_user_credential name (some cred) i = refl

  pub core-add_externals :
      (taken : List String) (es : List ExternalOutbound) (i : Input)
      → core (add_externals p c node taken es i) ≡ core i
  unfolding add_externals
  core-add_externals taken [] i = refl
  core-add_externals taken (e ∷ es) i =
      core-add_externals taken es _
      ∙ if-same core (is_usable p c node taken e) _ i (core i)
          (core-set_external_credential e.name (get_external_credentials c.get_secret e)
            (with_external p c node e i))
          refl

  core-set_target :
      (n : Option SingBoxNode) (e : Option ExternalOutbound) (i : Input)
      → core (set_target p c node n e i) ≡ core i
  core-set_target (some n) e i =
      core-set_node_credential n.name (get_node_credential c.get_secret n.name node.namespace) _
  core-set_target none (some e) i =
      core-set_external_credential e.name (get_external_credentials c.get_secret e) _
  core-set_target none none i = refl

  core-add_policy :
      (nodes : List SingBoxNode) (externals : List ExternalOutbound) (q : EgressPolicy) (i : Input)
      → core (add_policy p c node nodes externals q i) ≡ core i
  unfolding add_policy
  core-add_policy nodes externals q i =
      if-same core (not (is_ingress p c node q)) i _ (core i) refl
        (by_target (resolve_egress_policy p q nodes externals))
    where
      by_target :
          (r : Resolved)
          → core (elim r [
            | message ↦ i
            | target name ↦
                if q.spec.action == action_reject
                then with_policy p c node q i
                else if name == "" || not (egress_connected_to_inbound node name nodes externals)
                then i
                else set_target p c node
                    (find_outbound_node nodes name)
                    (find_external_outbound externals name)
                    (with_policy p c node q i)
          ])
            ≡ core i
      by_target message = refl
      by_target (target name) =
          if-same core (q.spec.action == action_reject) (with_policy p c node q i) _ (core i) refl (
            if-same core (name == "" || not (egress_connected_to_inbound node name nodes externals))
              i _ (core i) refl
              (core-set_target (find_outbound_node nodes name)
                (find_external_outbound externals name) (with_policy p c node q i)))

  pub core-add_policies :
      (nodes : List SingBoxNode) (externals : List ExternalOutbound) (qs : List EgressPolicy)
      (i : Input)
      → core (add_policies p c node nodes externals qs i) ≡ core i
  unfolding add_policies
  core-add_policies nodes externals [] i = refl
  core-add_policies nodes externals (q ∷ qs) i =
      core-add_policies nodes externals qs _ ∙ core-add_policy nodes externals q i

  pub core-own_credential : (i : Input) → core (own_credential p c node i) ≡ core i
  core-own_credential i =
      if-same core (has_role node role_outbound) _ i (core i)
        (core-set_node_credential node.name
          (get_node_credential c.get_secret node.name node.namespace) i)
        refl

  -- A node with a relay port and a name.
  abbrev pub relay_named : String → SingBoxNode → Bool
  relay_named k n = not (nat_eq n.spec.relay_port 0) && n.name == k

  -- The peers are those of the list, next to what was there.
  pub any-add_peers :
      (k : String) (ns : List SingBoxNode) (i : Input)
      → any (relay_named k) (add_peers p c node ns i).outbound_nodes ≡ (
          any (relay_named k) i.outbound_nodes
          || any (λ n. is_peer p c node n && relay_named k n) ns)
  unfolding add_peers
  any-add_peers k [] i = ground arith
  any-add_peers k (n ∷ ns) i = elim (Bool-cases (is_peer p c node n)) [
    | inr f ↦ rw (add_peers, f) (any-add_peers k ns i ∙ ground arith)
    | inl t ↦
        let loaded =
          set_node_credential p c node n.name
            (get_node_credential c.get_secret n.name node.namespace) (with_peer p c node n i) in
        let peers : loaded.outbound_nodes ≡ i.outbound_nodes ++ n ∷ [] =
          ap (λ x. x.1)
            (core-set_node_credential n.name
              (get_node_credential c.get_secret n.name node.namespace) (with_peer p c node n i)) in
        let here : any (relay_named k) loaded.outbound_nodes
            ≡ (any (relay_named k) i.outbound_nodes || relay_named k n) =
          ap (any (relay_named k)) peers
          ∙ (any-append (relay_named k) i.outbound_nodes (n ∷ []) ∙ ground arith) in
        rw (add_peers, t) (any-add_peers k ns loaded ∙ ground (arith, here))
  ]

  pub allowances-add_peers :
      (ns : List SingBoxNode) (i : Input)
      → (allowances (add_peers p c node ns i) ≡ allowances i)
        × ((add_peers p c node ns i).node ≡ i.node)
  unfolding add_peers
  allowances-add_peers [] i = (refl, refl)
  allowances-add_peers (n ∷ ns) i =
      let loaded =
        set_node_credential p c node n.name (get_node_credential c.get_secret n.name node.namespace)
          (with_peer p c node n i) in
      let kept =
        core-set_node_credential n.name (get_node_credential c.get_secret n.name node.namespace)
          (with_peer p c node n i) in
      let (same, own) = allowances-add_peers ns (if is_peer p c node n then loaded else i) in
      (
        same
            ∙ if-same allowances (is_peer p c node n) loaded i (allowances i) (ap (λ x. x.2) kept)
                refl,
        own ∙ if-same (λ x. x.node) (is_peer p c node n) loaded i i.node (ap (λ x. x.0) kept) refl,
      )
