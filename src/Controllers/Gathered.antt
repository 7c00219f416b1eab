-- ===== src/Controllers/Gathered.antt =====
-- What collectInput keeps while it gathers the peers, the external outbounds and the users.
use mathlib.Core.Path.{subst}
use singbox_operator.Base.{
  String, Bool, true, false, ◌&&◌, ◌||◌, Option, none, some, List, [], ◌∷◌, StringMap, lookup,
  insert, lookup-insert, find, is_empty, All, All-append, All-mono, ◌==◌, ◌≡◌, refl, sym, ◌∙◌,
  arith, Bool-cases, inl, inr, eq_iff, eq_refl, if◌then◌else◌,
}
use singbox_operator.Api.Platform.{Platform}
use singbox_operator.Api.Objects.{
  SingBoxNode, ExternalOutbound, CustomRoute, EgressPolicy, User, UserGroup, has_role, role_inbound,
}
use singbox_operator.Engine.Types.{
  Input, UserCredential, NodeCredential, ExternalCredential, admits,
}
use singbox_operator.Engine.Policies.{present}
use singbox_operator.Engine.Consistent.{has_known_action}
use singbox_operator.Controllers.Client.{Client, Got, found, not_found, failed}
use singbox_operator.Controllers.Credentials.{
  get_node_credential, get_user_credential, get_external_credentials,
}
use singbox_operator.Controllers.Collect.{
  set_node_credential, set_external_credential, set_user_credential, is_peer, with_peer, add_peers,
  is_usable, with_external, add_externals, with_user, with_group, add_users, under_name,
  external_under_name,
}
use singbox_operator.Controllers.Known.{Known}

-- A map from names to what bears them stays one.
named-insert :
    {A : Type 0} (name : A → String) (n : A) (m : StringMap A)
    → ((k : String) (x : A) → lookup k m ≡ some x → name x ≡ k)
    → (k : String) (x : A) → lookup k (insert (name n) n m) ≡ some x
    → name x ≡ k
named-insert name n m h k x e = elim (Bool-cases (name n == k)) [
  | inl t ↦
      let found_it = rw (lookup-insert (name n) k n m, t) at e in
      let same : n ≡ x = cc in subst (λ y. name y ≡ k) same ((eq_iff (name n) k).0 t)
  | inr f ↦ h k x (rw (lookup-insert (name n) k n m, f) at e)
]

module _ (p : Platform) (c : Client) (node : SingBoxNode) (nodes : List SingBoxNode) where
  abbrev pub Peer : StringMap SingBoxNode → SingBoxNode → Type 0
  Peer by_name n =
      Known nodes n
      × (admits n.spec.allowed_inbounds node.name && admits node.spec.allowed_outbounds n.name
          ≡ true)
      × (lookup n.name by_name ≡ some n)

  -- What the loops keep, of the fields that the engine's assumptions are about.
  pub record Gathered (own : SingBoxNode) (routes : List CustomRoute) (peers : List SingBoxNode)
      (by_name : StringMap SingBoxNode) (externals : StringMap ExternalOutbound)
      (policies : List (Option EgressPolicy)) : Type 0 where
    pub own_node : own ≡ node
    pub no_routes : routes ≡ []
    pub all_peers : All (Peer by_name) peers
    pub nodes_named : (k : String) (n : SingBoxNode) → lookup k by_name ≡ some n → n.name ≡ k
    pub externals_named :
        (k : String) (e : ExternalOutbound) → lookup k externals ≡ some e → e.name ≡ k
    pub inbound : is_empty (present policies) || has_role node role_inbound ≡ true
    pub known_actions : All (λ q. has_known_action q ≡ true) (present policies)

  abbrev pub Inv : Input → Type 0
  Inv input =
      Gathered input.node input.routes input.outbound_nodes input.outbound_nodes_by_name
        input.external_outbounds_by_name input.egress_policies

  pub if-Inv :
      (b : Bool) (x y : Input) → (b ≡ true → Inv x) → (b ≡ false → Inv y) → Inv (if b then x else y)
  if-Inv true x y h k = h refl
  if-Inv false x y h k = k refl

  pub set_node_credential-Inv :
      (name : String) (o : Option NodeCredential) (input : Input)
      → Inv input
      → Inv (set_node_credential p c node name o input)
  set_node_credential-Inv name none input h = h
  set_node_credential-Inv name (some cred) input h = h

  pub set_external_credential-Inv :
      (name : String) (o : Option ExternalCredential) (input : Input)
      → Inv input
      → Inv (set_external_credential p c node name o input)
  set_external_credential-Inv name none input h = h
  set_external_credential-Inv name (some creds) input h = h

  set_user_credential-Inv :
      (name : String) (o : Option UserCredential) (input : Input)
      → Inv input
      → Inv (set_user_credential p c node name o input)
  set_user_credential-Inv name none input h = h
  set_user_credential-Inv name (some cred) input h = h

  -- A known node under its name leaves the peers where they are.
  Peer-insert :
      (n : SingBoxNode) (m : StringMap SingBoxNode) (x : SingBoxNode)
      → Known nodes n
      → Peer m x
      → Peer (insert n.name n m) x
  Peer-insert n m x known (h, admitted, at_name) = elim (Bool-cases (n.name == x.name)) [
    | inl t ↦
        let one : some n ≡ some x =
          sym
            (subst (λ k. find (λ y. y.name == k) nodes ≡ some n) ((eq_iff n.name x.name).0 t) known)
          ∙ h in
        (h, admitted, rw (lookup-insert n.name x.name n m, t) one)
    | inr f ↦ (h, admitted, rw (lookup-insert n.name x.name n m, f) at_name)
  ]

  -- A node of the list may be put under its name.
  pub under_name-Inv :
      (n : SingBoxNode) (input : Input)
      → Known nodes n
      → Inv input
      → Inv (under_name p c node n input)
  under_name-Inv n input known h = record {
    own_node = h.own_node;
    no_routes = h.no_routes;
    all_peers = All-mono (λ x. Peer-insert n input.outbound_nodes_by_name x known) _ h.all_peers;
    nodes_named = named-insert (λ x. x.name) n input.outbound_nodes_by_name h.nodes_named;
    externals_named = h.externals_named;
    inbound = h.inbound;
    known_actions = h.known_actions;
  }

  pub external_under_name-Inv :
      (e : ExternalOutbound) (input : Input)
      → Inv input
      → Inv (external_under_name p c node e input)
  external_under_name-Inv e input h = record {
    own_node = h.own_node;
    no_routes = h.no_routes;
    all_peers = h.all_peers;
    nodes_named = h.nodes_named;
    externals_named =
        named-insert (λ x. x.name) e input.external_outbounds_by_name h.externals_named;
    inbound = h.inbound;
    known_actions = h.known_actions;
  }

  with_peer-Inv :
      (n : SingBoxNode) (input : Input)
      → is_peer p c node n ≡ true
      → Known nodes n
      → Inv input
      → Inv (with_peer p c node n input)
  with_peer-Inv n input peer known h =
      let v = under_name-Inv n input known h in
      let at_name : lookup n.name (insert n.name n input.outbound_nodes_by_name) ≡ some n =
        rw (lookup-insert n.name n.name n input.outbound_nodes_by_name, eq_refl n.name) in
      record {
        own_node = h.own_node;
        no_routes = h.no_routes;
        all_peers =
            All-append _ input.outbound_nodes (n ∷ []) v.all_peers
              ((known, ground arith, at_name), tt);
        nodes_named = v.nodes_named;
        externals_named = h.externals_named;
        inbound = h.inbound;
        known_actions = h.known_actions;
      }

  pub add_peers-Inv :
      (ns : List SingBoxNode) (input : Input)
      → All (Known nodes) ns
      → Inv input
      → Inv (add_peers p c node ns input)
  unfolding add_peers
  add_peers-Inv [] input known h = h
  add_peers-Inv (n ∷ ns) input (known, others) h = add_peers-Inv ns _ others (
      if-Inv (is_peer p c node n) _ input
        (λ peer.
          set_node_credential-Inv n.name (get_node_credential c.get_secret n.name node.namespace)
            (with_peer p c node n input) (with_peer-Inv n input peer known h))
        (λ other. h))

  pub add_externals-Inv :
      (taken : List String) (es : List ExternalOutbound) (input : Input)
      → Inv input
      → Inv (add_externals p c node taken es input)
  unfolding add_externals
  add_externals-Inv taken [] input h = h
  add_externals-Inv taken (e ∷ es) input h = add_externals-Inv taken es _ (
      if-Inv (is_usable p c node taken e) _ input
        (λ usable.
          set_external_credential-Inv e.name (get_external_credentials c.get_secret e)
            (with_external p c node e input) (external_under_name-Inv e input h))
        (λ other. h))

  -- Users leave the fields alone that the engine's assumptions are about.
  with_group-Inv :
      (u : User) (ug : UserGroup) (input : Input) → Inv input → Inv (with_group p c node u ug input)
  with_group-Inv u ug input h = if-Inv _ _ _ (λ t. h) (λ f. h)

  pub add_users-Inv :
      (us : List User) (input result : Input)
      → Inv input
      → add_users p c node us input ≡ some result
      → Inv result
  unfolding add_users
  add_users-Inv [] input result h e = let same : input ≡ result = cc in subst Inv same h
  add_users-Inv (u ∷ us) input result h e =
      let listed = with_user p c node u input in
      let v : Inv listed =
        set_user_credential-Inv u.name (get_user_credential c.get_secret u) _ h in
      elim (Bool-cases (u.spec.user_group_ref == "")) [
        | inl free ↦ add_users-Inv us listed result v (rw free at e)
        | inr grouped ↦
            by_group (λ i. add_users-Inv us i result) listed v
              (c.get_group node.namespace u.spec.user_group_ref) (rw grouped at e)
      ]
    where
      by_group :
          ((i : Input) → Inv i → add_users p c node us i ≡ some result → Inv result)
          → (listed : Input) → Inv listed
          → (got : Got UserGroup)
          → elim got [
            | not_found ↦ add_users p c node us listed
            | found ug ↦ add_users p c node us (with_group p c node u ug listed)
            | failed ↦ none
          ]
            ≡ some result
          → Inv result
      by_group next listed v not_found e = next listed v e
      by_group next listed v (found ug) e = next _ (with_group-Inv u ug listed v) e
      by_group next listed v failed e = absurd (cc)
