-- ===== src/ApiServer/Relayed.antt =====
-- A target that a client is offered through an inbound node, and the rules of that node.
use mathlib.Core.Path.{subst}
use mathlib.Core.Option.{some-injective}
use mathlib.Core.List.{Memᴰ}
use singbox_operator.Base.{
  contains, lacks, String, Bool, true, false, ◌&&◌, some, List, [], ◌∷◌, map, keep, StringMap,
  insert, lookup, lookup_or, ◌≡◌, sym, ◌∙◌, ap, arith, ◌==◌, any, find, find-keep, any-find, All,
  All-any, All-insert, Distinct, Distinct-find, Bool-cases, inl, inr, eq_iff, keep-true, All-keep,
  All-both, All-mono,
}
use singbox_operator.Api.Platform.{Platform}
use singbox_operator.Api.Objects.{
  SingBoxNode, ExternalOutbound, EgressPolicy, User, has_role, role_inbound, role_outbound,
}
use singbox_operator.Engine.Types.{Input, NameSet, is_node_allowed}
use singbox_operator.Engine.Policies.{user_allowed}
use singbox_operator.Engine.Config.{compute_config}
use singbox_operator.Engine.Types.{virtual_user_name}
use singbox_operator.Engine.Policies.{policies_for_node}
use singbox_operator.Engine.Restrictions.{IsFor}
use singbox_operator.Engine.Decided.{PlainNames, compute_config-IsFor}
use singbox_operator.Usage.Counters.{is_hash}
use singbox_operator.Engine.Relayed.{relays, may_relay, IsTarget, any-compute_config}
use singbox_operator.Controllers.Client.{Client}
use singbox_operator.Controllers.Collect.{is_peer, collect_input}
use singbox_operator.Controllers.Kept.{relay_named}
use singbox_operator.ApiServer.Targets.{
  ClientConfigInput, OutboundRef, is_seen, is_absent, resolve_outbound_nodes,
}
use singbox_operator.ApiServer.Offered.{Offered, IsOutbound, resolve_outbound_nodes-Offered}
use singbox_operator.ApiServer.Handler.{Matched, by_name, group_sets, input_of, client_config_input}
use singbox_operator.ApiServer.Authorised.{bind-some}
use singbox_operator.ApiServer.Granted.{sets, is_user}
use singbox_operator.ApiServer.Collected.{IsGathered, collect_input-IsGathered}

-- A user of that name may relay, where the sets of the name allow it.
may_relay-sets :
    (i : Input) (k name : String)
    → is_user name i.users ≡ true
    → is_node_allowed k (sets name i).0 (sets name i).1 ≡ true
    → may_relay i k name ≡ true
may_relay-sets i k name known allowed = among i.users known
  where
    among :
        (us : List User)
        → is_user name us ≡ true
        → any (λ u. user_allowed i k u && u.name == name) us ≡ true
    among [] h = h
    among (u ∷ us) h = elim (Bool-cases (u.name == name)) [
      | inl same ↦
          let u_name : u.name ≡ name = (eq_iff u.name name).0 same in
          let own : user_allowed i k u ≡ true =
            subst
              (λ x.
                is_node_allowed k (lookup_or [] x i.user_node_allowlist)
                  (lookup_or [] x i.user_node_restrictions)
                ≡ true)
              (sym u_name) allowed in
          rw (own, same)
      | inr other ↦ ground (arith, among us)
    ]

All-by_name {κ} :
    (P : SingBoxNode → Type κ) (ns : List SingBoxNode) (m : StringMap SingBoxNode)
    → All P ns
    → All (λ kn. P kn.1) m
    → All (λ kn. P kn.1) (by_name (λ n. n.name) ns m)
All-by_name P [] m h k = k
All-by_name P (n ∷ ns) m (p, h) k =
    All-by_name P ns (insert n.name n m) h (All-insert (λ kn. P kn.1) n.name n m p k)

Memᴰ-All {κ} :
    (P : SingBoxNode → Type κ) (m : StringMap SingBoxNode) (n : SingBoxNode)
    → All (λ kn. P kn.1) m
    → Memᴰ n (map (λ kn. kn.1) m)
    → P n
Memᴰ-All P [] n h x = elim x [ ]
Memᴰ-All P ((k, v) ∷ m) n (p, h) (Memᴰ.head same) = subst P (sym same) p
Memᴰ-All P ((k, v) ∷ m) n (p, h) (Memᴰ.tail x) = Memᴰ-All P m n h x

module _ (p : Platform) (c : Client) (node : SingBoxNode) where
  -- The node of the list with that name.
  abbrev IsListed : List SingBoxNode → SingBoxNode → Type 0
  IsListed nodes n = find (λ y. y.name == n.name) nodes ≡ some n

  same_node :
      (nodes : List SingBoxNode) (n : SingBoxNode)
      → find (λ y. y.name == node.name) nodes ≡ some node
      → IsListed nodes n
      → n.name == node.name ≡ true
      → n ≡ node
  same_node nodes n first listed same = some-injective n node (
      sym listed
      ∙ (ap (λ k. find (λ y. y.name == k) nodes) ((eq_iff n.name node.name).0 same) ∙ first))

  -- The outbounds that the handler knows are nodes of the list with the outbound role.
  outbounds-IsListed :
      (input : ClientConfigInput) (nodes : List SingBoxNode)
      → Distinct (map (λ n. n.name) nodes)
      → find (λ y. y.name == node.name) nodes ≡ some node
      → All
          (λ kn. IsOutbound p c input node kn.1 × IsListed nodes kn.1)
          (by_name (λ n. n.name) (keep (λ n. has_role n role_outbound) nodes) [])
  outbounds-IsListed input nodes d first =
      let all_listed =
        All-keep (IsListed nodes) (λ n. has_role n role_outbound) nodes
          (Distinct-find (λ n. n.name) nodes d) in
      All-by_name (λ n. IsOutbound p c input node n × IsListed nodes n)
        (keep (λ n. has_role n role_outbound) nodes) []
        (All-mono
          (λ n (role, listed). (
            (
              role,
              λ same.
                  subst (λ x. has_role x role_outbound ≡ true) (same_node nodes n first listed same)
                    role,
            ),
            listed,
          ))
          (keep (λ n. has_role n role_outbound) nodes)
          (All-both _ _ _ (keep-true (λ n. has_role n role_outbound) nodes) all_listed))
        tt

  -- What is offered as the node itself or as a peer is a target of the gathered input.
  Offered-IsTarget :
      (input : ClientConfigInput) (nodes : List SingBoxNode) (users : List User) (i : Input)
      (r : OutboundRef) (k : String)
      → has_role node role_inbound ≡ true
      → All (λ kn. IsOutbound p c input node kn.1 × IsListed nodes kn.1) input.outbounds_by_name
      → IsGathered p c node nodes users i
      → is_absent (lookup k input.outbounds_by_name) ≡ false
      → r.name ≡ k
      → Offered p c input node r
      → IsTarget i k
  Offered-IsTarget input nodes users i r k inbound known (own, peers, of_user) present named
        (allowed, inl (self, role, admitted)) =
      inr (
        subst (λ x. (has_role x role_inbound && has_role x role_outbound) ≡ true) (sym own)
            (rw (inbound, role)),
        ap (λ x. x.name) own ∙ (sym self ∙ named),
      )
  Offered-IsTarget input nodes users i r k inbound known (own, peers, of_user) present named
        (allowed, inr (inl (n, same, member, peer, port, up))) =
      let (outbound, listed) =
        Memᴰ-All (λ x. IsOutbound p c input node x × IsListed nodes x) input.outbounds_by_name n
          known member in
      inl (
        peers k
        ∙ any-find (λ y. y.name == n.name) (λ x. is_peer p c node x && relay_named p c node k x)
            nodes n listed (ground (arith, eq_iff n.name k, sym same ∙ named)))
  Offered-IsTarget input nodes users i r k inbound known g present named
        (allowed, inr (inr (e, same, usable, missing))) =
      let absent : is_absent (lookup k input.outbounds_by_name) ≡ true =
        subst (λ x. is_absent (lookup x input.outbounds_by_name) ≡ true) (sym same ∙ named)
          missing in
      absurd (cc)

  relays-Offered :
      (nodes : List SingBoxNode) (users : List User) (externals : List ExternalOutbound)
      (policies : List EgressPolicy) (s : NameSet × NameSet) (m : Matched) (i : Input) (k : String)
      → Distinct (map (λ n. n.name) nodes)
      → find (λ n. n.name == node.name) nodes ≡ some node
      → has_role node role_inbound ≡ true
      → node.spec.region == "" ≡ false
      → find (λ u. u.name == m.user.name) users ≡ some m.user
      → group_sets c node.namespace m.user ≡ some s
      → IsGathered p c node nodes users i
      → PlainNames i.users
      → is_absent (lookup k (input_of p m nodes externals policies s).outbounds_by_name) ≡ false
      → is_seen (resolve_outbound_nodes (input_of p m nodes externals policies s) node.name) k
        ≡ true
      → (any (relays m.user.name k) (compute_config p i).rules ≡ true)
        × All
            (λ r.
              contains r.auth_user (virtual_user_name m.user.name k) ≡ true
              → IsFor p i (policies_for_node i) k r)
            (compute_config p i).rules
  relays-Offered nodes users externals policies (a, d) m i k apart first inbound region user granted
        (own, peers, of_user) plain_users present seen =
      let input = input_of p m nodes externals policies (a, d) in
      let known = outbounds-IsListed input nodes apart first in
      let (distinct, offered) =
        resolve_outbound_nodes-Offered p c input node
          (find-keep (λ n. n.name) (λ n. has_role n role_inbound) node.name nodes node first
            inbound)
          region (All-mono (λ kn x. x.0) input.outbounds_by_name known) in
      let (r, is_offered, named) =
        All-any (λ x. x.name == k) (resolve_outbound_nodes input node.name) offered seen in
      let same : r.name ≡ k = (eq_iff r.name k).0 named in
      let (sets_of, is_known) = of_user m.user user in
      let equal : (a, d) ≡ sets m.user.name i =
        some-injective (a, d) (sets m.user.name i) (sym granted ∙ sets_of) in
      let allowed : is_node_allowed k (sets m.user.name i).0 (sets m.user.name i).1 ≡ true =
        subst (λ x. is_node_allowed k x.0 x.1 ≡ true) equal
          (subst (λ x. is_node_allowed x a d ≡ true) same is_offered.0) in
      let (u, plain, is_name) = All-any (λ x. x.name == m.user.name) i.users plain_users is_known in
      let plain_name : lacks is_hash m.user.name ≡ true =
        subst (λ x. lacks is_hash x ≡ true) ((eq_iff u.name m.user.name).0 is_name) plain in
      (
        any-compute_config p i k m.user.name
            (subst (λ x. has_role x role_inbound ≡ true) (sym own) inbound)
            (may_relay-sets i k m.user.name is_known allowed)
            (Offered-IsTarget input nodes users i r k inbound known (own, peers, of_user) present
              same is_offered),
        compute_config-IsFor p i m.user.name k plain_name plain_users,
      )

  -- Where the handler offers a user a target through an inbound node with a region, a node with the
  -- outbound role has the target's name, and the controller gathers an input for the inbound node
  -- from the same cluster, the configuration it computes has a rule that names the virtual user of the user and
  -- the target and goes to the target's outbound; and every rule that names this virtual user either goes
  -- there, or rejects for a policy of that target with the fallback reject. Rules that name no user may come before. The
  -- nodes of the namespace have different names, and so have its users; the inbound node and the
  -- user are among them; and no gathered user has a `#` in its name.
  pub resolve_outbound_nodes-compute_config :
      (nodes : List SingBoxNode) (users : List User) (m : Matched) (usage : Bool)
      (listen k : String) (input : ClientConfigInput) (i : Input)
      → c.list_nodes node.namespace ≡ some nodes
      → c.list_users node.namespace ≡ some users
      → Distinct (map (λ n. n.name) nodes)
      → Distinct (map (λ u. u.name) users)
      → find (λ n. n.name == node.name) nodes ≡ some node
      → find (λ u. u.name == m.user.name) users ≡ some m.user
      → has_role node role_inbound ≡ true
      → node.spec.region == "" ≡ false
      → client_config_input p c node.namespace m ≡ some input
      → collect_input p c node usage listen ≡ some i
      → PlainNames i.users
      → is_absent (lookup k input.outbounds_by_name) ≡ false
      → is_seen (resolve_outbound_nodes input node.name) k ≡ true
      → (any (relays m.user.name k) (compute_config p i).rules ≡ true)
        × All
            (λ r.
              contains r.auth_user (virtual_user_name m.user.name k) ≡ true
              → IsFor p i (policies_for_node i) k r)
            (compute_config p i).rules
  unfolding client_config_input
  resolve_outbound_nodes-compute_config nodes users m usage listen k input i listed all_users apart
        apart_users first user inbound region served gathered plain_users present seen =
      let (ns, are, e1) = bind-some (c.list_nodes node.namespace) _ input served in
      let (externals, x, e2) = bind-some (c.list_externals node.namespace) _ input e1 in
      let (policies, q, e3) = bind-some (c.list_policies node.namespace) _ input e2 in
      let (s, granted, e4) = bind-some (group_sets c node.namespace m.user) _ input e3 in
      let same_nodes : ns ≡ nodes = some-injective ns nodes (sym are ∙ listed) in
      let same_input : input ≡ input_of p m nodes externals policies s =
        sym (some-injective _ input e4)
        ∙ ap (λ l. input_of p m l externals policies s) same_nodes in
      relays-Offered nodes users externals policies s m i k apart first inbound region user granted
        (collect_input-IsGathered p c node usage listen nodes users i listed all_users inbound
          apart_users gathered)
        plain_users
        (subst (λ y. is_absent (lookup k y.outbounds_by_name) ≡ false) same_input present)
        (subst (λ y. is_seen (resolve_outbound_nodes y node.name) k ≡ true) same_input seen)
