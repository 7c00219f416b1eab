-- ===== src/Controllers/Triggered.antt =====
-- The changes of the resources from which the controller collects a node's input, and the mappers.
use singbox_operator.Base.{true, some, List, [], any, find, ◌==◌, ◌≡◌, ◌⊎◌}
use singbox_operator.Api.Platform.{Platform}
use singbox_operator.Api.Objects.{SingBoxNode, ExternalOutbound, EgressPolicy, User}
use singbox_operator.Controllers.Client.{Client}
use singbox_operator.Controllers.Collect.{is_peer, is_usable, is_ingress}
use singbox_operator.Controllers.Users.{selects_route}
use singbox_operator.Controllers.Mappers.{
  Change, sing_box_node, proxy_user, user_group, egress_policy, external_outbound, core_secret,
  refers_to,
}

module _ (p : Platform) (c : Client) (node : SingBoxNode) (nodes : List SingBoxNode)
    (users : List User) (externals : List ExternalOutbound) (policies : List EgressPolicy) where
  -- The node may discover the external outbound, or a route policy connects them.
  abbrev pub Uses : ExternalOutbound → Type 0
  Uses e =
      (e.namespace ≡ node.namespace)
      × (find (λ x. x.name == e.name) externals ≡ some e)
      × ((is_usable p c node [] e ≡ true) ⊎ (any (selects_route p node e) policies ≡ true))

  -- The change is one of a resource of the namespace that collectInput takes into the node's input: a
  -- peer, a user, a group to which a user refers, a policy for the node, an external outbound that
  -- it uses, or the Secret of one.
  abbrev pub Affects : Change → Type 0
  Affects (sing_box_node n) = (n.namespace ≡ node.namespace) × (is_peer p c node n ≡ true)
  Affects (proxy_user u) = u.namespace ≡ node.namespace
  Affects (user_group namespace group) =
      (namespace ≡ node.namespace) × (any (λ u. u.spec.user_group_ref == group) users ≡ true)
  Affects (egress_policy q) = (q.namespace ≡ node.namespace) × (is_ingress p c node q ≡ true)
  Affects (external_outbound e) = Uses e
  Affects (core_secret namespace name) =
      (namespace ≡ node.namespace) × ((e : ExternalOutbound) × Uses e × (refers_to e name ≡ true))
