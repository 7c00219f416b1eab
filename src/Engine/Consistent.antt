-- ===== src/Engine/Consistent.antt =====
-- What the controller guarantees of the engine's input, as far as the engine relies on it.
use singbox_operator.Base.{
  String, Bool, true, ◌||◌, Option, none, some, ◌≡◌, lookup, ◌==◌, is_empty, All,
}
use singbox_operator.Api.Objects.{
  SingBoxNode, ExternalOutbound, EgressPolicy, action_route, action_reject, has_role, role_inbound,
}
use singbox_operator.Engine.Types.{Input}
use singbox_operator.Engine.Policies.{present}
use singbox_operator.Engine.Outbounds.{connects}

-- The peer that a name stands for, if any, may be connected with this node.
abbrev pub TargetConnects : Input → Option SingBoxNode → Type 0
TargetConnects input none = Unit
TargetConnects input (some n) = connects input n ≡ true

abbrev pub has_known_action : EgressPolicy → Bool
has_known_action q = q.spec.action == action_route || q.spec.action == action_reject

pub record IsConsistent (input : Input) : Type 0 where
  -- Peers are filtered by both lists of admitted names, and indexed by their names.
  pub peers_connect : All (λ n. connects input n ≡ true) input.outbound_nodes
  pub peers_indexed :
      All (λ n. lookup n.name input.outbound_nodes_by_name ≡ some n) input.outbound_nodes
  pub routes_connect :
      All
        (λ r. TargetConnects input (lookup r.outbound_node input.outbound_nodes_by_name))
        input.routes
  pub nodes_named :
      (k : String) (n : SingBoxNode) → lookup k input.outbound_nodes_by_name ≡ some n → n.name ≡ k
  pub externals_named :
      (k : String) (e : ExternalOutbound)
      → lookup k input.external_outbounds_by_name ≡ some e
      → e.name ≡ k
  -- Policies are given only to inbound nodes, and their actions passed the webhook.
  pub policies_inbound :
      is_empty (present input.egress_policies) || has_role input.node role_inbound ≡ true
  pub known_actions : All (λ q. has_known_action q ≡ true) (present input.egress_policies)
