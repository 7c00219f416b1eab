-- ===== src/Controllers/Reconciled.antt =====
-- One reconciliation, from the cluster to the configuration.
use mathlib.Core.Path.{subst}
use singbox_operator.Base.{String, Bool, true, ◌&&◌, some, List, ◌≡◌, sym, Distinct, All}
use singbox_operator.Api.Platform.{Platform}
use singbox_operator.Api.Objects.{SingBoxNode, has_role, role_inbound, role_outbound}
use singbox_operator.Engine.Types.{Input, admits}
use singbox_operator.Engine.Config.{compute_config}
use singbox_operator.Engine.Tags.{tags}
use singbox_operator.Engine.Resolution.{resolves, config_rules-resolve}
use singbox_operator.Controllers.Client.{Client}
use singbox_operator.Controllers.Collect.{collect_input}
use singbox_operator.Controllers.Known.{node_names}
use singbox_operator.Controllers.Collected.{collect_input-IsConsistent, collect_input-node}

-- Where the nodes of a namespace have different names, and a node of both roles admits itself as
-- an outbound, the configuration computed from what the controller collects names no outbound in
-- a rule that it does not have.
pub collect_input-compute_config :
    (p : Platform) (c : Client) (node : SingBoxNode) (usage : Bool) (listen : String)
    (input : Input)
    → ((all_nodes : List SingBoxNode)
        → c.list_nodes node.namespace ≡ some all_nodes
        → Distinct (node_names all_nodes))
    → (has_role node role_inbound && has_role node role_outbound ≡ true
        → admits node.spec.allowed_outbounds node.name ≡ true)
    → collect_input p c node usage listen ≡ some input
    → All
        (λ r. resolves (tags (compute_config p input).outbounds) r ≡ true)
        (compute_config p input).rules
collect_input-compute_config p c node usage listen input names self e =
    let own = collect_input-node p c node usage listen input names e in
    config_rules-resolve p input (collect_input-IsConsistent p c node usage listen input names e) (
      subst
        (λ n.
          has_role n role_inbound && has_role n role_outbound ≡ true
          → admits n.spec.allowed_outbounds n.name ≡ true)
        (sym own) self)
