-- ===== src/Controllers/Known.antt =====
-- The nodes that names stand for, in lists of nodes with different names.
use mathlib.Core.Path.{subst}
use singbox_operator.Base.{
  String, ◌&&◌, some, List, [], ◌∷◌, map, find, All, ◌==◌, ◌≡◌, Bool-cases, and-eq-true, inl, inr,
  eq_iff,
}
use singbox_operator.Api.Objects.{SingBoxNode, has_role, role_outbound}
use singbox_operator.Controllers.Egress.{find_outbound_node}

-- A name stands for the first node of that name.
abbrev pub Known : List SingBoxNode → SingBoxNode → Type 0
Known nodes n = find (λ m. m.name == n.name) nodes ≡ some n

abbrev pub node_names : List SingBoxNode → List String
node_names = map (λ n. n.name)

-- The node that findOutboundNode finds is the one that its name stands for, and it is that name's.
pub find_outbound_node-Known :
    (nodes all_nodes : List SingBoxNode) (name : String) (n : SingBoxNode)
    → All (Known all_nodes) nodes
    → find_outbound_node nodes name ≡ some n
    → (n.name ≡ name) × Known all_nodes n
unfolding find_outbound_node
find_outbound_node-Known [] all_nodes name n h e = cc
find_outbound_node-Known (x ∷ xs) all_nodes name n (known, h) e =
    elim (Bool-cases (x.name == name && has_role x role_outbound)) [
      | inl t ↦
          let hit = rw t at e in
          let same : x ≡ n = cc in
          let (at_name, out) = and-eq-true _ _ t in
          subst (λ m. (m.name ≡ name) × Known all_nodes m) same
            ((eq_iff x.name name).0 at_name, known)
      | inr f ↦ find_outbound_node-Known xs all_nodes name n h (rw f at e)
    ]
