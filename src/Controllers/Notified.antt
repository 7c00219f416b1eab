-- ===== src/Controllers/Notified.antt =====
-- The nodes that a change of an external outbound reaches.
use mathlib.Core.List.{Memᴰ}
use mathlib.Core.Path.{subst}
use singbox_operator.Base.{
  String, Bool, true, ◌&&◌, ◌||◌, Option, some, List, [], ◌∷◌, any, contains, add_name,
  contains-add_name, find, ◌==◌, ◌≡◌, ◌⊎◌, ◌∙◌, arith, Bool-cases, inl, inr, eq_iff, eq_refl,
}
use singbox_operator.Api.Platform.{Platform}
use singbox_operator.Api.Objects.{
  SingBoxNode, ExternalOutbound, EgressPolicy, has_role, role_inbound,
}
use singbox_operator.Controllers.Client.{Client}
use singbox_operator.Controllers.Collect.{is_usable}
use singbox_operator.Controllers.Users.{
  selects_route, is_affected, add_affected, inbounds_affected_by_external_outbound,
}

contains-add_affected :
    (p : Platform) (region : String) (eob : Option ExternalOutbound) (policies : List EgressPolicy)
    (ns : List SingBoxNode) (names : List String) (k : String)
    → contains (add_affected p region eob policies ns names) k
      ≡ (contains names k || any (λ n. is_affected p region eob policies n && n.name == k) ns)
unfolding add_affected
contains-add_affected p region eob policies [] names k = ground arith
contains-add_affected p region eob policies (n ∷ ns) names k =
    elim (Bool-cases (is_affected p region eob policies n)) [
      | inl t ↦ rw t (
          ground (
            arith,
            contains-add_affected p region eob policies ns (add_name names n.name) k,
            contains-add_name names n.name k,
          ))
      | inr f ↦ rw f (contains-add_affected p region eob policies ns names k)
    ]

pub any-Memᴰ :
    (q : SingBoxNode → Bool) (ns : List SingBoxNode) (n : SingBoxNode)
    → Memᴰ n ns
    → q n ≡ true
    → any q ns ≡ true
any-Memᴰ q [] n m h = elim m [ ]
any-Memᴰ q (x ∷ xs) n (Memᴰ.head same) h =
    let first : q x ≡ true = subst (λ y. q y ≡ true) same h in ground arith
any-Memᴰ q (x ∷ xs) n (Memᴰ.tail m) h = ground (arith, any-Memᴰ q xs n m h)

-- An inbound node of the namespace that may discover an external outbound, or that a route policy
-- connects with it, is reconciled when the outbound changes.
pub inbounds_affected_by_external_outbound-is_usable :
    (p : Platform) (c : Client) (node : SingBoxNode) (eob : ExternalOutbound) (taken : List String)
    (nodes : List SingBoxNode) (externals : List ExternalOutbound) (policies : List EgressPolicy)
    → c.list_nodes node.namespace ≡ some nodes
    → c.list_externals node.namespace ≡ some externals
    → c.list_policies node.namespace ≡ some policies
    → Memᴰ node nodes
    → find (λ e. e.name == eob.name) externals ≡ some eob
    → has_role node role_inbound ≡ true
    → (is_usable p c node taken eob ≡ true) ⊎ (any (selects_route p node eob) policies ≡ true)
    → contains
        (inbounds_affected_by_external_outbound p c node.namespace eob.name eob.spec.region)
        node.name
      ≡ true
unfolding inbounds_affected_by_external_outbound
inbounds_affected_by_external_outbound-is_usable p c node eob taken nodes externals policies ns es
      ps m at_name inbound cause =
    let test : SingBoxNode → Bool =
      λ n. is_affected p eob.spec.region (some eob) policies n && n.name == node.name in
    let hit : test node ≡ true = elim cause [
      | inl usable ↦ ground (
        arith,
        eq_refl node.name,
        eq_iff eob.spec.region node.spec.region,
        eq_iff node.spec.region eob.spec.region,
      )
      | inr routed ↦ ground (arith, eq_refl node.name)
    ] in
    rw (inbounds_affected_by_external_outbound, ns, es, ps, at_name)
      (contains-add_affected p eob.spec.region (some eob) policies nodes [] node.name
        ∙ any-Memᴰ test nodes node m hit)
