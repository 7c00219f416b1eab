-- ===== src/Engine/Order.antt =====
-- The order of policies, and the target that a policy's selector resolves to.
use mathlib.Core.List.{Perm}
use singbox_operator.Base.{
  ◌&&◌, ◌++◌, ap, map, keep, contains, StringMap, String, true, false, List, [], ◌∷◌, ◌≡◌, ◌≢◌,
  refl, sym, ◌∙◌, ◌↔◌, inl, inr, arith, sort, place, sort-IsSorted, sort-perm, IsSorted, text_lt,
  text_lt_asym, Bool-cases, ltb_ℤ, eq_ℤ,
}
use singbox_operator.Api.Platform.{Platform}
use singbox_operator.Api.Objects.{
  SingBoxNode, ExternalOutbound, EgressPolicy, EgressPolicySelector, has_role,
}
use singbox_operator.Api.Selector.{selector_matches}
use singbox_operator.Engine.Types.{Input}
use singbox_operator.Engine.Policies.{
  policy_lt, present, policies_for_node, only, matching_nodes, matching_externals,
  egress_candidates, resolve_policy_egress_name,
}

policy_lt_asym : (a b : EgressPolicy) → policy_lt a b ≡ true → policy_lt b a ≡ false
policy_lt_asym a b h = ground (arith, text_lt_asym a.name b.name)

-- The priority of the first is not above that of the second, and neither is the name if they have
-- the same priority.
abbrev pub Follow : EgressPolicy → EgressPolicy → Type 0
Follow a b =
    (ltb_ℤ b.spec.priority a.spec.priority ≡ false)
    × (eq_ℤ b.spec.priority a.spec.priority ≡ true → text_lt b.name a.name ≡ false)

abbrev pub InOrder : List EgressPolicy → Type 0
InOrder [] = Unit
InOrder (x ∷ []) = Unit
InOrder (x ∷ y ∷ ys) = Follow x y × InOrder (y ∷ ys)

policy_lt-Follow : (a b : EgressPolicy) → policy_lt b a ≡ false → Follow a b
policy_lt-Follow a b h = (ground arith, λ e. ground arith)

IsSorted-InOrder : (ps : List EgressPolicy) → IsSorted policy_lt ps → InOrder ps
IsSorted-InOrder [] h = tt
IsSorted-InOrder (x ∷ []) h = tt
IsSorted-InOrder (x ∷ y ∷ ys) (h, hs) = (policy_lt-Follow x y h, IsSorted-InOrder (y ∷ ys) hs)

-- The policies of a node are the given ones that are not nil, each as often as it is given, in the
-- order of their priorities and, among equal priorities, of their names.
pub policies_for_node-InOrder :
    (input : Input)
    → InOrder (policies_for_node input)
      × Perm (policies_for_node input) (present input.egress_policies)
unfolding policies_for_node
policies_for_node-InOrder input = (
  IsSorted-InOrder (policies_for_node input)
      (sort-IsSorted policy_lt policy_lt_asym (present input.egress_policies)),
  sort-perm policy_lt (present input.egress_policies),
)

place-cons :
    (x : String) (ys : List String)
    → (z : String) × (zs : List String) × (place text_lt x ys ≡ z ∷ zs)
place-cons x [] = (x, [], refl)
place-cons x (y ∷ ys) = elim (Bool-cases (text_lt y x)) [
  | inl t ↦ (y, place text_lt x ys, rw t)
  | inr f ↦ (x, y ∷ ys, rw f)
]

only-place : (x y : String) (zs : List String) → only (place text_lt x (place text_lt y zs)) ≡ ""
only-place x y zs =
    let (w, ws, e) = place-cons y zs in
    let (v, vs, f) = place-cons x ws in
    rw e (elim (Bool-cases (text_lt w x)) [ inl t ↦ rw (t, f) | inr n ↦ rw n ])

pub only-sort :
    (xs : List String) (k : String) → k ≢ "" → (only (sort text_lt xs) ≡ k) ↔ (xs ≡ k ∷ [])
only-sort [] k h = (λ e. absurd (h (sym e)), λ e. cc)
only-sort (x ∷ []) k h = ground arith
only-sort (x ∷ y ∷ xs) k h =
    let e = only-place x y (sort text_lt xs) in (λ f. absurd (h (sym f ∙ e)), λ f. cc)

-- The names of the nodes with the outbound role that a selector matches.
abbrev pub node_names_for : Platform → EgressPolicySelector → StringMap SingBoxNode → List String
node_names_for p s ns =
    map (λ kn. kn.1.name)
      (keep
        (λ kn. contains kn.1.spec.roles "outbound" && selector_matches p s kn.1.name kn.1.labels)
        ns)

-- The names of the external outbounds that a selector matches.
abbrev pub external_names_for :
    Platform → EgressPolicySelector → StringMap ExternalOutbound → List String
external_names_for p s es =
    map (λ ke. ke.1.name) (keep (λ ke. selector_matches p s ke.1.name ke.1.labels) es)

matching_nodes-node_names_for :
    (p : Platform) (input : Input) (s : EgressPolicySelector) (ns : StringMap SingBoxNode)
    → matching_nodes p input s ns ≡ node_names_for p s ns
unfolding has_role
matching_nodes-node_names_for p input s [] = refl
matching_nodes-node_names_for p input s ((k, n) ∷ ns) =
    elim (Bool-cases (contains n.spec.roles "outbound" && selector_matches p s n.name n.labels)) [
      | inl t ↦ rw t (ap (λ xs. n.name ∷ xs) (matching_nodes-node_names_for p input s ns))
      | inr f ↦ rw f (matching_nodes-node_names_for p input s ns)
    ]

matching_externals-external_names_for :
    (p : Platform) (input : Input) (s : EgressPolicySelector) (es : StringMap ExternalOutbound)
    → matching_externals p input s es ≡ external_names_for p s es
matching_externals-external_names_for p input s [] = refl
matching_externals-external_names_for p input s ((k, e) ∷ es) =
    elim (Bool-cases (selector_matches p s e.name e.labels)) [
      | inl t ↦ rw t (ap (λ xs. e.name ∷ xs) (matching_externals-external_names_for p input s es))
      | inr f ↦ rw f (matching_externals-external_names_for p input s es)
    ]

-- The engine resolves a policy to a target exactly when that is the only one that the policy's selector matches among
-- the known nodes that have the outbound role and the known external outbounds, counted together.
pub resolve_policy_egress_name_iff :
    (p : Platform) (input : Input) (policy : EgressPolicy) (k : String)
    → k ≢ ""
    → (resolve_policy_egress_name p input policy ≡ k) ↔ (
        node_names_for p policy.spec.egress_selector input.outbound_nodes_by_name
          ++ external_names_for p policy.spec.egress_selector input.external_outbounds_by_name
        ≡ k ∷ [])
unfolding resolve_policy_egress_name egress_candidates
resolve_policy_egress_name_iff p input policy k h =
    let s = policy.spec.egress_selector in
    let same : egress_candidates p input policy
        ≡ node_names_for p s input.outbound_nodes_by_name
          ++ external_names_for p s input.external_outbounds_by_name =
      ap (λ xs. xs ++ matching_externals p input s input.external_outbounds_by_name)
        (matching_nodes-node_names_for p input s input.outbound_nodes_by_name)
      ∙ ap (λ xs. node_names_for p s input.outbound_nodes_by_name ++ xs)
          (matching_externals-external_names_for p input s input.external_outbounds_by_name) in
    let one = only-sort (egress_candidates p input policy) k h in
    (λ e. sym same ∙ one.0 e, λ e. one.1 (same ∙ e))
