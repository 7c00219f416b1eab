-- ===== src/Engine/Usable.antt =====
-- Which external outbounds a node uses (resolveExternalOutbounds).
use singbox_operator.Base.{
  String, true, false, not, ◌||◌, List, [], ◌∷◌, ◌++◌, map, ◌≡◌, refl, arith, contains, any, lookup,
  ◌==◌, All, All-append, Distinct, eq_iff, Bool-cases, inl, inr,
}
use singbox_operator.Api.Objects.{ExternalOutbound, CustomRoute}
use singbox_operator.Engine.Types.{Input}
use singbox_operator.Engine.Policies.{has_required_external_creds, creds_of}
use singbox_operator.Engine.Externals.{
  is_some, external_name_collides_with_node, Resolved, add, add_all, routed_externals,
  resolve_external_outbounds,
}

abbrev pub names : List ExternalOutbound → List String
names = map (λ e. e.name)

-- An outbound whose name is neither that of the node itself nor of a node that it knows, and whose
-- credentials are complete.
abbrev pub IsUsable : Input → ExternalOutbound → Type 0
IsUsable input e =
    (e.name == input.node.name ≡ false)
    × (is_some (lookup e.name input.outbound_nodes_by_name) ≡ false)
    × (any (λ n. n.name == e.name) input.outbound_nodes ≡ false)
    × (has_required_external_creds e (creds_of input e.name) ≡ true)

names-append :
    (xs ys : List ExternalOutbound) (k : String)
    → contains (names (xs ++ ys)) k ≡ (contains (names xs) k || contains (names ys) k)
names-append [] ys k = refl
names-append (x ∷ xs) ys k = ground (arith, names-append xs ys k)

module _ (input : Input) where
  -- What holds of the local state throughout the loops.
  record Inv (r : Resolved) : Type 0 where
    distinct : Distinct (names r.result)
    usable : All (IsUsable input) r.result
    seen_all : (k : String) → contains r.seen k ≡ false → contains (names r.result) k ≡ false

  Distinct-names :
      (xs : List ExternalOutbound) (e : ExternalOutbound)
      → Distinct (names xs)
      → contains (names xs) e.name ≡ false
      → Distinct (names (xs ++ e ∷ []))
  Distinct-names [] e d h = (refl, tt)
  Distinct-names (x ∷ xs) e d h = ground (
    arith,
    names-append xs (e ∷ []) x.name,
    eq_iff x.name e.name,
    eq_iff e.name x.name,
    Distinct-names xs e d.1,
  )

  add-Inv : (r : Resolved) (e : ExternalOutbound) → Inv r → Inv (add input r e)
  unfolding add external_name_collides_with_node
  add-Inv r e v = elim (Bool-cases (contains r.seen e.name)) [
    | inl old ↦ rw old v
    | inr new ↦
        rw new
          (elim (Bool-cases (
            external_name_collides_with_node input e.name
            || not (has_required_external_creds e (creds_of input e.name)))) [
              | inl bad ↦ rw bad (record {
                distinct = v.distinct;
                usable = v.usable;
                seen_all = λ k h. v.seen_all k (ground (arith, h));
              })
              | inr good ↦
                  let fresh = v.seen_all e.name new in
                  rw good (record {
                    distinct = Distinct-names r.result e v.distinct fresh;
                    usable = All-append _ r.result (e ∷ []) v.usable (
                      (
                        ground (arith, good),
                        ground (arith, good),
                        ground (arith, good),
                        ground (arith, good),
                      ),
                      tt,
                    );
                    seen_all = λ k h. ground (
                      arith,
                      h,
                      names-append r.result (e ∷ []) k,
                      v.seen_all k (ground (arith, h)),
                    );
                  })
            ])
  ]

  add_all-Inv : (es : List ExternalOutbound) (r : Resolved) → Inv r → Inv (add_all input es r)
  unfolding add_all
  add_all-Inv [] r v = v
  add_all-Inv (e ∷ es) r v = add_all-Inv es (add input r e) (add-Inv r e v)

-- The external outbounds that a node uses have different names, none of which is the name of the node
-- itself or of a node that it knows, and complete credentials.
pub resolve_external_outbounds-IsUsable :
    (input : Input) (routes : List CustomRoute)
    → Distinct (names (resolve_external_outbounds input routes))
      × All (IsUsable input) (resolve_external_outbounds input routes)
unfolding resolve_external_outbounds
resolve_external_outbounds-IsUsable input routes =
    let start : Inv input (record { seen = []; result = [] }) = record {
      distinct = tt;
      usable = tt;
      seen_all = λ k h. refl;
    } in
    let v =
      add_all-Inv input (routed_externals input routes) _
        (add_all-Inv input input.external_outbounds (record { seen = []; result = [] }) start) in
    (v.distinct, v.usable)
