-- ===== src/ApiServer/Offers.antt =====
-- The groups that have a selector, and the targets that the entry nodes offer.
use mathlib.Core.Path.{subst}
use mathlib.Core.Option.{some-injective}
use singbox_operator.Base.{
  String, Bool, true, false, not, ◌&&◌, ◌||◌, Option, none, some, List, [], ◌∷◌, ◌++◌, map, keep,
  StringMap, insert, lookup, lookup_or, lookup-insert, is_empty, contains, any, All, sort, text_lt,
  any-sort, ◌==◌, if◌then◌else◌, ◌≡◌, refl, sym, ◌∙◌, ap, arith, inl, inr, Bool-cases, eq_iff,
}
use singbox_operator.Api.Platform.{Platform}
use singbox_operator.Api.Objects.{SingBoxNode}
use singbox_operator.Engine.Types.{RouteRule, Entry, effective_inbound_protocol}
use singbox_operator.ApiServer.Targets.{ClientConfigInput, OutboundRef, resolve_outbound_nodes}
use singbox_operator.ApiServer.Endpoints.{Endpoint}
use singbox_operator.ApiServer.Policies.{built, build_client_policies}
use singbox_operator.ApiServer.Grouped.{IsUsable, build_client_config-IsUsable}
use singbox_operator.ApiServer.Config.{
  Groups, add_member, add_members, selector, group_tags, has_members, selectors, outbound_tag_at,
  offered_groups, add_target, add_targets, entry_of, add_entry, add_entries, no_groups, config_of,
  ClientConfig, hiding, with_policies, build_client_config,
}

has_members-add_member :
    (tag h : String) (members : StringMap (List String)) (g : String)
    → has_members (add_member tag h members) g ≡ (h == g || has_members members g)
has_members-add_member tag h members g =
    let added = lookup_or [] h members ++ tag ∷ [] in
    let found : lookup g (insert h added members)
        ≡ (if h == g then some added else lookup g members) =
      lookup-insert h g added members in
    elim (Bool-cases (h == g)) [
      | inl t ↦ rw (lookup_or, found, t) (filled (lookup_or [] h members) tag)
      | inr f ↦ rw (lookup_or, found, f)
    ]
  where
    filled : (ts : List String) (tag : String) → not (is_empty (ts ++ tag ∷ [])) ≡ true
    filled [] tag = refl
    filled (t ∷ ts) tag = refl

has_members-add_members :
    (tag : String) (gs : List String) (members : StringMap (List String)) (g : String)
    → has_members (add_members tag gs members) g ≡ (contains gs g || has_members members g)
has_members-add_members tag [] members g = refl
has_members-add_members tag (h ∷ gs) members g =
    has_members-add_members tag gs (add_member tag h members) g
    ∙ ground (arith, has_members-add_member tag h members g)

any-keep-eq :
    (q : String → Bool) (names : List String) (g : String)
    → any (λ x. x == g) (keep q names) ≡ (q g && any (λ x. x == g) names)
any-keep-eq q [] g = ground arith
any-keep-eq q (x ∷ xs) g = elim (Bool-cases (q x)) [
  | inl t ↦ rw t (ground (arith, any-keep-eq q xs g, eq_iff x g))
  | inr f ↦ rw f (ground (arith, any-keep-eq q xs g, eq_iff x g))
]

has_members-key :
    (members : StringMap (List String)) (g : String)
    → has_members members g ≡ true
    → any (λ x. x == g) (map (λ m. m.0) members) ≡ true
has_members-key [] g e = e
has_members-key ((h, ts) ∷ members) g e = elim (Bool-cases (h == g)) [
  | inl t ↦ rw t
  | inr f ↦ rw f (
      has_members-key members g (
        subst
          (λ b.
            not
              (is_empty (elim (if b then some ts else lookup g members) [ none ↦ [] | some v ↦ v ]))
            ≡ true)
          f e))
]

any-selectors :
    (members : StringMap (List String)) (g : String)
    → any (λ s. s.tag == g) (selectors members) ≡ has_members members g
any-selectors members g =
    any-tags (sort text_lt (group_tags members))
    ∙ (any-sort text_lt (λ x. x == g) (group_tags members)
        ∙ (any-keep-eq (has_members members) (map (λ m. m.0) members) g
            ∙ ground (arith, has_members-key members g)))
  where
    any-tags :
        (names : List String)
        → any (λ s. s.tag == g) (map (selector members) names) ≡ any (λ x. x == g) names
    any-tags [] = refl
    any-tags (x ∷ xs) = ground (arith, any-tags xs)

module _ (p : Platform) (input : ClientConfigInput) where
  abbrev pub any_offered : String → List OutboundRef → Bool
  any_offered g rs = any (λ r. contains (offered_groups p input r) g) rs

  -- Whether a node has an endpoint and a target that is offered in the group.
  abbrev pub offers : String → SingBoxNode → Bool
  offers g n = elim (entry_of p input n) [
    | none ↦ false
    | some e ↦ any_offered g (resolve_outbound_nodes input n.name)
  ]

  has_members-add_target :
      (inbound : SingBoxNode) (protocol : String) (e : Endpoint) (r : OutboundRef) (gs : Groups)
      (g : String)
      → has_members (add_target p input inbound protocol e r gs).members g
        ≡ (contains (offered_groups p input r) g || has_members gs.members g)
  has_members-add_target inbound protocol e r gs g = added _ (offered_groups p input r)
    where
      added :
          (proxies : List Entry) (names : List String)
          → has_members
              (if is_empty names then gs else record {
                proxies = proxies;
                members = add_members (outbound_tag_at inbound r) names gs.members;
              }).members
              g
            ≡ (contains names g || has_members gs.members g)
      added proxies [] = refl
      added proxies (n ∷ ns) =
          has_members-add_members (outbound_tag_at inbound r) (n ∷ ns) gs.members g

  has_members-add_targets :
      (inbound : SingBoxNode) (protocol : String) (e : Endpoint) (rs : List OutboundRef)
      (gs : Groups) (g : String)
      → has_members (add_targets p input inbound protocol e rs gs).members g
        ≡ (any_offered g rs || has_members gs.members g)
  unfolding add_targets
  has_members-add_targets inbound protocol e [] gs g = refl
  has_members-add_targets inbound protocol e (r ∷ rs) gs g =
      has_members-add_targets inbound protocol e rs (add_target p input inbound protocol e r gs) g
      ∙ ground (arith, has_members-add_target inbound protocol e r gs g)

  has_members-add_entry :
      (inbound : SingBoxNode) (entry : Option Endpoint) (gs : Groups) (g : String)
      → has_members (add_entry p input inbound entry gs).members g ≡ (
          elim entry [
            | none ↦ false
            | some e ↦ any_offered g (resolve_outbound_nodes input inbound.name)
          ]
          || has_members gs.members g)
  has_members-add_entry inbound none gs g = refl
  has_members-add_entry inbound (some e) gs g =
      has_members-add_targets inbound (effective_inbound_protocol inbound) e
        (resolve_outbound_nodes input inbound.name) gs g

  has_members-add_entries :
      (ns : List SingBoxNode) (gs : Groups) (g : String)
      → has_members (add_entries p input ns gs).members g
        ≡ (any (offers g) ns || has_members gs.members g)
  unfolding add_entries
  has_members-add_entries [] gs g = refl
  has_members-add_entries (n ∷ ns) gs g =
      has_members-add_entries ns (add_entry p input n (entry_of p input n) gs) g
      ∙ ground (arith, has_members-add_entry n (entry_of p input n) gs g)

pub any-build_client_config :
    (p : Platform) (input : ClientConfigInput) (rules : List RouteRule) (targets : List String)
    (cfg : ClientConfig) (g : String)
    → build_client_policies p input ≡ built rules targets
    → build_client_config p input ≡ some cfg
    → any (λ s. s.tag == g) cfg.selectors
      ≡ any (offers p (hiding input targets) g) input.inbound_nodes
unfolding build_client_config
any-build_client_config p input rules targets cfg g policies h =
    let i = hiding input targets in
    let gs = add_entries p i i.inbound_nodes no_groups in
    let made : some (config_of gs) ≡ some cfg = sym (ap (with_policies p input) policies) ∙ h in
    subst (λ c. any (λ s. s.tag == g) c.selectors ≡ any (offers p i g) input.inbound_nodes)
      (some-injective _ cfg made)
      (any-selectors gs.members g
        ∙ (has_members-add_entries p i i.inbound_nodes no_groups g ∙ ground arith))

-- The selectors of a client's configuration name groups among hk, jp, us and ai, none is empty, and
-- their members are tags of proxies of the configuration; and there is one for a group just where
-- some entry node, online and with an endpoint for its protocol, has a target offered in the group,
-- where the targets of the policies are hidden.
pub build_client_config-selectors :
    (p : Platform) (input : ClientConfigInput) (rules : List RouteRule) (targets : List String)
    (cfg : ClientConfig)
    → build_client_policies p input ≡ built rules targets
    → build_client_config p input ≡ some cfg
    → All (IsUsable cfg.proxies) cfg.selectors
      × ((g : String)
          → any (λ s. s.tag == g) cfg.selectors
            ≡ any (offers p (hiding input targets) g) input.inbound_nodes)
build_client_config-selectors p input rules targets cfg policies h = (
  build_client_config-IsUsable p input cfg h,
  λ g. any-build_client_config p input rules targets cfg g policies h,
)
