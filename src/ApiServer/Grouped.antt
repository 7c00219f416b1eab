-- ===== src/ApiServer/Grouped.antt =====
-- The selectors of a client's configuration: which there are, and what they hold.
use singbox_operator.Base.{
  String, true, false, Option, none, some, List, [], ◌∷◌, ◌++◌, map, StringMap, lookup_or, is_empty,
  contains, sort, text_lt, place, All, All-mono, All-sort, All-append, All-keep, ◌==◌, ◌≡◌, refl,
  ◌∙◌, arith, inl, inr, All-insert, All-both, All-map, keep-true, Bool-cases, eq_iff,
}
use singbox_operator.Api.Platform.{Platform}
use singbox_operator.Api.Objects.{SingBoxNode}
use mathlib.Core.Path.{subst}
use mathlib.Core.Option.{some-injective}
use singbox_operator.ApiServer.Policies.{ClientPolicies, refused, built, build_client_policies}
use singbox_operator.Engine.Types.{Entry, tag_of, effective_inbound_protocol}
use singbox_operator.ApiServer.Outbounds.{build_proxy_outbound}
use singbox_operator.ApiServer.Logins.{tag_of-build_proxy_outbound}
use singbox_operator.Engine.Tags.{tags, tags-append}
use singbox_operator.ApiServer.Targets.{ClientConfigInput, OutboundRef, resolve_outbound_nodes}
use singbox_operator.ApiServer.Endpoints.{Endpoint}
use singbox_operator.ApiServer.Config.{
  Groups, is_client_group, add_member, add_members, compact, compact_from, Selector, selector,
  group_tags, has_members, selectors, offered_groups, add_target, add_targets, entry_of, add_entry,
  add_entries, no_groups, with_policies, build_client_config, ClientConfig, hiding, outbound_tag_at,
}

abbrev pub Tagged : List Entry → List String → Type 0
Tagged proxies names = All (λ t. contains (tags proxies) t ≡ true) names

-- Each group is one of the client's, and its tags are those of proxies.
abbrev Known : Groups → Type 0
Known gs = All (λ m. (is_client_group m.0 ≡ true) × Tagged gs.proxies m.1) gs.members

Tagged-lookup_or :
    (proxies : List Entry) (g : String) (members : StringMap (List String))
    → All (λ m. (is_client_group m.0 ≡ true) × Tagged proxies m.1) members
    → Tagged proxies (lookup_or [] g members)
Tagged-lookup_or proxies g [] h = tt
Tagged-lookup_or proxies g ((j, ts) ∷ members) ((c, t), h) = elim (Bool-cases (j == g)) [
  | inl e ↦ rw (lookup_or, e) t
  | inr f ↦ rw (lookup_or, f) (Tagged-lookup_or proxies g members h)
]

Known-add_members :
    (proxies : List Entry) (tag : String) (gs : List String) (members : StringMap (List String))
    → contains (tags proxies) tag ≡ true
    → All (λ g. is_client_group g ≡ true) gs
    → Known (record { proxies = proxies; members = members })
    → Known (record { proxies = proxies; members = add_members tag gs members })
Known-add_members proxies tag [] members here cs h = h
Known-add_members proxies tag (g ∷ gs) members here (c, cs) h =
    Known-add_members proxies tag gs (add_member tag g members) here cs (
      All-insert (λ m. (is_client_group m.0 ≡ true) × Tagged proxies m.1) g
        (lookup_or [] g members ++ tag ∷ []) members
        (
          c,
          All-append (λ t. contains (tags proxies) t ≡ true) (lookup_or [] g members) (tag ∷ [])
              (Tagged-lookup_or proxies g members h) (here, tt),
        )
        h)

Known-proxies :
    (proxies more : List Entry) (members : StringMap (List String))
    → Known (record { proxies = proxies; members = members })
    → Known (record { proxies = proxies ++ more; members = members })
Known-proxies proxies more members h =
    All-mono (λ m (c, t). (c, All-mono (λ k e. tags-append proxies more k ∙ rw e) m.1 t)) members h

contains-last :
    (proxies : List Entry) (ob : Entry) (tag : String)
    → tag_of ob ≡ tag
    → contains (tags (proxies ++ ob ∷ [])) tag ≡ true
contains-last proxies ob tag e =
    tags-append proxies (ob ∷ []) tag ∙ ground (arith, eq_iff (tag_of ob) tag)

module _ (p : Platform) (input : ClientConfigInput) where
  Known-add_target :
      (inbound : SingBoxNode) (protocol : String) (e : Endpoint) (r : OutboundRef) (gs : Groups)
      → Known gs
      → Known (add_target p input inbound protocol e r gs)
  Known-add_target inbound protocol e r gs h =
      elim (Bool-cases (is_empty (offered_groups p input r))) [
        | inl none_offered ↦ rw none_offered h
        | inr offered ↦
            let tag = outbound_tag_at inbound r in
            let ob =
              build_proxy_outbound p tag e.address e.port protocol input.user.name r.name
                inbound.status.tls_server_name input.user_cred in
            rw offered (
              Known-add_members (gs.proxies ++ ob ∷ []) tag (offered_groups p input r) gs.members
                (contains-last gs.proxies ob tag (
                  tag_of-build_proxy_outbound p tag e.address e.port protocol input.user.name r.name
                    inbound.status.tls_server_name input.user_cred))
                (All-mono (λ g t. ground arith) (offered_groups p input r)
                  (keep-true _ r.client_groups))
                (Known-proxies gs.proxies (ob ∷ []) gs.members h))
      ]

  Known-add_targets :
      (inbound : SingBoxNode) (protocol : String) (e : Endpoint) (rs : List OutboundRef)
      (gs : Groups)
      → Known gs
      → Known (add_targets p input inbound protocol e rs gs)
  unfolding add_targets
  Known-add_targets inbound protocol e [] gs h = h
  Known-add_targets inbound protocol e (r ∷ rs) gs h =
      Known-add_targets inbound protocol e rs (add_target p input inbound protocol e r gs)
        (Known-add_target inbound protocol e r gs h)

  Known-add_entry :
      (inbound : SingBoxNode) (e : Option Endpoint) (gs : Groups)
      → Known gs
      → Known (add_entry p input inbound e gs)
  Known-add_entry inbound none gs h = h
  Known-add_entry inbound (some e) gs h =
      Known-add_targets inbound (effective_inbound_protocol inbound) e
        (resolve_outbound_nodes input inbound.name) gs h

  Known-add_entries :
      (ns : List SingBoxNode) (gs : Groups) → Known gs → Known (add_entries p input ns gs)
  unfolding add_entries
  Known-add_entries [] gs h = h
  Known-add_entries (n ∷ ns) gs h =
      Known-add_entries ns (add_entry p input n (entry_of p input n) gs)
        (Known-add_entry n (entry_of p input n) gs h)

-- It names a group of the client's, and has tags, all of proxies.
abbrev pub IsUsable : List Entry → Selector → Type 0
IsUsable proxies s =
    (is_client_group s.tag ≡ true) × (is_empty s.outbounds ≡ false) × Tagged proxies s.outbounds

Tagged-compact_from :
    (proxies : List Entry) (x : String) (ts : List String)
    → Tagged proxies ts
    → Tagged proxies (compact_from x ts)
Tagged-compact_from proxies x [] h = tt
Tagged-compact_from proxies x (y ∷ ys) (p, h) = elim (Bool-cases (y == x)) [
  | inl t ↦ rw t (Tagged-compact_from proxies x ys h)
  | inr f ↦ rw f (p, Tagged-compact_from proxies y ys h)
]

Tagged-compact :
    (proxies : List Entry) (ts : List String) → Tagged proxies ts → Tagged proxies (compact ts)
Tagged-compact proxies [] h = tt
Tagged-compact proxies (x ∷ xs) (p, h) = (p, Tagged-compact_from proxies x xs h)

is_empty-compact : (ts : List String) → is_empty (compact ts) ≡ is_empty ts
is_empty-compact [] = refl
is_empty-compact (x ∷ xs) = refl

is_empty-place : (x : String) (xs : List String) → is_empty (place text_lt x xs) ≡ false
is_empty-place x [] = refl
is_empty-place x (y ∷ ys) = ground arith

is_empty-sort : (ts : List String) → is_empty (sort text_lt ts) ≡ is_empty ts
is_empty-sort [] = refl
is_empty-sort (x ∷ xs) = is_empty-place x (sort text_lt xs)

keys-Known :
    (proxies : List Entry) (members : StringMap (List String))
    → All (λ m. (is_client_group m.0 ≡ true) × Tagged proxies m.1) members
    → All (λ g. is_client_group g ≡ true) (map (λ m. m.0) members)
keys-Known proxies [] h = tt
keys-Known proxies ((g, ts) ∷ members) ((c, t), h) = (c, keys-Known proxies members h)

selector-IsUsable :
    (proxies : List Entry) (members : StringMap (List String)) (g : String)
    → Known (record { proxies = proxies; members = members })
    → is_client_group g ≡ true
    → has_members members g ≡ true
    → IsUsable proxies (selector members g)
selector-IsUsable proxies members g h c e =
    let ts = lookup_or [] g members in
    (
      c,
      is_empty-compact (sort text_lt ts) ∙ (is_empty-sort ts ∙ ground arith),
      Tagged-compact proxies (sort text_lt ts)
          (All-sort text_lt _ ts (Tagged-lookup_or proxies g members h)),
    )

selectors-IsUsable :
    (proxies : List Entry) (members : StringMap (List String))
    → Known (record { proxies = proxies; members = members })
    → All (IsUsable proxies) (selectors members)
selectors-IsUsable proxies members h =
    let names = map (λ m. m.0) members in
    All-map (IsUsable proxies) (selector members) (sort text_lt (group_tags members)) (
      All-sort text_lt _ (group_tags members) (
        All-mono (λ g (c, e). selector-IsUsable proxies members g h c e) (group_tags members)
          (All-both _ _ (group_tags members)
            (All-keep _ (has_members members) names (keys-Known proxies members h))
            (keep-true (has_members members) names))))

with_policies-IsUsable :
    (p : Platform) (input : ClientConfigInput) (policies : ClientPolicies) (cfg : ClientConfig)
    → with_policies p input policies ≡ some cfg
    → All (IsUsable cfg.proxies) cfg.selectors
with_policies-IsUsable p input (refused e) cfg h = cc
with_policies-IsUsable p input (built rules targets) cfg h =
    let i = hiding input targets in
    let gs = add_entries p i i.inbound_nodes no_groups in
    subst (λ c. All (IsUsable c.proxies) c.selectors) (some-injective _ cfg h)
      (selectors-IsUsable gs.proxies gs.members
        (Known-add_entries p i i.inbound_nodes no_groups tt))

pub build_client_config-IsUsable :
    (p : Platform) (input : ClientConfigInput) (cfg : ClientConfig)
    → build_client_config p input ≡ some cfg
    → All (IsUsable cfg.proxies) cfg.selectors
unfolding build_client_config
build_client_config-IsUsable p input cfg h =
    with_policies-IsUsable p input (build_client_policies p input) cfg h
