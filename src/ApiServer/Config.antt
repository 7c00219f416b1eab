-- ===== src/ApiServer/Config.antt =====
-- BuildClientConfig: internal/apiserver/client_config.go.
use singbox_operator.Base.{
  String, join, Bool, true, false, not, ◌&&◌, ◌||◌, Option, none, some, List, [], ◌∷◌, ◌++◌, map,
  keep, StringMap, insert, lookup_or, is_empty, sort, text_lt, ◌==◌, if◌then◌else◌,
}
use singbox_operator.Api.Platform.{Platform}
use singbox_operator.Api.Objects.{SingBoxNode}
use singbox_operator.Engine.Types.{Entry, NameSet, string, texts, effective_inbound_protocol}
use singbox_operator.ApiServer.Targets.{
  ClientConfigInput, OutboundRef, target_has_client_group, resolve_outbound_nodes,
}
use singbox_operator.ApiServer.Endpoints.{Endpoint, find_entry_endpoint, supports_protocol}
use singbox_operator.ApiServer.Outbounds.{build_proxy_outbound}
use singbox_operator.ApiServer.Policies.{ClientPolicies, refused, built, build_client_policies}

-- The outbounds so far, and the tags of each group.
pub record Groups : Type 0 where
  pub proxies : List Entry
  pub members : StringMap (List String)

abbrev pub is_client_group : String → Bool
is_client_group g = g == "hk" || g == "jp" || g == "us" || g == "ai"

abbrev pub add_member : String → String → StringMap (List String) → StringMap (List String)
add_member tag g members = insert g (lookup_or [] g members ++ tag ∷ []) members

abbrev pub add_members : String → List String → StringMap (List String) → StringMap (List String)
add_members tag [] members = members
add_members tag (g ∷ gs) members = add_members tag gs (add_member tag g members)

-- slices.Compact
abbrev pub compact_from : String → List String → List String
compact_from x [] = []
compact_from x (y ∷ ys) = if y == x then compact_from x ys else y ∷ compact_from y ys

abbrev pub compact : List String → List String
compact [] = []
compact (x ∷ xs) = x ∷ compact_from x xs

pub record Selector : Type 0 where
  pub tag : String
  pub outbounds : List String

abbrev pub selector : StringMap (List String) → String → Selector
selector members g = record { tag = g; outbounds = compact (sort text_lt (lookup_or [] g members)) }

abbrev pub has_members : StringMap (List String) → String → Bool
has_members members g = not (is_empty (lookup_or [] g members))

abbrev pub group_tags : StringMap (List String) → List String
group_tags members = keep (has_members members) (map (λ m. m.0) members)

abbrev pub selectors : StringMap (List String) → List Selector
selectors members = map (selector members) (sort text_lt (group_tags members))

abbrev pub selector_entry : Selector → Entry
selector_entry s =
    ("type", string "selector") ∷ ("tag", string s.tag) ∷ ("outbounds", texts s.outbounds) ∷ []

abbrev pub outbound_tag_at : SingBoxNode → OutboundRef → String
outbound_tag_at inbound r =
    if r.name == inbound.name then r.name else join r.name (join "#" inbound.name)

module _ (p : Platform) (input : ClientConfigInput) where
  -- The groups in which a target is offered.
  abbrev pub offered_groups : OutboundRef → List String
  offered_groups r =
      keep
        (λ g.
          is_client_group g
          && not (not (g == "ai") && lookup_or false r.name input.policy_only_egress_names))
        r.client_groups

  abbrev pub add_target : SingBoxNode → String → Endpoint → OutboundRef → Groups → Groups
  add_target inbound protocol e r gs =
      let tag = outbound_tag_at inbound r in
      if is_empty (offered_groups r) then gs else record {
        proxies =
            gs.proxies
            ++ build_proxy_outbound p tag e.address e.port protocol input.user.name r.name
                inbound.status.tls_server_name input.user_cred
              ∷ [];
        members = add_members tag (offered_groups r) gs.members;
      }

  unfoldable pub add_targets : SingBoxNode → String → Endpoint → List OutboundRef → Groups → Groups
  add_targets inbound protocol e [] gs = gs
  add_targets inbound protocol e (r ∷ rs) gs =
      add_targets inbound protocol e rs (add_target inbound protocol e r gs)

  -- The endpoint through which clients enter at a node, if it is online and has one.
  abbrev pub entry_of : SingBoxNode → Option Endpoint
  entry_of inbound =
      let protocol = effective_inbound_protocol inbound in
      if lookup_or false inbound.name input.offline_node_names
      then none
      else if not (supports_protocol inbound protocol)
      then none
      else find_entry_endpoint inbound.status.entry_endpoints protocol

  abbrev pub add_entry : SingBoxNode → Option Endpoint → Groups → Groups
  add_entry inbound none gs = gs
  add_entry inbound (some e) gs =
      add_targets inbound (effective_inbound_protocol inbound) e
        (resolve_outbound_nodes input inbound.name) gs

  unfoldable pub add_entries : List SingBoxNode → Groups → Groups
  add_entries [] gs = gs
  add_entries (n ∷ ns) gs = add_entries ns (add_entry n (entry_of n) gs)

-- The input in which the targets of policies are kept out of the regional groups.
abbrev pub hide_targets : ClientConfigInput → List String → NameSet → NameSet
hide_targets input [] names = names
hide_targets input (t ∷ ts) names =
    hide_targets input ts
      (if target_has_client_group input t "ai" then names else insert t true names)

abbrev pub hiding : ClientConfigInput → List String → ClientConfigInput
hiding input targets = record input {
  policy_only_egress_names = hide_targets input targets input.policy_only_egress_names;
}

pub record ClientConfig : Type 0 where
  pub proxies : List Entry
  pub selectors : List Selector

abbrev pub direct : Entry
direct = ("type", string "direct") ∷ ("tag", string "direct") ∷ []

-- The array of outbounds.
abbrev pub entries : ClientConfig → List Entry
entries c = c.proxies ++ (map selector_entry c.selectors ++ direct ∷ [])

abbrev pub config_of : Groups → ClientConfig
config_of gs = record { proxies = gs.proxies; selectors = selectors gs.members }

abbrev pub no_groups : Groups
no_groups = record { proxies = []; members = [] }

abbrev pub config_hiding : Platform → ClientConfigInput → ClientConfig
config_hiding p input = config_of (add_entries p input input.inbound_nodes no_groups)

abbrev pub with_policies : Platform → ClientConfigInput → ClientPolicies → Option ClientConfig
with_policies p input (refused e) = none
with_policies p input (built rules targets) = some (config_hiding p (hiding input targets))

-- `none` is the error of the policies.
unfoldable pub build_client_config : Platform → ClientConfigInput → Option ClientConfig
build_client_config p input = with_policies p input (build_client_policies p input)
