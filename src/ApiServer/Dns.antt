-- ===== src/ApiServer/Dns.antt =====
-- clientDNSServer and configureClientDNS: internal/apiserver/template.go.
use singbox_operator.Base.{
  String, join, Bool, true, false, not, ◌&&◌, ◌||◌, Option, none, some, List, [], ◌∷◌, ◌++◌,
  StringMap, lookup, insert, contains, ◌==◌, if◌then◌else◌,
}
use singbox_operator.ApiServer.Json.{
  Json, text, as_object, as_array, as_string, is_text, is_nil, json_array, json_object, delete,
}

pub record RegionMode : Type 0 where
  pub name : String
  pub tag : String

abbrev pub client_region_modes : List RegionMode
client_region_modes =
    record { name = "HK"; tag = "hk" }
    ∷ record { name = "JP"; tag = "jp" }
    ∷ record { name = "US"; tag = "us" }
    ∷ []

abbrev pub object_or_empty : Option Json → StringMap Json
object_or_empty v = elim (as_object v) [ none ↦ [] | some m ↦ m ]

abbrev pub array_or_empty : Option Json → List Json
array_or_empty v = elim (as_array v) [ none ↦ [] | some js ↦ js ]

abbrev pub tag_in : Json → Option String
tag_in raw = as_string (lookup "tag" (object_or_empty (some raw)))

-- The tags of the objects of an array.
abbrev pub tags_in : List Json → List String
tags_in [] = []
tags_in (j ∷ js) = elim (tag_in j) [ none ↦ tags_in js | some t ↦ t ∷ tags_in js ]

abbrev pub if_tagged : String → Option (StringMap Json) → Option (StringMap Json)
if_tagged tag none = none
if_tagged tag (some s) = if is_text tag (lookup "tag" s) then some s else none

unfoldable pub find_server : String → List Json → Option (StringMap Json)
find_server tag [] = none
find_server tag (j ∷ js) = elim (if_tagged tag (as_object (some j))) [
  | some s ↦ some s
  | none ↦ find_server tag js
]

abbrev pub dns_of : StringMap Json → StringMap Json
dns_of config = object_or_empty (lookup "dns" config)

abbrev pub servers_of : StringMap Json → List Json
servers_of config = array_or_empty (lookup "servers" (dns_of config))

abbrev pub client_dns_server : StringMap Json → String → Option (StringMap Json)
client_dns_server config tag = find_server tag (servers_of config)

-- The assignment to the map that find_server gives, in its place in the list.
unfoldable pub set_server : String → StringMap Json → List Json → List Json
set_server tag new [] = []
set_server tag new (j ∷ js) = elim (if_tagged tag (as_object (some j))) [
  | some s ↦ json_object new ∷ js
  | none ↦ j ∷ set_server tag new js
]

-- A value that is an array, or empty where it is nil.
abbrev pub array_or_nil : Option Json → Option (List Json)
array_or_nil v = elim (as_array v) [ some js ↦ some js | none ↦ if is_nil v then some [] else none ]

abbrev pub set_detour : String → StringMap Json → StringMap Json
set_detour selector proxy =
    if not (selector == "") then insert "detour" (text selector) proxy else delete "detour" proxy

abbrev pub mode_tag : RegionMode → String
mode_tag mode = join "proxy-dns" (join "-" mode.tag)

abbrev pub mode_server : StringMap Json → RegionMode → Json
mode_server proxy mode =
    json_object (insert "detour" (text mode.tag) (insert "tag" (text (mode_tag mode)) proxy))

abbrev pub mode_rule : RegionMode → Json
mode_rule mode =
    json_object (("clash_mode", text mode.name) ∷ ("server", text (mode_tag mode)) ∷ [])

-- Servers and rules that are appended.
abbrev pub append_mode :
    Json → Json → Option (List Json × List Json) → Option (List Json × List Json)
append_mode server rule none = none
append_mode server rule (some (servers, rules)) = some (server ∷ servers, rule ∷ rules)

-- The loop over the modes; `has` are the tags of the outbounds. A reserved tag is an error.
unfoldable pub mode_dns :
    StringMap Json → List Json → List String → List RegionMode → Option (List Json × List Json)
mode_dns proxy servers has [] = some ([], [])
mode_dns proxy servers has (mode ∷ modes) =
    let rest = mode_dns proxy servers has modes in
    if not (contains has mode.tag) then rest else elim (find_server (mode_tag mode) servers) [
      | some s ↦ none
      | none ↦ append_mode (mode_server proxy mode) (mode_rule mode) rest
    ]

abbrev pub local_server : Json
local_server = json_object (("type", text "local") ∷ ("tag", text "local") ∷ [])

module _ (parses_addr : String → Bool) where
  -- An outbound with a host name as its server, and without a resolver.
  abbrev pub is_unresolved : StringMap Json → Bool
  is_unresolved outbound = elim (as_string (lookup "server" outbound)) [
    | none ↦ false
    | some server ↦
        not (server == "") && is_nil (lookup "domain_resolver" outbound) && not (parses_addr server)
  ]

  abbrev pub needs_resolver : Json → Bool
  needs_resolver raw = elim (as_object (some raw)) [
    | none ↦ false
    | some outbound ↦ is_unresolved outbound
  ]

  abbrev pub with_resolver : Json → Json
  with_resolver raw =
      json_object (insert "domain_resolver" (text "local") (object_or_empty (some raw)))

  -- The loop over the outbounds: the servers and the outbounds.
  unfoldable pub resolve_outbounds : Bool → List Json → List Json → List Json × List Json
  resolve_outbounds has_local servers [] = (servers, [])
  resolve_outbounds has_local servers (raw ∷ raws) =
      let needed = needs_resolver raw in
      let (all_servers, result) =
        resolve_outbounds (has_local || needed)
          (if needed && not has_local then servers ++ local_server ∷ [] else servers) raws in
      (all_servers, (if needed then with_resolver raw else raw) ∷ result)

pub record Configured : Type 0 where
  pub config : StringMap Json
  pub route : StringMap Json
  pub outbounds : List Json

abbrev pub is_found : Option (StringMap Json) → Bool
is_found none = false
is_found (some s) = true

abbrev pub managed :
    (String → Bool)
    → StringMap Json
    → StringMap Json
    → List Json
    → List Json
    → List Json
    → Option (List Json × List Json)
    → Option Configured
managed parses_addr config route outbounds servers rules none = none
managed parses_addr config route outbounds servers rules (some (more, mode_rules)) =
    let (all_servers, resolved) =
      resolve_outbounds parses_addr (is_found (client_dns_server config "local")) (servers ++ more)
        outbounds in
    let auto = json_object (("clash_mode", text "Auto") ∷ ("server", text "proxy-dns") ∷ []) in
    some (record {
      config =
          insert "dns"
            (json_object (
              insert "servers" (json_array all_servers) (
                insert "rules" (json_array (rules ++ (mode_rules ++ auto ∷ [])))
                  (insert "final" (text "proxy-dns") (dns_of config)))))
            config;
      route = insert "default_domain_resolver" (text "proxy-dns") route;
      outbounds = resolved;
    })

-- `none` is an error.
unfoldable pub configure_client_dns :
    (String → Bool)
    → StringMap Json
    → StringMap Json
    → List Json
    → String
    → List String
    → Option Configured
configure_client_dns parses_addr config route outbounds selector has =
    elim (client_dns_server config "proxy-dns") [
      | none ↦ some (record { config = config; route = route; outbounds = outbounds })
      | some proxy ↦ elim (array_or_nil (lookup "rules" (dns_of config))) [
        | none ↦ none
        | some rules ↦
            let detoured = set_detour selector proxy in
            let servers = set_server "proxy-dns" detoured (servers_of config) in
            managed parses_addr config route outbounds servers rules
              (mode_dns detoured servers has client_region_modes)
      ]
    ]
