-- ===== src/ApiServer/Template.antt =====
-- MergeClientConfig, normalizeDeprecatedClientConfig and isDomesticDirectRule:
-- internal/apiserver/template.go, from the decoded template on.
use singbox_operator.Base.{
  nat_eq, String, Bool, false, not, ◌&&◌, ◌||◌, Option, none, some, List, [], ◌∷◌, ◌++◌, map, keep,
  any, StringMap, lookup, insert, is_empty, contains, ◌==◌, if◌then◌else◌,
}
use singbox_operator.Api.Platform.{Platform}
use singbox_operator.Api.Objects.{EgressPolicy, action_route}
use singbox_operator.Engine.Types.{RouteRule}
use singbox_operator.ApiServer.Targets.{ClientConfigInput}
use singbox_operator.ApiServer.Policies.{
  refused, built, resolve_client_policy_egress, build_client_policies,
}
use singbox_operator.ApiServer.Json.{
  Json, text, as_object, as_array, as_string, is_text, is_true, json_array, json_object, delete,
}
use singbox_operator.ApiServer.Dns.{
  RegionMode, client_region_modes, object_or_empty, array_or_empty, client_dns_server, Configured,
  configure_client_dns, is_found, tags_in,
}

-- A function at the object that stands at a key, if one does.
abbrev pub at_object : String → (StringMap Json → StringMap Json) → StringMap Json → StringMap Json
at_object k f m = elim (as_object (lookup k m)) [
  | none ↦ m
  | some o ↦ insert k (json_object (f o)) m
]

abbrev pub at_array : String → (Json → Json) → StringMap Json → StringMap Json
at_array k f m = elim (as_array (lookup k m)) [
  | none ↦ m
  | some js ↦ insert k (json_array (map f js)) m
]

abbrev move_detour : StringMap Json → Option String → StringMap Json
move_detour set none = set
move_detour set (some detour) = delete "download_detour" (elim (lookup "http_client" set) [
  | some client ↦ set
  | none ↦ insert "http_client" (json_object (("detour", text detour) ∷ [])) set
])

abbrev pub normalize_set : Json → Json
normalize_set raw = elim (as_object (some raw)) [
  | none ↦ raw
  | some set ↦ json_object (move_detour set (as_string (lookup "download_detour" set)))
]

unfoldable pub normalize_deprecated_client_config : StringMap Json → StringMap Json
normalize_deprecated_client_config m =
    at_object "route" (at_array "rule_set" normalize_set)
      (at_object "dns" (delete "independent_cache") m)

unfoldable pub is_domestic_direct_rule : StringMap Json → Bool
is_domestic_direct_rule rule =
    is_text "direct" (lookup "outbound" rule)
    && (is_true (lookup "ip_is_private" rule)
        || any (λ set. is_text "geosite-cn" (some set)) (array_or_empty (lookup "rule_set" rule)))

abbrev is_domestic : Json → Bool
is_domestic raw = elim (as_object (some raw)) [
  | none ↦ false
  | some rule ↦ is_domestic_direct_rule rule
]

abbrev with_texts : String → List String → StringMap Json → StringMap Json
with_texts k ts m = if is_empty ts then m else (k, json_array (map text ts)) ∷ m

abbrev with_text : String → String → StringMap Json → StringMap Json
with_text k t m = if t == "" then m else (k, text t) ∷ m

-- The map[string]any that a rule of a policy is: an empty list or text stands for an absent key.
abbrev pub rule_json : RouteRule → Json
rule_json r = json_object (
    with_texts "domain" r.domain (
      with_texts "domain_suffix" r.domain_suffix (
        with_texts "domain_regex" r.domain_regex (
          with_texts "ip_cidr" r.ip_cidr (
            with_texts "rule_set" r.rule_set
              (with_text "action" r.action (with_text "outbound" r.outbound [])))))))

module _ (p : Platform) (input : ClientConfigInput) where
  -- Whether the rule sets of a policy that gives a rule are defined.
  abbrev pub has_rule_sets : List String → EgressPolicy → Bool
  has_rule_sets defined q =
      q.spec.action == action_route && nat_eq (resolve_client_policy_egress p input q).1 0
      || not (any (λ ref. not (contains defined ref)) q.spec.match.rule_set)

-- Whether a rule stays ahead of those of the policies.
abbrev pub is_leading : Json → Bool
is_leading raw = elim (as_object (some raw)) [
  | none ↦ false
  | some rule ↦
      is_text "sniff" (lookup "action" rule) || is_text "hijack-dns" (lookup "action" rule)
]

-- `original[:insert]` and `original[insert:]`
unfoldable pub leading : List Json → List Json
leading [] = []
leading (r ∷ rs) = if is_leading r then r ∷ leading rs else []

unfoldable pub following : List Json → List Json
following [] = []
following (r ∷ rs) = if is_leading r then following rs else r ∷ rs

abbrev pub proxy_selector : List String → List RegionMode → String
proxy_selector has [] = ""
proxy_selector has (mode ∷ modes) =
    if contains has mode.tag then mode.tag else proxy_selector has modes

abbrev pub clash_rule : String → String → Json
clash_rule mode outbound =
    json_object (("clash_mode", text mode) ∷ ("outbound", text outbound) ∷ [])

abbrev pub mode_rules : List String → List RegionMode → List Json
mode_rules has [] = []
mode_rules has (mode ∷ modes) =
    if contains has mode.tag
    then clash_rule mode.name mode.tag ∷ mode_rules has modes
    else mode_rules has modes

abbrev is_proxy_mode : StringMap Json → Bool
is_proxy_mode rule =
    is_text "Proxy" (lookup "clash_mode" rule) || is_text "proxy" (lookup "clash_mode" rule)

abbrev redirected : Json → StringMap Json → Json
redirected raw rule =
    if is_text "proxy" (lookup "outbound" rule)
    then json_object (insert "outbound" (text "direct") (delete "outbound" rule))
    else raw

-- The other rules of the template.
unfoldable pub remaining : List Json → List Json
remaining [] = []
remaining (raw ∷ raws) = elim (as_object (some raw)) [
  | none ↦ raw ∷ remaining raws
  | some rule ↦
      if is_domestic_direct_rule rule || is_proxy_mode rule
      then remaining raws
      else redirected raw rule ∷ remaining raws
]

abbrev resolve_rule : Bool → List Json
resolve_rule managed = if managed then json_object (("action", text "resolve") ∷ []) ∷ [] else []

abbrev pub auto_rule : String → List Json
auto_rule selector = if not (selector == "") then clash_rule "Auto" selector ∷ [] else []

abbrev pub merged_rules : List Json → List Json → Bool → List String → List Json
merged_rules original policy_rules managed has =
    leading original
    ++ (policy_rules
        ++ (resolve_rule managed
            ++ (keep is_domestic (following original)
                ++ (auto_rule (proxy_selector has client_region_modes)
                    ++ (mode_rules has client_region_modes ++ remaining (following original))))))

-- route.rules; `none` is an error where there are rules to put in.
abbrev pub original_rules : Option Json → Bool → Option (List Json)
original_rules rules no_policy_rules = elim (as_array rules) [
  | some js ↦ some js
  | none ↦ if not no_policy_rules then none else some []
]

abbrev pub with_default_mode : StringMap Json → StringMap Json
with_default_mode m =
    let experimental = object_or_empty (lookup "experimental" m) in
    let clash = object_or_empty (lookup "clash_api" experimental) in
    insert "experimental"
      (json_object
        (insert "clash_api" (json_object (insert "default_mode" (text "Auto") clash)) experimental))
      m

abbrev pub with_final : String → StringMap Json → StringMap Json
with_final selector route =
    if not (selector == "") then insert "final" (text selector) route else route

-- The map m at the end, which the maps at its keys are parts of.
abbrev pub assembled : Option Configured → Option (StringMap Json)
assembled none = none
assembled (some c) =
    some
      (insert "outbounds" (json_array c.outbounds) (insert "route" (json_object c.route) c.config))

abbrev pub merge_into :
    (String → Bool)
    → List Json
    → List RouteRule
    → StringMap Json
    → StringMap Json
    → List Json
    → Option (StringMap Json)
merge_into parses_addr outbounds policy_rules m route original =
    let has = tags_in outbounds in
    let selector = proxy_selector has client_region_modes in
    let rules =
      merged_rules original (map rule_json policy_rules)
        (is_found (client_dns_server m "proxy-dns")) has in
    assembled (
      configure_client_dns parses_addr (with_default_mode m)
        (with_final selector (insert "rules" (json_array rules) route)) outbounds selector has)

abbrev pub merge_rules :
    Platform
    → (String → Bool)
    → ClientConfigInput
    → List Json
    → List RouteRule
    → StringMap Json
    → Option (StringMap Json)
merge_rules p parses_addr input outbounds policy_rules m = elim (as_object (lookup "route" m)) [
  | none ↦ none
  | some route ↦ elim (original_rules (lookup "rules" route) (is_empty policy_rules)) [
    | none ↦ none
    | some original ↦
        let defined = tags_in (array_or_empty (lookup "rule_set" route)) in
        if any (λ q. not (has_rule_sets p input defined q)) input.egress_policies
        then none
        else merge_into parses_addr outbounds policy_rules m route original
  ]
]

-- The merged configuration, before it is encoded; `none` is an error.
unfoldable pub merge_client_config :
    Platform
    → (String → Bool)
    → StringMap Json
    → List Json
    → ClientConfigInput
    → Option (StringMap Json)
merge_client_config p parses_addr template outbounds input = elim (build_client_policies p input) [
  | refused e ↦ none
  | built policy_rules targets ↦
      merge_rules p parses_addr input outbounds policy_rules
        (normalize_deprecated_client_config template)
]

-- MergeOutbounds, before the encoding.
unfoldable pub merge_outbounds : StringMap Json → List Json → StringMap Json
merge_outbounds template outbounds =
    insert "outbounds" (json_array outbounds) (normalize_deprecated_client_config template)
