-- ===== src/ApiServer/TemplateTests.antt =====
-- A merged template on a small input, and the theorem about it there.
use singbox_operator.Base.{String, true, some, [], ◌∷◌, ◌≡◌, refl, Distinct, StringMap, ◌==◌}
use singbox_operator.ApiServer.Targets.{ClientConfigInput}
use singbox_operator.ApiServer.Policies.{client_policies, build_client_policies}
use singbox_operator.ApiServer.Json.{Json, text, boolean, json_array, json_object}
use singbox_operator.ApiServer.Dns.{
  tags_in, servers_of, find_server, set_server, mode_dns, resolve_outbounds, configure_client_dns,
}
use singbox_operator.ApiServer.Template.{
  normalize_deprecated_client_config, is_domestic_direct_rule, leading, following, remaining,
  clash_rule, merge_client_config,
}
use singbox_operator.ApiServer.Merged.{merge_client_config-Distinct}
use singbox_operator.Samples.{platform, user}

abbrev server : String → Json
server tag = json_object (("tag", text tag) ∷ [])

abbrev sniff : Json
sniff = json_object (("action", text "sniff") ∷ [])

abbrev domestic : Json
domestic = json_object (("ip_is_private", boolean true) ∷ ("outbound", text "direct") ∷ [])

abbrev old : Json
old = json_object (("domain", text "example.org") ∷ ("outbound", text "proxy") ∷ [])

abbrev template : StringMap Json
template =
    ("dns", json_object (("servers", json_array (server "proxy-dns" ∷ server "block" ∷ [])) ∷ []))
    ∷ ("route", json_object (("rules", json_array (sniff ∷ old ∷ domestic ∷ [])) ∷ []))
    ∷ []

abbrev proxy : Json
proxy = json_object (("tag", text "exit-a#entry") ∷ ("server", text "proxy.example") ∷ [])

abbrev no_policies : ClientConfigInput
no_policies = record {
  user = user "bob" "";
  egress_policies = [];
  user_cred = record { uuid = "u-bob" };
  inbound_nodes = [];
  routes_by_inbound = [];
  outbounds_by_name = [];
  external_outbounds_by_name = [];
  external_outbounds = [];
  offline_node_names = [];
  allowed_node_names = [];
  denied_node_names = [];
  policy_only_egress_names = [];
}

abbrev detoured : String → String → Json
detoured tag selector = json_object (("tag", text tag) ∷ ("detour", text selector) ∷ [])

abbrev merged : StringMap Json
merged =
    (
      "dns",
      json_object (
          (
            "servers",
            json_array (
                detoured "proxy-dns" "jp"
                ∷ server "block"
                ∷ detoured "proxy-dns-jp" "jp"
                ∷ json_object (("type", text "local") ∷ ("tag", text "local") ∷ [])
                ∷ []),
          )
          ∷ ("final", text "proxy-dns")
          ∷ (
            "rules",
            json_array (
                json_object (("clash_mode", text "JP") ∷ ("server", text "proxy-dns-jp") ∷ [])
                ∷ json_object (("clash_mode", text "Auto") ∷ ("server", text "proxy-dns") ∷ [])
                ∷ []),
          )
          ∷ []),
    )
    ∷ (
      "route",
      json_object (
          (
            "rules",
            json_array (
                sniff
                ∷ json_object (("action", text "resolve") ∷ [])
                ∷ domestic
                ∷ clash_rule "Auto" "jp"
                ∷ clash_rule "JP" "jp"
                ∷ json_object (("domain", text "example.org") ∷ ("outbound", text "direct") ∷ [])
                ∷ []),
          )
          ∷ ("final", text "jp")
          ∷ ("default_domain_resolver", text "proxy-dns")
          ∷ []),
    )
    ∷ (
      "experimental",
      json_object (("clash_api", json_object (("default_mode", text "Auto") ∷ [])) ∷ []),
    )
    ∷ (
      "outbounds",
      json_array (
          json_object (
            ("tag", text "exit-a#entry")
            ∷ ("server", text "proxy.example")
            ∷ ("domain_resolver", text "local")
            ∷ [])
          ∷ server "jp"
          ∷ []),
    )
    ∷ []

merged_here :
    merge_client_config platform
      (λ a. a == "1.2.3.4")
      template
      (proxy ∷ server "jp" ∷ [])
      no_policies
    ≡ some merged
unfolding merge_client_config build_client_policies client_policies
    normalize_deprecated_client_config is_domestic_direct_rule leading following remaining
    find_server set_server mode_dns resolve_outbounds configure_client_dns
merged_here = refl

merge_client_config-Distinct_example : Distinct (tags_in (servers_of merged))
merge_client_config-Distinct_example =
    merge_client_config-Distinct platform (λ a. a == "1.2.3.4") no_policies
      (proxy ∷ server "jp" ∷ []) template merged merged_here (refl, (refl, tt))
