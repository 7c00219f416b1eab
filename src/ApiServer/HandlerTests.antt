-- ===== src/ApiServer/HandlerTests.antt =====
-- The handler on a small cluster, and the theorem about it there.
use singbox_operator.Base.{
  String, true, some, none, [], ◌∷◌, ◌≡◌, refl, StringMap, ◌==◌, if◌then◌else◌, cut_at,
}
use singbox_operator.Controllers.Client.{found, not_found}
use singbox_operator.Controllers.Credentials.{get_user_credential}
use singbox_operator.ApiServer.Targets.{policy_only_egresses}
use singbox_operator.ApiServer.Config.{add_entries, build_client_config}
use singbox_operator.ApiServer.Policies.{client_policies, build_client_policies}
use singbox_operator.ApiServer.Json.{Json, text, json_array, json_object}
use singbox_operator.ApiServer.Dns.{find_server, configure_client_dns}
use singbox_operator.ApiServer.Template.{
  normalize_deprecated_client_config, leading, following, remaining, merge_client_config,
}
use singbox_operator.ApiServer.Requests.{
  after_prefix, trim_prefix, request_of, after_hex, is_grouped, is_uuid, equal_fold,
}
use singbox_operator.ApiServer.Handler.{
  Server, status_ok, status_not_found, status_bad_request, match_user, group_sets, template_of,
  client_config_input, handle_client_config,
}
use singbox_operator.ApiServer.Authorised.{IsOwners, handle_client_config-IsOwners}
use singbox_operator.Samples.{platform, client}

-- Every user's Secret is the same, and the cluster has no node.
abbrev server : Server
server = record {
  client = record client {
    list_nodes = λ ns. some [];
    list_externals = λ ns. some [];
    list_policies = λ ns. some [];
    get_secret = λ ns n.
        if n == "secret"
        then found (("uuid", "6BA7B810-9dad-11d1-80b4-00c04fd430c8") ∷ [])
        else not_found;
  };
  get_config_map = λ ns n. found (("config.json", "template") ∷ []);
  template_ref = "proxy/template";
  decode = λ t. if t == "template" then some (("route", json_object []) ∷ []) else none;
  parses_addr = λ a. true;
}

abbrev path : String
path = "/api/v1/client-config/proxy/6ba7b810-9dad-11d1-80b4-00c04fd430c8"

abbrev body : StringMap Json
body =
    ("route", json_object (("rules", json_array []) ∷ []))
    ∷ (
      "experimental",
      json_object (("clash_api", json_object (("default_mode", text "Auto") ∷ [])) ∷ []),
    )
    ∷ (
      "outbounds",
      json_array (json_object (("type", text "direct") ∷ ("tag", text "direct") ∷ []) ∷ []),
    )
    ∷ []

served_config : handle_client_config platform server path ≡ status_ok body
unfolding handle_client_config request_of trim_prefix after_prefix cut_at is_uuid is_grouped
    after_hex equal_fold match_user get_user_credential group_sets client_config_input
    build_client_config build_client_policies client_policies add_entries template_of
    merge_client_config normalize_deprecated_client_config leading following remaining find_server
    configure_client_dns policy_only_egresses
served_config = refl

malformed :
    (handle_client_config platform server "/api/v1/client-config/proxy/u-bob" ≡ status_bad_request)
    × (handle_client_config platform server "/api/v1/client-config/proxy" ≡ status_not_found)
unfolding handle_client_config request_of trim_prefix after_prefix cut_at is_uuid is_grouped
    after_hex
malformed = (refl, refl)

handle_client_config-IsOwners_example : IsOwners platform server path body
handle_client_config-IsOwners_example =
    handle_client_config-IsOwners platform server path body served_config
