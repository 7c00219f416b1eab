-- ===== src/ApiServer/Handler.antt =====
-- handleClientConfig: internal/apiserver/handler.go. Decoding a template is a parameter; the body of
-- an answer is the configuration before it is encoded.
use Prim.Native.Char.{Char, code}
use singbox_operator.Base.{
  nat_eq, String, Bool, true, false, not, Option, none, some, List, [], ◌∷◌, map, keep, StringMap,
  lookup, insert, cut_at, ◌==◌, if◌then◌else◌, ◌>>=◌,
}
use singbox_operator.Api.Platform.{Platform}
use singbox_operator.Api.Objects.{
  SingBoxNode, ExternalOutbound, User, EgressPolicy, has_role, role_inbound, role_outbound,
}
use singbox_operator.Engine.Types.{NameSet, UserCredential}
use singbox_operator.Controllers.Client.{Client, Got, found, not_found, failed}
use singbox_operator.Controllers.Collect.{name_set}
use singbox_operator.Controllers.Credentials.{Secrets, get_user_credential}
use singbox_operator.ApiServer.Targets.{ClientConfigInput, policy_only_egresses}
use singbox_operator.ApiServer.Endpoints.{is_sing_box_node_ready}
use singbox_operator.ApiServer.Config.{ClientConfig, entries, build_client_config}
use singbox_operator.ApiServer.Encoded.{json_of_entry}
use singbox_operator.ApiServer.Json.{Json}
use singbox_operator.ApiServer.Template.{merge_client_config}
use singbox_operator.ApiServer.Default.{default_template}
use singbox_operator.ApiServer.Requests.{request_of, is_uuid, equal_fold}

pub data Response : Type 0 where
  status_not_found status_bad_request status_internal_error : Response
  status_ok : StringMap Json → Response

pub record Server : Type 0 where
  pub client : Client
  -- The data of a ConfigMap.
  pub get_config_map : String → String → Got (StringMap String)
  pub template_ref : String
  -- json.Unmarshal into a map.
  pub decode : String → Option (StringMap Json)
  -- netip.ParseAddr
  pub parses_addr : String → Bool

pub record Matched : Type 0 where
  pub user : User
  pub cred : UserCredential

-- The loop over the users, with the one that matched so far.
unfoldable pub match_user : Secrets → String → Option Matched → List User → Option Matched
match_user secrets uuid so_far [] = so_far
match_user secrets uuid so_far (u ∷ us) = elim (get_user_credential secrets u) [
  | none ↦ match_user secrets uuid so_far us
  | some cred ↦ elim (equal_fold cred.uuid uuid) [
    | false ↦ match_user secrets uuid so_far us
    | true ↦ elim so_far [
      | some m ↦ some m
      | none ↦ match_user secrets uuid (some (record { user = u; cred = cred })) us
    ]
  ]
]

abbrev pub by_name {ℓ} : {A : Type ℓ} → (A → String) → List A → StringMap A → StringMap A
by_name name [] m = m
by_name name (x ∷ xs) m = by_name name xs (insert (name x) x m)

-- The names that the user's group allows and denies; `none` is an error.
unfoldable pub group_sets : Client → String → User → Option (NameSet × NameSet)
group_sets c namespace user =
    if user.spec.user_group_ref == ""
    then some ([], [])
    else elim (c.get_group namespace user.spec.user_group_ref) [
      | not_found ↦ some ([], [])
      | failed ↦ none
      | found g ↦ some (name_set g.allowed_nodes [], name_set g.denied_nodes [])
    ]

abbrev pub input_of :
    Platform
    → Matched
    → List SingBoxNode
    → List ExternalOutbound
    → List EgressPolicy
    → NameSet × NameSet
    → ClientConfigInput
input_of p m nodes externals policies (allowed, denied) = record {
  user = m.user;
  egress_policies = policies;
  user_cred = m.cred;
  inbound_nodes = keep (λ n. has_role n role_inbound) nodes;
  routes_by_inbound = [];
  outbounds_by_name = by_name (λ n. n.name) (keep (λ n. has_role n role_outbound) nodes) [];
  external_outbounds_by_name = by_name (λ e. e.name) externals [];
  external_outbounds = externals;
  offline_node_names =
      name_set (map (λ n. n.name) (keep (λ n. not (is_sing_box_node_ready n)) nodes)) [];
  allowed_node_names = allowed;
  denied_node_names = denied;
  policy_only_egress_names = name_set (policy_only_egresses p nodes externals policies) [];
}

abbrev is_slash : Char → Bool
is_slash c = nat_eq (code c) b'/'

abbrev config_json : Got (StringMap String) → String
config_json not_found = default_template
config_json failed = default_template
config_json (found contents) = elim (lookup "config.json" contents) [
  | none ↦ default_template
  | some t ↦ t
]

-- The text of the template.
unfoldable pub template_of : Server → String
template_of s =
    if s.template_ref == "" then default_template else elim (cut_at is_slash s.template_ref) [
      | none ↦ default_template
      | some (namespace, name) ↦ config_json (s.get_config_map namespace name)
    ]

abbrev pub merged_response : Option (StringMap Json) → Response
merged_response none = status_internal_error
merged_response (some m) = status_ok m

abbrev pub merge_template : Platform → Server → ClientConfigInput → ClientConfig → Response
merge_template p s input cfg = elim (s.decode (template_of s)) [
  | none ↦ status_internal_error
  | some t ↦
      merged_response
        (merge_client_config p s.parses_addr t (map json_of_entry (entries cfg)) input)
]

abbrev pub respond : Platform → Server → ClientConfigInput → Response
respond p s input = elim (build_client_config p input) [
  | none ↦ status_internal_error
  | some cfg ↦ merge_template p s input cfg
]

-- The input for a user, or an error.
unfoldable pub client_config_input : Platform → Client → String → Matched → Option ClientConfigInput
unfolding group_sets
client_config_input p c namespace m = do
  nodes ← c.list_nodes namespace
  externals ← c.list_externals namespace
  policies ← c.list_policies namespace
  sets ← group_sets c namespace m.user
  some (input_of p m nodes externals policies sets)

abbrev pub serve : Platform → Server → String → Option Matched → Response
serve p s namespace none = status_not_found
serve p s namespace (some m) = elim (client_config_input p s.client namespace m) [
  | none ↦ status_internal_error
  | some input ↦ respond p s input
]

abbrev pub handle_request : Platform → Server → Option (String × String) → Response
handle_request p s none = status_not_found
handle_request p s (some (namespace, uuid)) =
    if not (is_uuid uuid) then status_bad_request else elim (s.client.list_users namespace) [
      | none ↦ status_internal_error
      | some users ↦ serve p s namespace (match_user s.client.get_secret uuid none users)
    ]

unfoldable pub handle_client_config : Platform → Server → String → Response
handle_client_config p s path = handle_request p s (request_of path)
