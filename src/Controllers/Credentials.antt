-- ===== src/Controllers/Credentials.antt =====
-- internal/credmanager/credmanager.go. `none` is an error.
use singbox_operator.Base.{
  String, join, Bool, not, ◌&&◌, Option, none, some, [], ◌∷◌, StringMap, lookup_or, keep, ◌==◌,
  if◌then◌else◌,
}
use singbox_operator.Api.Objects.{SingBoxNode, ExternalOutbound, User}
use singbox_operator.Engine.Types.{UserCredential, NodeCredential, ExternalCredential}
use singbox_operator.Controllers.Client.{Got, found, not_found, failed}

-- The Secrets of the cluster, by namespace and name.
abbrev pub Secrets : Type 0
Secrets = String → String → Got (StringMap String)

abbrev pub secret_name : String → String
secret_name node = join "singboxnode-" (join node "-relay-cred")

abbrev pub node_credential : StringMap String → NodeCredential
node_credential contents = record {
  username = lookup_or "" "username" contents;
  password = lookup_or "" "password" contents;
}

unfoldable pub get_node_credential : Secrets → String → String → Option NodeCredential
get_node_credential secrets name namespace = elim (secrets namespace (secret_name name)) [
  | found contents ↦ some (node_credential contents)
  | not_found ↦ none
  | failed ↦ none
]

-- A user's auth Secret; its namespace defaults to the user's.
unfoldable pub get_user_credential : Secrets → User → Option UserCredential
get_user_credential secrets user =
    let ref = user.spec.auth_secret_namespace in
    let namespace = if ref == "" then user.namespace else ref in
    elim (secrets namespace user.spec.auth_secret_name) [
      | found contents ↦ some (record { uuid = lookup_or "" "uuid" contents })
      | not_found ↦ none
      | failed ↦ none
    ]

-- The non-empty values of the referenced Secret; nothing where no Secret is referenced.
unfoldable pub get_external_credentials : Secrets → ExternalOutbound → Option ExternalCredential
get_external_credentials secrets eob = elim eob.spec.credentials_secret_ref [
  | none ↦ some []
  | some ref ↦ elim (secrets eob.namespace ref) [
    | found contents ↦ some (keep (λ v. not (v.1 == "")) contents)
    | not_found ↦ none
    | failed ↦ none
  ]
]

-- The Secrets after a Secret is created.
abbrev pub with_secret : String → String → StringMap String → Secrets → Secrets
with_secret ns name contents secrets =
    λ n k. if n == ns && k == name then found contents else secrets n k

-- What EnsureNodeCredential takes from outside: the generated user name, the password or the error
-- of the random source, and whether setting the owner and Create succeed.
pub record Outcomes : Type 0 where
  pub username : String
  pub password : Option String
  pub owned : Bool
  pub created : Bool

-- The credential, or an error, and the Secrets afterwards.
unfoldable pub ensure_node_credential :
    Outcomes → SingBoxNode → Secrets → Option NodeCredential × Secrets
ensure_node_credential o node secrets =
    let name = secret_name node.name in
    elim (secrets node.namespace name) [
      | found contents ↦ (some (node_credential contents), secrets)
      | failed ↦ (none, secrets)
      | not_found ↦ elim o.password [
        | none ↦ (none, secrets)
        | some password ↦
            let contents = ("username", o.username) ∷ ("password", password) ∷ [] in
            if o.owned && o.created
            then (
              some (record { username = o.username; password = password }),
              with_secret node.namespace name contents secrets,
            )
            else (none, secrets)
      ]
    ]
