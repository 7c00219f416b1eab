-- ===== src/Controllers/Externals.antt =====
-- internal/controller/externaloutbound_controller.go
use singbox_operator.Base.{
  String, Bool, true, false, not, ◌&&◌, ◌||◌, Option, none, some, List, [], ◌∷◌, StringMap,
  lookup_or, contains, find, ◌==◌, if◌then◌else◌,
}
use singbox_operator.Api.Objects.{ExternalOutbound, ExternalOutboundTls}
use singbox_operator.Webhooks.Externals.{is_set}
use singbox_operator.Engine.Policies.{wants_obfs}
use singbox_operator.Controllers.Client.{found, not_found, failed, Client}

-- The reason of a violation, or of the condition.
abbrev pub Reason : Type 0
Reason = String

abbrev pub violation_if : Bool → Reason → Option Reason → Option Reason
violation_if b r rest = if b then some r else rest

-- The two cases of the switch on the protocol.
unfoldable pub tls_violation : String → Option ExternalOutboundTls → Bool
tls_violation protocol tls =
    if protocol == "trojan" || protocol == "hysteria2" || protocol == "tuic" || protocol == "anytls"
    then elim tls [ none ↦ true | some t ↦ t.server_name == "" && not t.insecure ]
    else if protocol == "socks5" || protocol == "shadowsocks"
    then is_set tls
    else false

unfoldable pub spec_violation : ExternalOutbound → Option Reason
spec_violation eob =
    let protocol = eob.spec.protocol in
    violation_if (tls_violation protocol eob.spec.tls) "InvalidSpec" (
      violation_if (is_set eob.spec.hysteria2 && not (protocol == "hysteria2")) "InvalidSpec" (
        violation_if
          (not (is_set eob.spec.credentials_secret_ref)
            && not (protocol == "socks5")
            && not (protocol == "http"))
          "InvalidSpec" none))

unfoldable pub required_credential_keys : ExternalOutbound → List String
required_credential_keys eob =
    let protocol = eob.spec.protocol in
    if protocol == "shadowsocks"
    then "method" ∷ "password" ∷ []
    else if protocol == "trojan" || protocol == "anytls"
    then "password" ∷ []
    else if protocol == "hysteria2"
    then "password" ∷ (if wants_obfs eob.spec.hysteria2 then "obfsPassword" ∷ [] else [])
    else if protocol == "tuic"
    then "uuid" ∷ "password" ∷ []
    else []

abbrev pub valid_shadowsocks_methods : List String
valid_shadowsocks_methods =
    "aes-128-gcm" ∷ "aes-256-gcm" ∷ "chacha20-ietf-poly1305" ∷ "xchacha20-ietf-poly1305"
    ∷ "2022-blake3-aes-128-gcm" ∷ "2022-blake3-aes-256-gcm" ∷ "2022-blake3-chacha20-poly1305"
    ∷ "none" ∷ []

abbrev pub is_unset : StringMap String → String → Bool
is_unset contents key = lookup_or "" key contents == ""

-- The checks on the data of a Secret.
unfoldable pub data_violation : ExternalOutbound → StringMap String → Option Reason
data_violation eob contents =
    let protocol = eob.spec.protocol in
    if protocol == "socks5" || protocol == "http"
    then (if is_unset contents "username" && not (is_unset contents "password")
          || not (is_unset contents "username") && is_unset contents "password"
        then some "SecretKeyMissing"
        else none)
    else elim (find (is_unset contents) (required_credential_keys eob)) [
      | some key ↦ some "SecretKeyMissing"
      | none ↦
          if protocol == "shadowsocks"
            && not (contains valid_shadowsocks_methods (lookup_or "" "method" contents))
          then some "InvalidMethod"
          else none
    ]

-- The results of the checks that ask the client: `failed_call` is an error of the client.
pub data Checked : Type 0 where
  failed_call : Checked
  checked : Option Reason → Checked

unfoldable pub name_conflict : Client → ExternalOutbound → Checked
name_conflict c eob = elim (c.get_node eob.namespace eob.name) [
  | found n ↦ checked (some "NameConflict")
  | not_found ↦ checked none
  | failed ↦ failed_call
]

unfoldable pub credential_violation : Client → ExternalOutbound → Checked
credential_violation c eob = elim eob.spec.credentials_secret_ref [
  | none ↦ checked none
  | some ref ↦ elim (c.get_secret eob.namespace ref) [
    | found contents ↦ checked (data_violation eob contents)
    | not_found ↦ checked (some "SecretNotFound")
    | failed ↦ failed_call
  ]
]

-- The next check, if the checks before found no violation.
abbrev pub and_then : Checked → Checked → Checked
and_then failed_call next = failed_call
and_then (checked (some r)) next = checked (some r)
and_then (checked none) next = next

-- Reconcile, up to the update of the status: `checked none` sets the Accepted condition to True,
-- `checked (some reason)` to False.
unfoldable pub reconcile : Client → ExternalOutbound → Checked
reconcile c eob =
    and_then (and_then (checked (spec_violation eob)) (name_conflict c eob))
      (credential_violation c eob)
