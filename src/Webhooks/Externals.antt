-- ===== src/Webhooks/Externals.antt =====
-- internal/webhook/v1alpha1/externaloutbound_webhook.go
use singbox_operator.Base.{
  String, Bool, true, false, not, ◌&&◌, ◌||◌, Option, none, some, List, ◌++◌, ◌==◌, if◌then◌else◌,
}
use singbox_operator.Api.Objects.{ExternalOutbound, ExternalOutboundTls}
use singbox_operator.Webhooks.Errors.{field, FieldError, required, forbidden, report}

-- The cases of the switch: protocols on TLS, and protocols without it.
abbrev pub needs_tls : String → Bool
needs_tls protocol =
    protocol == "trojan" || protocol == "hysteria2" || protocol == "tuic" || protocol == "anytls"

abbrev pub forbids_tls : String → Bool
forbids_tls protocol = protocol == "socks5" || protocol == "shadowsocks"

abbrev pub is_set {ℓ} : {A : Type ℓ} → Option A → Bool
is_set none = false
is_set (some a) = true

abbrev pub unnamed : ExternalOutboundTls → Bool
unnamed tls = tls.server_name == "" && not tls.insecure

unfoldable pub tls_errors : String → Option ExternalOutboundTls → List FieldError
tls_errors protocol none = report (needs_tls protocol) (required (field "spec.tls"))
tls_errors protocol (some tls) =
    if needs_tls protocol
    then report (unnamed tls) (required (field "spec.tls.serverName"))
    else report (forbids_tls protocol) (forbidden (field "spec.tls"))

unfoldable pub validate_external_outbound : ExternalOutbound → List FieldError
validate_external_outbound eob =
    let protocol = eob.spec.protocol in
    tls_errors protocol eob.spec.tls
    ++ report (is_set eob.spec.hysteria2 && not (protocol == "hysteria2"))
        (forbidden (field "spec.hysteria2"))
    ++ report
        (not (is_set eob.spec.credentials_secret_ref)
          && not (protocol == "socks5")
          && not (protocol == "http"))
        (required (field "spec.credentialsSecretRef"))
