-- ===== src/ApiServer/Outbounds.antt =====
-- buildProxyOutbound: internal/apiserver/client_config.go.
use singbox_operator.Base.{ℤ, String, Bool, true, ◌||◌, [], ◌∷◌, insert, ◌==◌, if◌then◌else◌}
use singbox_operator.Api.Platform.{Platform}
use singbox_operator.Engine.Types.{
  Account, Entry, UserCredential, string, scalar, integer, object, flag, text, virtual_user_name,
}
use singbox_operator.Engine.Auth.{derive_auth}

-- `maps.Copy(ob, auth)`
abbrev pub copy_auth : Account → Entry → Entry
copy_auth [] ob = ob
copy_auth ((k, v) ∷ auth) ob = copy_auth auth (insert k (string v) ob)

abbrev pub proxy_fields : String → String → String → ℤ → Entry
proxy_fields type tag address port =
    ("type", string type)
    ∷ ("tag", string tag)
    ∷ ("server", string address)
    ∷ ("server_port", scalar (integer port))
    ∷ []

abbrev pub uses_tls : String → Bool
uses_tls protocol =
    protocol == "hysteria2" || protocol == "naive" || protocol == "anytls" || protocol == "tuic"

-- A naive inbound knows its users by their virtual names.
abbrev pub with_username : Bool → String → Entry → Entry
with_username naive name ob = if naive then insert "username" (string name) ob else ob

abbrev pub with_tls : Bool → String → Entry → Entry
with_tls tls server_name ob =
    if tls
    then insert "tls"
        (object (
          ("enabled", flag true)
          ∷ (if server_name == ""
              then ("insecure", flag true)
              else ("server_name", text server_name))
          ∷ []))
        ob
    else ob

unfoldable pub build_proxy_outbound :
    Platform → String → String → ℤ → String → String → String → String → UserCredential → Entry
unfolding virtual_user_name
build_proxy_outbound p tag address port protocol user_name target tls_server_name cred =
    with_tls (uses_tls protocol) tls_server_name (
      with_username (protocol == "naive") (virtual_user_name user_name target) (
        copy_auth (derive_auth p protocol cred.uuid target)
          (proxy_fields (if protocol == "socks5" then "socks" else protocol) tag address port)))
