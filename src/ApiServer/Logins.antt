-- ===== src/ApiServer/Logins.antt =====
-- The credentials that a client sends, and the accounts that the engine puts into the inbound.
use mathlib.Core.Path.{subst}
use singbox_operator.Base.{
  ℤ, String, some, ◌==◌, ◌≡◌, refl, ap, ◌∙◌, ◌⊎◌, Bool, true, false, ◌||◌, [], ◌∷◌, lookup-insert,
  lookup, lookup_or, Bool-cases, inl, inr, insert, if◌then◌else◌,
}
use singbox_operator.Api.Platform.{Platform}
use singbox_operator.Api.Objects.{User}
use singbox_operator.Engine.Types.{
  Account, Input, Entry, Value, UserCredential, as_text, tag_of, virtual_user_name,
}
use singbox_operator.Engine.Auth.{derive_auth, derive_password, derive_uuid}
use singbox_operator.Engine.Inbounds.{account}
use singbox_operator.ApiServer.Outbounds.{
  copy_auth, proxy_fields, with_username, with_tls, uses_tls, build_proxy_outbound,
}

-- A text field of an outbound, empty if it has none.
abbrev pub text_of : String → Entry → String
text_of field entry = as_text (lookup field entry)

abbrev pub SameLogin : Entry → Account → Type 0
SameLogin ob a =
    (text_of "password" ob ≡ lookup_or "" "password" a)
    × (text_of "uuid" ob ≡ lookup_or "" "uuid" a)
    × (text_of "username" ob ≡ lookup_or "" "username" a)

text_of-insert :
    (field key : String) (v : Value) (ob : Entry)
    → key == field ≡ false
    → text_of field (insert key v ob) ≡ text_of field ob
text_of-insert field key v ob other =
    let kept : lookup field (insert key v ob) ≡ lookup field ob =
      lookup-insert key field v ob ∙ ap (λ b. if b then some v else lookup field ob) other in
    ap as_text kept

SameLogin-with_tls :
    (tls : Bool) (server_name : String) (ob : Entry) (a : Account)
    → SameLogin ob a
    → SameLogin (with_tls tls server_name ob) a
SameLogin-with_tls false server_name ob a same = same
SameLogin-with_tls true server_name ob a (password, uuid, username) = (
  text_of-insert "password" "tls" _ ob refl ∙ password,
  text_of-insert "uuid" "tls" _ ob refl ∙ uuid,
  text_of-insert "username" "tls" _ ob refl ∙ username,
)

-- What the credentials of a protocol are.
abbrev IsAuth : Account → Type 0
IsAuth a =
    (s : String) × (t : String) × ((a ≡ ("password", s) ∷ [])
      ⊎ ((a ≡ ("uuid", s) ∷ [])
          ⊎ ((a ≡ ("username", s) ∷ ("password", t) ∷ [])
              ⊎ (a ≡ ("uuid", s) ∷ ("password", t) ∷ []))))

derive_auth-IsAuth :
    (p : Platform) (protocol uuid target : String) → IsAuth (derive_auth p protocol uuid target)
unfolding derive_auth
derive_auth-IsAuth p protocol uuid target =
    let password = derive_password p uuid target in
    elim (Bool-cases (protocol == "hysteria2" || protocol == "trojan")) [
      | inl t ↦ rw t (password, "", inl refl)
      | inr f ↦ rw f (elim (Bool-cases (protocol == "vless")) [
        | inl t ↦ rw t (derive_uuid p uuid target, "", inr (inl refl))
        | inr g ↦
            rw g
              (elim (Bool-cases
                (protocol == "socks5" || protocol == "http" || protocol == "naive")) [
                  | inl t ↦ rw t (uuid, password, inr (inr (inl refl)))
                  | inr h ↦ rw h (elim (Bool-cases (protocol == "tuic")) [
                    | inl t ↦ rw t (derive_uuid p uuid target, password, inr (inr (inr refl)))
                    | inr i ↦ rw i (password, "", inl refl)
                  ])
                ])
      ])
    ]

-- Copied over the fields of an outbound, credentials are what an account with them holds.
SameLogin-copy_auth :
    (naive : Bool) (name type tag address : String) (port : ℤ) (a : Account)
    → IsAuth a
    → SameLogin
        (with_username naive name (copy_auth a (proxy_fields type tag address port)))
        (insert (if naive then "username" else "name") name a)
SameLogin-copy_auth true name type tag address port a (s, t, inl e) = rw e (refl, refl, refl)
SameLogin-copy_auth true name type tag address port a (s, t, inr (inl e)) = rw e (refl, refl, refl)
SameLogin-copy_auth true name type tag address port a (s, t, inr (inr (inl e))) =
    rw e (refl, refl, refl)
SameLogin-copy_auth true name type tag address port a (s, t, inr (inr (inr e))) =
    rw e (refl, refl, refl)
SameLogin-copy_auth false name type tag address port a (s, t, inl e) = rw e (refl, refl, refl)
SameLogin-copy_auth false name type tag address port a (s, t, inr (inl e)) = rw e (refl, refl, refl)
SameLogin-copy_auth false name type tag address port a (s, t, inr (inr (inl e))) =
    rw e (refl, refl, refl)
SameLogin-copy_auth false name type tag address port a (s, t, inr (inr (inr e))) =
    rw e (refl, refl, refl)

tag_of-with_tls :
    (tls : Bool) (server_name : String) (ob : Entry)
    → tag_of (with_tls tls server_name ob) ≡ tag_of ob
tag_of-with_tls false server_name ob = refl
tag_of-with_tls true server_name ob = text_of-insert "tag" "tls" _ ob refl

tag_of-with_username :
    (naive : Bool) (name : String) (ob : Entry) → tag_of (with_username naive name ob) ≡ tag_of ob
tag_of-with_username false name ob = refl
tag_of-with_username true name ob = text_of-insert "tag" "username" _ ob refl

tag_of-copy_auth :
    (type tag address : String) (port : ℤ) (a : Account)
    → IsAuth a
    → tag_of (copy_auth a (proxy_fields type tag address port)) ≡ tag
tag_of-copy_auth type tag address port a (s, t, inl e) = rw e refl
tag_of-copy_auth type tag address port a (s, t, inr (inl e)) = rw e refl
tag_of-copy_auth type tag address port a (s, t, inr (inr (inl e))) = rw e refl
tag_of-copy_auth type tag address port a (s, t, inr (inr (inr e))) = rw e refl

pub tag_of-build_proxy_outbound :
    (p : Platform) (tag address : String) (port : ℤ) (protocol user target server_name : String)
    (cred : UserCredential)
    → tag_of (build_proxy_outbound p tag address port protocol user target server_name cred) ≡ tag
unfolding build_proxy_outbound
tag_of-build_proxy_outbound p tag address port protocol user target server_name cred =
    let type = if protocol == "socks5" then "socks" else protocol in
    let name = virtual_user_name user target in
    let auth = derive_auth p protocol cred.uuid target in
    let ob = copy_auth auth (proxy_fields type tag address port) in
    tag_of-with_tls (uses_tls protocol) server_name (with_username (protocol == "naive") name ob)
    ∙ (tag_of-with_username (protocol == "naive") name ob
        ∙ tag_of-copy_auth type tag address port auth
            (derive_auth-IsAuth p protocol cred.uuid target))

-- The password, the UUID and the user name that a client sends to reach a target, are those of the
-- account that the engine makes for the user and the target, of the same protocol and from the
-- same credential.
pub build_proxy_outbound-account :
    (p : Platform) (input : Input) (u : User) (cred : UserCredential) (tag address : String)
    (port : ℤ) (protocol target tls_server_name : String)
    → lookup u.name input.user_creds ≡ some cred
    → SameLogin
        (build_proxy_outbound p tag address port protocol u.name target tls_server_name cred)
        (account p input protocol u target (virtual_user_name u.name target))
unfolding build_proxy_outbound
build_proxy_outbound-account p input u cred tag address port protocol target tls_server_name known =
    let held : lookup_or (record { uuid = "" }) u.name input.user_creds ≡ cred =
      rw (lookup_or, known) in
    let type = if protocol == "socks5" then "socks" else protocol in
    let name = virtual_user_name u.name target in
    let own = lookup_or (record { uuid = "" }) u.name input.user_creds in
    let auth = derive_auth p protocol own.uuid target in
    subst
      (λ x.
        SameLogin (build_proxy_outbound p tag address port protocol u.name target tls_server_name x)
          (account p input protocol u target name))
      held
      (SameLogin-with_tls (uses_tls protocol) tls_server_name
        (with_username (protocol == "naive") name
          (copy_auth auth (proxy_fields type tag address port)))
        (account p input protocol u target name)
        (SameLogin-copy_auth (protocol == "naive") name type tag address port auth
          (derive_auth-IsAuth p protocol own.uuid target)))
