-- ===== src/Engine/Externals.antt =====
-- External outbounds in the engine (engine.go: resolveExternalOutbounds and
-- externalNameCollidesWithNode, buildExternalOutbounds, buildExternalOutboundEntry,
-- externalTLSEntry).
use singbox_operator.Base.{
  ℕ, String, Bool, true, false, not, ◌||◌, Option, none, some, List, [], ◌∷◌, ◌++◌, map, lookup,
  lookup_or, insert, if◌then◌else◌, ◌==◌, ltb, contains, any, StringMap,
}
use singbox_operator.Api.Objects.{
  ExternalOutbound, ExternalOutboundTls, Hysteria2Options, CustomRoute, effective_outbound_kind,
  kind_external_outbound,
}
use singbox_operator.Engine.Types.{
  Input, ExternalCredential, Scalar, text, number, flag, scalar, object, Entry, string,
  outbound_tag,
}
use singbox_operator.Engine.Policies.{has_required_external_creds, creds_of}

abbrev pub is_some {ℓ} : {A : Type ℓ} → Option A → Bool
is_some none = false
is_some (some a) = true

unfoldable pub external_name_collides_with_node : Input → String → Bool
external_name_collides_with_node input name =
    name == input.node.name
    || is_some (lookup name input.outbound_nodes_by_name)
    || any (λ n. n.name == name) input.outbound_nodes

-- The local state of resolveExternalOutbounds.
pub record Resolved : Type 0 where
  pub seen : List String
  pub result : List ExternalOutbound

module _ (input : Input) where
  -- The closure `add`, for an outbound that is not nil.
  unfoldable pub add : Resolved → ExternalOutbound → Resolved
  add r eob =
      if contains r.seen eob.name
      then r
      else if external_name_collides_with_node input eob.name
          || not (has_required_external_creds eob (creds_of input eob.name))
      then record r { seen = eob.name ∷ r.seen }
      else record { seen = eob.name ∷ r.seen; result = r.result ++ eob ∷ [] }

  unfoldable pub add_all : List ExternalOutbound → Resolved → Resolved
  add_all [] r = r
  add_all (eob ∷ eobs) r = add_all eobs (add r eob)

  -- The outbounds that the routes to external outbounds name, where they are known.
  abbrev pub routed_externals : List CustomRoute → List ExternalOutbound
  routed_externals [] = []
  routed_externals (r ∷ rs) =
      if effective_outbound_kind r == kind_external_outbound
      then elim (lookup r.outbound_node input.external_outbounds_by_name) [
        | none ↦ routed_externals rs
        | some eob ↦ eob ∷ routed_externals rs
      ]
      else routed_externals rs

  -- First the list of discovered outbounds, then those of the routes.
  unfoldable pub resolve_external_outbounds : List CustomRoute → List ExternalOutbound
  resolve_external_outbounds routes =
      (add_all (routed_externals routes)
        (add_all input.external_outbounds (record { seen = []; result = [] }))).result

unfoldable pub external_tls_entry : Option ExternalOutboundTls → StringMap Scalar
external_tls_entry none = ("enabled", flag true) ∷ []
external_tls_entry (some tls) =
    let enabled : StringMap Scalar = ("enabled", flag true) ∷ [] in
    let named =
      if tls.server_name == ""
      then enabled
      else insert "server_name" (text tls.server_name) enabled in
    if tls.insecure then insert "insecure" (flag true) named else named

-- `if v := creds[key]; v != "" { entry[key] = v }`
abbrev set_if_given : String → ExternalCredential → Entry → Entry
set_if_given key creds entry =
    if lookup_or "" key creds == ""
    then entry
    else insert key (string (lookup_or "" key creds)) entry

abbrev set_cred : String → ExternalCredential → Entry → Entry
set_cred key creds entry = insert key (string (lookup_or "" key creds)) entry

abbrev set_if_positive : String → ℕ → Entry → Entry
set_if_positive key n entry = if ltb 0 n then insert key (scalar (number n)) entry else entry

abbrev set_tls : Option ExternalOutboundTls → Entry → Entry
set_tls tls entry = insert "tls" (object (external_tls_entry tls)) entry

abbrev set_hysteria2 : Option Hysteria2Options → ExternalCredential → Entry → Entry
set_hysteria2 none creds entry = entry
set_hysteria2 (some h) creds entry =
    let speeds =
      set_if_positive "down_mbps" h.down_mbps (set_if_positive "up_mbps" h.up_mbps entry) in
    if h.obfs
    then insert "obfs"
        (object (
          ("type", text "salamander")
          ∷ ("password", text (lookup_or "" "obfsPassword" creds))
          ∷ []))
        speeds
    else speeds

-- The fields that the protocol adds.
unfoldable pub protocol_fields : ExternalOutbound → ExternalCredential → Entry → Entry
unfolding external_tls_entry
protocol_fields eob creds entry =
    let protocol = eob.spec.protocol in
    let typed = λ (t : String). insert "type" (string t) entry in
    if protocol == "socks5"
    then set_if_given "password" creds
        (set_if_given "username" creds (insert "version" (string "5") (typed "socks")))
    else if protocol == "http"
    then (let given =
          set_if_given "password" creds (set_if_given "username" creds (typed "http")) in
        elim eob.spec.tls [ none ↦ given | some tls ↦ set_tls (some tls) given ])
    else if protocol == "shadowsocks"
    then set_cred "password" creds (set_cred "method" creds (typed "shadowsocks"))
    else if protocol == "trojan"
    then set_tls eob.spec.tls (set_cred "password" creds (typed "trojan"))
    else if protocol == "hysteria2"
    then set_tls eob.spec.tls
        (set_hysteria2 eob.spec.hysteria2 creds (set_cred "password" creds (typed "hysteria2")))
    else if protocol == "tuic"
    then set_tls eob.spec.tls (set_cred "password" creds (set_cred "uuid" creds (typed "tuic")))
    else if protocol == "anytls"
    then set_tls eob.spec.tls (set_cred "password" creds (typed "anytls"))
    else entry

unfoldable pub build_external_outbound_entry : ExternalOutbound → ExternalCredential → Entry
unfolding protocol_fields
build_external_outbound_entry eob creds = protocol_fields eob creds (
    ("tag", string (outbound_tag eob.name))
    ∷ ("server", string eob.spec.server)
    ∷ ("server_port", scalar (number eob.spec.port))
    ∷ [])

unfoldable pub build_external_outbounds : Input → List CustomRoute → List Entry
unfolding resolve_external_outbounds build_external_outbound_entry
build_external_outbounds input routes =
    map (λ e. build_external_outbound_entry e (creds_of input e.name))
      (resolve_external_outbounds input routes)
