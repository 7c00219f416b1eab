-- ===== src/Controllers/Status.antt =====
-- The status of a SingBoxNode: updateStatus, setDegraded, needsTLS and resolveTLSServerName of
-- internal/controller/singboxnode_controller.go. Reading a certificate is a parameter.
use singbox_operator.Base.{
  String, join, Bool, not, ◌||◌, Option, none, some, List, map, any, find, StringMap, lookup_or,
  decimal, ◌==◌, if◌then◌else◌,
}
use singbox_operator.Api.Objects.{ProtocolConfig, SingBoxNodeSpec, SingBoxNode}
use singbox_operator.Api.Conditions.{StatusConditions}
use singbox_operator.Controllers.Client.{Got, found, not_found, failed}
use singbox_operator.Controllers.Credentials.{Secrets}

unfoldable pub needs_tls : SingBoxNode → Bool
needs_tls node =
    any
      (λ p.
        p.protocol == "hysteria2"
        || p.protocol == "tuic"
        || p.protocol == "naive"
        || p.protocol == "anytls")
      node.spec.supported_protocols

-- The DNS names of the first certificate of a PEM text; `none` if it has no block or does not parse.
abbrev pub ReadCertificate : Type 0
ReadCertificate = String → Option (List String)

abbrev pub first_name : Option (List String) → String
first_name none = ""
first_name (some names) = elim (find (λ n. not (n == "")) names) [ none ↦ "" | some n ↦ n ]

abbrev pub server_name_in : ReadCertificate → Got (StringMap String) → String
server_name_in read not_found = ""
server_name_in read failed = ""
server_name_in read (found contents) =
    let cert = lookup_or "" "tls.crt" contents in if cert == "" then "" else first_name (read cert)

abbrev pub tls_secret : String → SingBoxNode → String
tls_secret default node =
    if node.spec.tls_secret_name == "" then default else node.spec.tls_secret_name

unfoldable pub resolve_tls_server_name : ReadCertificate → Secrets → String → SingBoxNode → String
unfolding needs_tls
resolve_tls_server_name read secrets default node =
    if not (needs_tls node)
    then ""
    else if tls_secret default node == ""
    then ""
    else server_name_in read (secrets node.namespace (tls_secret default node))

-- `%s:%s:%d`
abbrev pub entry_endpoint : String → ProtocolConfig → String
entry_endpoint address p = join p.protocol (join ":" (join address (join ":" (decimal p.port))))

unfoldable pub entry_endpoints : SingBoxNodeSpec → List String
entry_endpoints spec = map (entry_endpoint spec.address) spec.supported_protocols

-- The object that is sent to the API server; `none` if the latest one cannot be read.
unfoldable pub update_status :
    StatusConditions
    → ReadCertificate
    → Secrets
    → String
    → String
    → Got SingBoxNode
    → Option SingBoxNode
update_status sc read secrets default hash not_found = none
update_status sc read secrets default hash failed = none
update_status sc read secrets default hash (found latest) = some (record latest {
  status = record latest.status {
    phase = "Running";
    config_hash = hash;
    entry_endpoints = entry_endpoints latest.spec;
    tls_server_name = resolve_tls_server_name read secrets default latest;
    conditions =
        sc.set latest.status.conditions
          (record { type = "Ready"; status = "True"; reason = "Reconciled" });
  };
})

unfoldable pub set_degraded : StatusConditions → String → Got SingBoxNode → Option SingBoxNode
set_degraded sc reason not_found = none
set_degraded sc reason failed = none
set_degraded sc reason (found latest) = some (record latest {
  status = record latest.status {
    phase = "Failed";
    conditions =
        sc.set latest.status.conditions
          (record { type = "Degraded"; status = "True"; reason = reason });
  };
})
