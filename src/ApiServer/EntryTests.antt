-- ===== src/ApiServer/EntryTests.antt =====
-- The endpoints of a status on small inputs, and their theorems at them.
use singbox_operator.Base.{arith, true, some, none, List, [], ◌∷◌, ◌≡◌, refl, decimal, pos, String}
use singbox_operator.Api.Objects.{SingBoxNode}
use singbox_operator.Engine.Types.{find_protocol_port}
use singbox_operator.Controllers.Client.{found, not_found}
use singbox_operator.Controllers.Status.{update_status, entry_endpoints, resolve_tls_server_name}
use singbox_operator.ApiServer.Endpoints.{find_entry_endpoint, supports_protocol}
use singbox_operator.ApiServer.Reached.{find_entry_endpoint-update_status}
use singbox_operator.ApiServer.Unreached.{update_status-find_entry_endpoint}
use singbox_operator.Samples.{entry_node, status_conditions}

-- A node after its status is written, for its two protocols.
abbrev both_protocols : SingBoxNode
both_protocols = record entry_node {
  spec = record entry_node.spec {
    supported_protocols =
        record { protocol = "socks5"; port = 1080 }
        ∷ record { protocol = "hysteria2"; port = 443 }
        ∷ [];
  };
}

abbrev running : SingBoxNode → List String → SingBoxNode
running n endpoints = record n {
  status = record n.status {
    phase = "Running";
    config_hash = "hash";
    entry_endpoints = endpoints;
    conditions = record { type = "Ready"; status = "True"; reason = "Reconciled" } ∷ [];
  };
}

abbrev running_both : SingBoxNode
running_both = running both_protocols ("socks5:1.2.3.4:1080" ∷ "hysteria2:1.2.3.4:443" ∷ [])

written_both :
    update_status status_conditions
      (λ pem. none)
      (λ ns n. not_found)
      ""
      "hash"
      (found both_protocols)
    ≡ some running_both
unfolding update_status entry_endpoints resolve_tls_server_name decimal
written_both = refl

supported : supports_protocol both_protocols "hysteria2" ≡ true
unfolding supports_protocol
supported = refl

find_entry_endpoint-update_status_example :
    find_entry_endpoint running_both.status.entry_endpoints "hysteria2"
    ≡ some
        (record { address = "1.2.3.4"; port = pos (find_protocol_port both_protocols "hysteria2") })
find_entry_endpoint-update_status_example =
    find_entry_endpoint-update_status status_conditions (λ pem. none) (λ ns n. not_found) "" "hash"
      both_protocols running_both "hysteria2" written_both refl
      ((refl, omega arith), ((refl, omega arith), tt)) supported

abbrev six : SingBoxNode
six = record entry_node { spec = record entry_node.spec { address = "2001:db8::1" } }

abbrev running_six : SingBoxNode
running_six = running six ("hysteria2:2001:db8::1:443" ∷ [])

written_six :
    update_status status_conditions (λ pem. none) (λ ns n. not_found) "" "hash" (found six)
    ≡ some running_six
unfolding update_status entry_endpoints resolve_tls_server_name decimal
written_six = refl

update_status-find_entry_endpoint_example :
    find_entry_endpoint running_six.status.entry_endpoints "hysteria2" ≡ none
update_status-find_entry_endpoint_example =
    update_status-find_entry_endpoint status_conditions (λ pem. none) (λ ns n. not_found) "" "hash"
      six running_six "hysteria2" written_six refl (refl, tt)
