-- ===== src/Api/Objects.antt =====
-- The resource types of api/v1alpha1. Of ObjectMeta the fields that the modelled code reads are
-- kept. Ports are natural numbers: the schemas admit 1 to 65535, and an unset port is 0.
use singbox_operator.Base.{ℕ, ℤ, String, Bool, Option, List, [], StringMap, if◌then◌else◌, ◌==◌}
use singbox_operator.Base.{contains}
use singbox_operator.Api.Platform.{Requirement}

abbrev pub role_inbound : String
role_inbound = "inbound"

abbrev pub role_outbound : String
role_outbound = "outbound"

pub record Condition : Type 0 where
  pub type : String
  pub status : String
  pub reason : String

pub record ProtocolConfig : Type 0 where
  pub protocol : String
  pub port : ℕ

pub record SingBoxNodeSpec : Type 0 where
  pub node_ref : String
  pub address : String
  pub region : String
  pub client_groups : List String
  pub roles : List String
  pub supported_protocols : List ProtocolConfig
  pub inbound_protocol : String
  pub relay_port : ℕ
  pub allowed_inbounds : List String
  pub allowed_outbounds : List String
  pub tag : String
  pub tls_secret_name : String

pub record SingBoxNodeStatus : Type 0 where
  pub phase : String
  pub config_hash : String
  pub entry_endpoints : List String
  pub tls_server_name : String
  pub conditions : List Condition

pub record SingBoxNode : Type 0 where
  pub name : String
  pub namespace : String
  pub labels : StringMap String
  pub spec : SingBoxNodeSpec
  pub status : SingBoxNodeStatus

-- The zero values, on which the test data is built.
abbrev pub no_spec : SingBoxNodeSpec
no_spec = record {
  node_ref = "";
  address = "";
  region = "";
  client_groups = [];
  roles = [];
  supported_protocols = [];
  inbound_protocol = "";
  relay_port = 0;
  allowed_inbounds = [];
  allowed_outbounds = [];
  tag = "";
  tls_secret_name = "";
}

pub record ExternalOutboundTls : Type 0 where
  pub server_name : String
  pub insecure : Bool

pub record Hysteria2Options : Type 0 where
  pub up_mbps : ℕ
  pub down_mbps : ℕ
  pub obfs : Bool

pub record ExternalOutboundSpec : Type 0 where
  pub protocol : String
  pub server : String
  pub port : ℕ
  -- The name in the reference to the credentials Secret.
  pub credentials_secret_ref : Option String
  pub tls : Option ExternalOutboundTls
  pub hysteria2 : Option Hysteria2Options
  pub region : String
  pub client_groups : List String
  pub allowed_inbounds : List String

pub record ExternalOutbound : Type 0 where
  pub name : String
  pub namespace : String
  pub labels : StringMap String
  pub spec : ExternalOutboundSpec

pub record UserSpec : Type 0 where
  pub auth_secret_name : String
  pub auth_secret_namespace : String
  pub user_group_ref : String

pub record User : Type 0 where
  pub name : String
  pub namespace : String
  pub spec : UserSpec

pub record UserGroup : Type 0 where
  pub name : String
  pub allowed_nodes : List String
  pub denied_nodes : List String

abbrev pub kind_singbox_node : String
kind_singbox_node = "SingBoxNode"

abbrev pub kind_external_outbound : String
kind_external_outbound = "ExternalOutbound"

pub record CustomRoute : Type 0 where
  pub name : String
  pub inbound_node : String
  pub outbound_node : String
  pub outbound_kind : String

abbrev pub effective_outbound_kind : CustomRoute → String
effective_outbound_kind r = if r.outbound_kind == "" then kind_singbox_node else r.outbound_kind

abbrev pub action_route : String
action_route = "route"

abbrev pub action_reject : String
action_reject = "reject"

pub record EgressPolicySelector : Type 0 where
  pub match_labels : StringMap String
  pub match_expressions : List Requirement
  pub match_names : List String

pub record EgressPolicyMatch : Type 0 where
  pub domain : List String
  pub domain_suffix : List String
  pub domain_regex : List String
  pub ip_cidr : List String
  pub rule_set : List String

pub record EgressPolicySpec : Type 0 where
  pub ingress_selector : EgressPolicySelector
  pub egress_selector : EgressPolicySelector
  pub match : EgressPolicyMatch
  pub action : String
  pub priority : ℤ
  pub fallback_action : String

pub record EgressPolicyStatus : Type 0 where
  pub resolved_ingresses : List String
  pub resolved_egress : String

pub record EgressPolicy : Type 0 where
  pub name : String
  pub namespace : String
  pub spec : EgressPolicySpec
  pub status : EgressPolicyStatus

-- `slices.Contains(node.Spec.Roles, role)`, which three packages declare.
unfoldable pub has_role : SingBoxNode → String → Bool
has_role node role = contains node.spec.roles role
