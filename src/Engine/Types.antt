-- ===== src/Engine/Types.antt =====
-- The engine's input, and the configuration that it computes (engine.go:34-119). JSON objects
-- that the source builds as map[string]any are maps from keys to the values that occur there.
use singbox_operator.Base.{
  ℕ, ℤ, String, join, Bool, true, false, Option, some, List, [], ◌∷◌, ◌++◌, StringMap, lookup,
  lookup_or, contains, is_empty, if◌then◌else◌, ◌==◌, ltb,
}
use singbox_operator.Api.Objects.{SingBoxNode, User, CustomRoute, EgressPolicy, ExternalOutbound}
use singbox_operator.Api.Objects.{ProtocolConfig, has_role, role_outbound}

pub record UserCredential : Type 0 where
  pub uuid : String

pub record NodeCredential : Type 0 where
  pub username : String
  pub password : String

abbrev pub ExternalCredential : Type 0
ExternalCredential = StringMap String

-- A set of names, as the program holds it: a map[string]bool.
abbrev pub NameSet : Type 0
NameSet = StringMap Bool

-- A nil policy pointer is `none`; the other pointers of the input are never nil.
pub record Input : Type 0 where
  pub node : SingBoxNode
  pub users : List User
  pub user_creds : StringMap UserCredential
  pub outbound_nodes : List SingBoxNode
  pub routes : List CustomRoute
  pub egress_policies : List (Option EgressPolicy)
  pub node_creds : StringMap NodeCredential
  pub outbound_nodes_by_name : StringMap SingBoxNode
  pub external_outbounds : List ExternalOutbound
  pub external_outbounds_by_name : StringMap ExternalOutbound
  pub external_creds : StringMap ExternalCredential
  pub usage_collection_enabled : Bool
  pub v2ray_api_listen_addr : String
  pub user_node_restrictions : StringMap NameSet
  pub user_node_allowlist : StringMap NameSet

pub data Scalar : Type 0 where
  text : String → Scalar
  number : ℕ → Scalar
  integer : ℤ → Scalar
  flag : Bool → Scalar

-- The fields of one account of an inbound.
abbrev pub Account : Type 0
Account = StringMap String

pub data Value : Type 0 where
  scalar : Scalar → Value
  object : StringMap Scalar → Value
  accounts : List Account → Value
  texts : List String → Value

-- An element of the `inbounds` or `outbounds` array.
abbrev pub Entry : Type 0
Entry = StringMap Value

abbrev pub string : String → Value
string s = scalar (text s)

pub record RouteRule : Type 0 where
  pub inbound : List String
  pub auth_user : List String
  pub domain : List String
  pub domain_suffix : List String
  pub domain_regex : List String
  pub ip_cidr : List String
  pub rule_set : List String
  pub action : String
  pub outbound : String

-- `routeRule{}`
abbrev pub no_rule : RouteRule
no_rule = record {
  inbound = [];
  auth_user = [];
  domain = [];
  domain_suffix = [];
  domain_regex = [];
  ip_cidr = [];
  rule_set = [];
  action = "";
  outbound = "";
}

pub record StatsConfig : Type 0 where
  pub listen : String
  pub enabled : Bool
  pub users : List String

pub record SingboxConfig : Type 0 where
  pub log_level : String
  pub inbounds : List Entry
  pub outbounds : List Entry
  pub rules : List RouteRule
  pub final : String
  pub experimental : Option StatsConfig

abbrev pub as_text : Option Value → String
as_text (some (scalar (text s))) = s
as_text _ = ""

-- `tag, _ := m["tag"].(string)`
abbrev pub tag_of : Entry → String
tag_of e = as_text (lookup "tag" e)

abbrev pub outbound_tag : String → String
outbound_tag name = join "outbound-" name

abbrev pub inbound_tag : String → String
inbound_tag protocol = join "inbound-" protocol

unfoldable pub virtual_user_name : String → String → String
virtual_user_name user outbound = join user (join "#" outbound)

abbrev pub relay_container_port : ℕ
relay_container_port = 10808

unfoldable pub effective_relay_port : SingBoxNode → ℕ
effective_relay_port node =
    if ltb 0 node.spec.relay_port then node.spec.relay_port else relay_container_port

unfoldable pub is_node_allowed : String → NameSet → NameSet → Bool
is_node_allowed name allowed denied =
    if lookup_or false name denied
    then false
    else if is_empty allowed
    then true
    else lookup_or false name allowed

abbrev pub port_of : List ProtocolConfig → String → ℕ
port_of [] protocol = 0
port_of (p ∷ ps) protocol = if p.protocol == protocol then p.port else port_of ps protocol

unfoldable pub find_protocol_port : SingBoxNode → String → ℕ
find_protocol_port node protocol = port_of node.spec.supported_protocols protocol

unfoldable pub effective_inbound_protocol : SingBoxNode → String
effective_inbound_protocol node =
    if node.spec.inbound_protocol == "" then "hysteria2" else node.spec.inbound_protocol

abbrev protocol_ports : List ProtocolConfig → List ℕ
protocol_ports [] = []
protocol_ports (p ∷ ps) = p.port ∷ protocol_ports ps

unfoldable pub extract_node_ports : SingBoxNode → List ℕ
unfolding effective_relay_port has_role
extract_node_ports node =
    protocol_ports node.spec.supported_protocols
    ++ (if has_role node role_outbound then effective_relay_port node ∷ [] else [])

-- `len(list) == 0 || slices.Contains(list, name)`: the test of AllowedInbounds and AllowedOutbounds.
abbrev pub admits : List String → String → Bool
admits list name = if is_empty list then true else contains list name
