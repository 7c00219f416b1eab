-- ===== src/Samples.antt =====
-- Small resources for the tests: one inbound node, two peers, users with and without a group, an
-- external outbound and policies. The outside code is played by simple functions.
use singbox_operator.Base.{
  ◌≡◌, inl, inr, arith, Bool-cases, eq_refl, eq_iff, ℕ, String, Bool, true, false, Option, none,
  some, List, [], ◌∷◌, StringMap, pos, all, lookup_or, ◌==◌, if◌then◌else◌,
}
use singbox_operator.Api.Platform.{Platform, LabelSelector}
use singbox_operator.Api.Objects.{
  Condition, SingBoxNode, no_spec, User, UserGroup, ExternalOutbound, EgressPolicy,
  EgressPolicySelector, action_route, action_reject,
}
use singbox_operator.Api.Conditions.{StatusConditions, find_condition}
use singbox_operator.Controllers.Client.{Client, found, not_found}
use singbox_operator.Webhooks.Nodes.{SingBoxNodeWebhook}
use singbox_operator.Engine.Types.{Input, NameSet}

-- Labels match by equality; a selector with an expression is malformed.
abbrev matches_labels : StringMap String → StringMap String → Bool
matches_labels wanted labels = all (λ w. lookup_or "" w.0 labels == w.1) wanted

abbrev select : LabelSelector → Option (StringMap String → Bool)
select s = elim s.match_expressions [ [] ↦ some (matches_labels s.match_labels) | e ∷ es ↦ none ]

abbrev twenty : List ℕ
twenty =
    1 ∷ 2 ∷ 3 ∷ 4 ∷ 5 ∷ 6 ∷ 7 ∷ 8 ∷ 9 ∷ 10 ∷ 11 ∷ 12 ∷ 13 ∷ 14 ∷ 15 ∷ 16 ∷ 17 ∷ 18 ∷ 19 ∷ 20 ∷ []

abbrev pub platform : Platform
platform = record {
  as_selector = select;
  compiles = λ r. true;
  parses_cidr = λ c. true;
  parses_ip = λ a. a == "1.2.3.4";
  is_subdomain = λ n. true;
  sha1 = λ b. twenty;
  sha256 = λ b. twenty;
}

abbrev pub node : String → List String → ℕ → SingBoxNode
node name roles port = record {
  name = name;
  namespace = "proxy";
  labels = ("name", name) ∷ [];
  spec = record no_spec {
    address = "1.2.3.4";
    region = "eu";
    roles = roles;
    relay_port = port;
    supported_protocols = record { protocol = "hysteria2"; port = 443 } ∷ [];
  };
  status = record {
    phase = "";
    config_hash = "";
    entry_endpoints = "hysteria2:1.2.3.4:443" ∷ [];
    tls_server_name = "";
    conditions = [];
  };
}

abbrev pub entry_node : SingBoxNode
entry_node = node "entry" ("inbound" ∷ []) 0

abbrev pub exit_a : SingBoxNode
exit_a = node "exit-a" ("outbound" ∷ []) 7001

abbrev pub exit_b : SingBoxNode
exit_b = node "exit-b" ("outbound" ∷ []) 7002

abbrev pub user : String → String → User
user name group = record {
  name = name;
  namespace = "proxy";
  spec = record { auth_secret_name = "secret"; auth_secret_namespace = ""; user_group_ref = group };
}

abbrev pub external : String → String → ExternalOutbound
external name protocol = record {
  name = name;
  namespace = "proxy";
  labels = ("name", name) ∷ [];
  spec = record {
    protocol = protocol;
    server = "proxy.example";
    port = 8443;
    credentials_secret_ref = some "cred";
    tls = some (record { server_name = "proxy.example"; insecure = false });
    hysteria2 = none;
    region = "eu";
    client_groups = [];
    allowed_inbounds = [];
  };
}

abbrev by_name : String → EgressPolicySelector
by_name name = record { match_labels = []; match_expressions = []; match_names = name ∷ [] }

abbrev pub policy : String → ℕ → String → String → EgressPolicy
policy name priority action target = record {
  name = name;
  namespace = "proxy";
  spec = record {
    ingress_selector = record { match_labels = []; match_expressions = []; match_names = [] };
    egress_selector = by_name target;
    match = record {
      domain = "example.org" ∷ [];
      domain_suffix = [];
      domain_regex = [];
      ip_cidr = [];
      rule_set = [];
    };
    action = action;
    priority = pos priority;
    fallback_action = "reject";
  };
  status = record { resolved_ingresses = []; resolved_egress = "" };
}

abbrev denies : String → NameSet
denies name = (name, true) ∷ []

-- Ann may use every target, Bob not exit-b.
abbrev pub sample_input : Input
sample_input = record {
  node = entry_node;
  users = user "ann" "" ∷ user "bob" "guests" ∷ [];
  user_creds = ("ann", record { uuid = "u-ann" }) ∷ ("bob", record { uuid = "u-bob" }) ∷ [];
  outbound_nodes = exit_a ∷ exit_b ∷ [];
  routes = [];
  egress_policies =
      some (policy "p2" 20 action_route "exit-b") ∷ some (policy "p1" 10 action_reject "") ∷ [];
  node_creds = ("exit-a", record { username = "a"; password = "pa" }) ∷ [];
  outbound_nodes_by_name = ("exit-a", exit_a) ∷ ("exit-b", exit_b) ∷ [];
  external_outbounds = external "ext" "trojan" ∷ [];
  external_outbounds_by_name = ("ext", external "ext" "trojan") ∷ [];
  external_creds = ("ext", ("password", "secret") ∷ []) ∷ [];
  usage_collection_enabled = true;
  v2ray_api_listen_addr = "";
  user_node_restrictions = ("bob", denies "exit-b") ∷ [];
  user_node_allowlist = [];
}

-- A cluster with these resources; every Secret but "cred" is missing.
abbrev pub all_nodes : List SingBoxNode
all_nodes = exit_b ∷ entry_node ∷ exit_a ∷ []

abbrev pub guests : UserGroup
guests = record { name = "guests"; allowed_nodes = []; denied_nodes = "exit-b" ∷ [] }

abbrev pub external_secret : StringMap String
external_secret = ("password", "secret") ∷ ("comment", "") ∷ []

abbrev pub client : Client
client = record {
  list_nodes = λ ns. some all_nodes;
  list_externals = λ ns. some (external "ext" "trojan" ∷ []);
  list_users = λ ns. some (user "bob" "guests" ∷ user "ann" "" ∷ []);
  list_policies =
      λ ns. some (policy "p2" 20 action_route "exit-b" ∷ policy "p1" 10 action_reject "" ∷ []);
  get_node = λ ns n. if n == "entry" then found entry_node else not_found;
  get_group = λ ns n. if n == "guests" then found guests else not_found;
  get_secret = λ ns n. if n == "cred" then found external_secret else not_found;
}

abbrev pub webhook : SingBoxNodeWebhook
webhook = record { node_port_range_min = 30000; node_port_range_max = 32767 }

-- SetStatusCondition, played by a function that replaces the first condition of the type.
abbrev set_condition : List Condition → Condition → List Condition
set_condition [] c = c ∷ []
set_condition (d ∷ ds) c = if d.type == c.type then c ∷ ds else d ∷ set_condition ds c

pub find-set_condition :
    (ds : List Condition) (c : Condition) → find_condition c.type (set_condition ds c) ≡ some c
find-set_condition [] c = rw (eq_refl c.type)
find-set_condition (d ∷ ds) c = elim (Bool-cases (d.type == c.type)) [
  | inl t ↦ rw t (rw (eq_refl c.type))
  | inr f ↦ rw f (rw f (find-set_condition ds c))
]

pub find-set_condition_other :
    (ds : List Condition) (c : Condition) (type : String)
    → c.type == type ≡ false
    → find_condition type (set_condition ds c) ≡ find_condition type ds
find-set_condition_other [] c type h = rw h
find-set_condition_other (d ∷ ds) c type h = ground (
  arith,
  eq_iff d.type c.type,
  eq_iff d.type type,
  eq_iff c.type type,
  find-set_condition_other ds c type,
)

abbrev pub status_conditions : StatusConditions
status_conditions = record {
  set = set_condition;
  find_set = find-set_condition;
  find_set_other = find-set_condition_other;
}
