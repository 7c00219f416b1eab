-- ===== src/ApiServer/Targets.antt =====
-- The targets that a client may reach through an inbound node: resolveOutboundNodes in
-- internal/apiserver/client_config.go, and policyOnlyEgresses in policy.go.
use singbox_operator.Base.{
  nat_eq, String, Bool, true, false, not, ◌&&◌, ◌||◌, Option, none, some, List, [], ◌∷◌, ◌++◌,
  StringMap, lookup, lookup_or, contains, any, find, sort, text_lt, ◌==◌, if◌then◌else◌, map, keep,
}
use singbox_operator.Api.Platform.{Platform}
use singbox_operator.Api.Objects.{
  SingBoxNode, ExternalOutbound, CustomRoute, EgressPolicy, User, has_role, role_outbound,
  action_route, effective_outbound_kind, kind_external_outbound,
}
use singbox_operator.Api.Selector.{selector_matches}
use singbox_operator.Engine.Types.{NameSet, UserCredential, is_node_allowed, admits}

-- No pointer in it is nil: the handler takes the addresses of the items of lists.
pub record ClientConfigInput : Type 0 where
  pub user : User
  pub egress_policies : List EgressPolicy
  pub user_cred : UserCredential
  pub inbound_nodes : List SingBoxNode
  pub routes_by_inbound : StringMap (List CustomRoute)
  pub outbounds_by_name : StringMap SingBoxNode
  pub external_outbounds_by_name : StringMap ExternalOutbound
  pub external_outbounds : List ExternalOutbound
  pub offline_node_names : NameSet
  pub allowed_node_names : NameSet
  pub denied_node_names : NameSet
  pub policy_only_egress_names : NameSet

pub record OutboundRef : Type 0 where
  pub name : String
  pub allowed_inbounds : List String
  pub client_groups : List String

abbrev pub ref_of_node : SingBoxNode → OutboundRef
ref_of_node n = record {
  name = n.name;
  allowed_inbounds = n.spec.allowed_inbounds;
  client_groups = n.spec.client_groups;
}

abbrev pub ref_of_external : ExternalOutbound → OutboundRef
ref_of_external e = record {
  name = e.name;
  allowed_inbounds = e.spec.allowed_inbounds;
  client_groups = e.spec.client_groups;
}

abbrev pub ref_of_self : SingBoxNode → OutboundRef
ref_of_self n = record {
  name = n.name;
  allowed_inbounds = [];
  client_groups = n.spec.client_groups;
}

-- The set `seen` holds the names of the targets so far.
abbrev pub is_seen : List OutboundRef → String → Bool
is_seen refs name = any (λ r. r.name == name) refs

abbrev pub is_absent : Option SingBoxNode → Bool
is_absent none = true
is_absent (some n) = false

module _ (input : ClientConfigInput) where
  unfoldable pub target_has_client_group : String → String → Bool
  target_has_client_group name group = elim (lookup name input.outbounds_by_name) [
    | some n ↦ contains n.spec.client_groups group
    | none ↦ elim (lookup name input.external_outbounds_by_name) [
      | some e ↦ contains e.spec.client_groups group
      | none ↦ false
    ]
  ]

  -- The tests that every branch makes of a target's name.
  abbrev pub is_open : SingBoxNode → List OutboundRef → String → Bool
  is_open inbound refs name =
      not (is_seen refs name)
      && (not (lookup_or false name input.policy_only_egress_names)
          || target_has_client_group name "ai")
      && is_node_allowed name input.allowed_node_names input.denied_node_names
      && admits inbound.spec.allowed_outbounds name

  abbrev pub is_offline : String → Bool
  is_offline name = lookup_or false name input.offline_node_names

  abbrev pub add_node : SingBoxNode → SingBoxNode → List OutboundRef → List OutboundRef
  add_node inbound n refs =
      if not (nat_eq n.spec.relay_port 0)
        && n.spec.region == inbound.spec.region
        && is_open inbound refs n.name
        && not (is_offline n.name)
        && admits n.spec.allowed_inbounds inbound.name
      then refs ++ ref_of_node n ∷ []
      else refs

  unfoldable pub add_nodes :
      SingBoxNode → StringMap SingBoxNode → List OutboundRef → List OutboundRef
  add_nodes inbound [] refs = refs
  add_nodes inbound ((k, n) ∷ ns) refs = add_nodes inbound ns (add_node inbound n refs)

  abbrev pub add_self : SingBoxNode → List OutboundRef → List OutboundRef
  add_self inbound refs =
      if has_role inbound role_outbound
        && is_open inbound refs inbound.name
        && not (is_offline inbound.name)
      then refs ++ ref_of_self inbound ∷ []
      else refs

  abbrev pub add_external : SingBoxNode → ExternalOutbound → List OutboundRef → List OutboundRef
  add_external inbound e refs =
      if e.spec.region == inbound.spec.region
        && is_open inbound refs e.name
        && is_absent (lookup e.name input.outbounds_by_name)
        && admits e.spec.allowed_inbounds inbound.name
      then refs ++ ref_of_external e ∷ []
      else refs

  unfoldable pub add_externals :
      SingBoxNode → StringMap ExternalOutbound → List OutboundRef → List OutboundRef
  add_externals inbound [] refs = refs
  add_externals inbound ((k, e) ∷ es) refs =
      add_externals inbound es (if e.spec.region == "" then refs else add_external inbound e refs)

  abbrev pub add_if_external :
      SingBoxNode → Option ExternalOutbound → List OutboundRef → List OutboundRef
  add_if_external inbound none refs = refs
  add_if_external inbound (some e) refs = add_external inbound e refs

  abbrev pub add_if_node : SingBoxNode → Option SingBoxNode → List OutboundRef → List OutboundRef
  add_if_node inbound none refs = refs
  add_if_node inbound (some n) refs = add_node inbound n refs

  abbrev pub add_route : SingBoxNode → CustomRoute → List OutboundRef → List OutboundRef
  add_route inbound r refs =
      if effective_outbound_kind r == kind_external_outbound
      then add_if_external inbound (lookup r.outbound_node input.external_outbounds_by_name) refs
      else add_if_node inbound (lookup r.outbound_node input.outbounds_by_name) refs

  unfoldable pub add_routes : SingBoxNode → List CustomRoute → List OutboundRef → List OutboundRef
  add_routes inbound [] refs = refs
  add_routes inbound (r ∷ rs) refs = add_routes inbound rs (add_route inbound r refs)

  -- The targets in the order in which they are found.
  abbrev pub found_refs : SingBoxNode → List OutboundRef
  found_refs inbound = add_routes inbound (lookup_or [] inbound.name input.routes_by_inbound) (
      add_externals inbound input.external_outbounds_by_name
        (add_self inbound (add_nodes inbound input.outbounds_by_name [])))

  unfoldable pub resolve_outbound_nodes : String → List OutboundRef
  resolve_outbound_nodes inbound_name =
      elim (find (λ n. n.name == inbound_name) input.inbound_nodes) [
        | none ↦ []
        | some inbound ↦ sort (λ a b. text_lt a.name b.name) (found_refs inbound)
      ]

-- The names that the selectors of route policies match, where a selector matches one.
module _ (p : Platform) (nodes : List SingBoxNode) (outbounds : List ExternalOutbound) where
  abbrev pub matched : EgressPolicy → List String
  matched q =
      map (λ n. n.name)
        (keep
          (λ n.
            has_role n role_outbound && selector_matches p q.spec.egress_selector n.name n.labels)
          nodes)
      ++ map (λ e. e.name)
          (keep (λ e. selector_matches p q.spec.egress_selector e.name e.labels) outbounds)

  abbrev pub with_single : List String → List String → List String
  with_single [] names = names
  with_single (n ∷ []) names = n ∷ names
  with_single (n ∷ m ∷ ns) names = names

  unfoldable pub policy_only_egresses : List EgressPolicy → List String
  policy_only_egresses [] = []
  policy_only_egresses (q ∷ qs) =
      if q.spec.action == action_route
      then with_single (matched q) (policy_only_egresses qs)
      else policy_only_egresses qs
