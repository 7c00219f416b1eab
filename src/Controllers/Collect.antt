-- ===== src/Controllers/Collect.antt =====
-- collectInput and loadExternalCredential: internal/controller/singboxnode_controller.go. The input
-- is passed through the loops; `none` is an error.
use singbox_operator.Base.{
  String, Bool, true, not, ◌&&◌, ◌||◌, Option, none, some, List, [], ◌∷◌, ◌++◌, map, sort, text_lt,
  contains, is_empty, insert, ◌==◌, if◌then◌else◌,
}
use singbox_operator.Api.Platform.{Platform}
use singbox_operator.Api.Objects.{
  SingBoxNode, ExternalOutbound, User, UserGroup, EgressPolicy, has_role, role_inbound,
  role_outbound, action_reject,
}
use singbox_operator.Api.Selector.{selector_matches}
use singbox_operator.Engine.Types.{
  Input, NameSet, UserCredential, NodeCredential, ExternalCredential, admits,
}
use singbox_operator.Controllers.Client.{found, not_found, failed, Client}
use singbox_operator.Controllers.Credentials.{
  get_node_credential, get_user_credential, get_external_credentials,
}
use singbox_operator.Controllers.Egress.{
  message, target, resolve_egress_policy, find_outbound_node, find_external_outbound,
  egress_connected_to_inbound,
}

-- `set[name] = true` for each name.
abbrev pub name_set : List String → NameSet → NameSet
name_set [] s = s
name_set (n ∷ ns) s = name_set ns (insert n true s)

module _ (p : Platform) (c : Client) (node : SingBoxNode) where
  -- The operator's settings.
  abbrev pub start : Bool → String → Input
  start usage listen = record {
    node = node;
    users = [];
    user_creds = [];
    outbound_nodes = [];
    routes = [];
    egress_policies = [];
    node_creds = [];
    outbound_nodes_by_name = [];
    external_outbounds = [];
    external_outbounds_by_name = [];
    external_creds = [];
    usage_collection_enabled = usage;
    v2ray_api_listen_addr = listen;
    user_node_restrictions = [];
    user_node_allowlist = [];
  }

  -- `if err == nil { input.NodeCreds[name] = cred }`
  abbrev pub set_node_credential : String → Option NodeCredential → Input → Input
  set_node_credential name none input = input
  set_node_credential name (some cred) input = record input {
    node_creds = insert name cred input.node_creds;
  }

  abbrev pub load_node_credential : String → Input → Input
  load_node_credential name input =
      set_node_credential name (get_node_credential c.get_secret name node.namespace) input

  abbrev pub set_external_credential : String → Option ExternalCredential → Input → Input
  set_external_credential name none input = input
  set_external_credential name (some creds) input = record input {
    external_creds = insert name creds input.external_creds;
  }

  abbrev pub load_external_credential : ExternalOutbound → Input → Input
  load_external_credential eob input =
      set_external_credential eob.name (get_external_credentials c.get_secret eob) input

  abbrev pub set_user_credential : String → Option UserCredential → Input → Input
  set_user_credential name none input = input
  set_user_credential name (some cred) input = record input {
    user_creds = insert name cred input.user_creds;
  }

  abbrev pub is_peer : SingBoxNode → Bool
  is_peer other =
      not (other.name == node.name)
      && other.spec.region == node.spec.region
      && has_role other role_outbound
      && admits other.spec.allowed_inbounds node.name
      && admits node.spec.allowed_outbounds other.name

  abbrev pub with_peer : SingBoxNode → Input → Input
  with_peer other input = record input {
    outbound_nodes = input.outbound_nodes ++ other ∷ [];
    outbound_nodes_by_name = insert other.name other input.outbound_nodes_by_name;
  }

  unfoldable pub add_peers : List SingBoxNode → Input → Input
  add_peers [] input = input
  add_peers (n ∷ ns) input =
      add_peers ns (if is_peer n then load_node_credential n.name (with_peer n input) else input)

  abbrev pub is_usable : List String → ExternalOutbound → Bool
  is_usable taken eob =
      not (contains taken eob.name)
      && not (eob.spec.region == "")
      && eob.spec.region == node.spec.region
      && admits eob.spec.allowed_inbounds node.name
      && admits node.spec.allowed_outbounds eob.name

  abbrev pub with_external : ExternalOutbound → Input → Input
  with_external eob input = record input {
    external_outbounds = input.external_outbounds ++ eob ∷ [];
    external_outbounds_by_name = insert eob.name eob input.external_outbounds_by_name;
  }

  unfoldable pub add_externals : List String → List ExternalOutbound → Input → Input
  add_externals taken [] input = input
  add_externals taken (e ∷ es) input =
      add_externals taken es
        (if is_usable taken e then load_external_credential e (with_external e input) else input)

  abbrev pub with_user : User → Input → Input
  with_user user input =
      set_user_credential user.name (get_user_credential c.get_secret user)
        (record input { users = input.users ++ user ∷ [] })

  abbrev pub with_group : User → UserGroup → Input → Input
  with_group user ug input =
      let allowed = name_set ug.allowed_nodes [] in
      let restricted = record input {
        user_node_restrictions =
            insert user.name (name_set ug.denied_nodes []) input.user_node_restrictions;
      } in
      if is_empty allowed then restricted else record restricted {
        user_node_allowlist = insert user.name allowed restricted.user_node_allowlist;
      }

  -- A missing group restricts nothing; another error ends the collection.
  unfoldable pub add_users : List User → Input → Option Input
  add_users [] input = some input
  add_users (u ∷ us) input =
      let listed = with_user u input in
      if u.spec.user_group_ref == ""
      then add_users us listed
      else elim (c.get_group node.namespace u.spec.user_group_ref) [
        | not_found ↦ add_users us listed
        | found ug ↦ add_users us (with_group u ug listed)
        | failed ↦ none
      ]

  abbrev pub with_policy : EgressPolicy → Input → Input
  with_policy policy input = record input {
    egress_policies = input.egress_policies ++ some policy ∷ [];
  }

  abbrev pub under_name : SingBoxNode → Input → Input
  under_name n input = record input {
    outbound_nodes_by_name = insert n.name n input.outbound_nodes_by_name;
  }

  abbrev pub external_under_name : ExternalOutbound → Input → Input
  external_under_name e input = record input {
    external_outbounds_by_name = insert e.name e input.external_outbounds_by_name;
  }

  -- The target of an accepted policy, where the engine finds it.
  abbrev pub set_target : Option SingBoxNode → Option ExternalOutbound → Input → Input
  set_target (some n) e input = load_node_credential n.name (under_name n input)
  set_target none (some e) input = load_external_credential e (external_under_name e input)
  set_target none none input = input

  abbrev pub is_ingress : EgressPolicy → Bool
  is_ingress q =
      has_role node role_inbound && selector_matches p q.spec.ingress_selector node.name node.labels

  unfoldable pub add_policy :
      List SingBoxNode → List ExternalOutbound → EgressPolicy → Input → Input
  add_policy nodes externals q input =
      if not (is_ingress q) then input else elim (resolve_egress_policy p q nodes externals) [
        | message ↦ input
        | target name ↦
            if q.spec.action == action_reject
            then with_policy q input
            else if name == "" || not (egress_connected_to_inbound node name nodes externals)
            then input
            else set_target (find_outbound_node nodes name) (find_external_outbound externals name)
                (with_policy q input)
      ]

  unfoldable pub add_policies :
      List SingBoxNode → List ExternalOutbound → List EgressPolicy → Input → Input
  add_policies nodes externals [] input = input
  add_policies nodes externals (q ∷ qs) input =
      add_policies nodes externals qs (add_policy nodes externals q input)

  -- The users of an inbound node; another node has none.
  unfoldable pub collect_users : Input → Option Input
  collect_users input =
      if has_role node role_inbound
      then elim (c.list_users node.namespace) [
        | none ↦ none
        | some users ↦ add_users (sort (λ a b. text_lt a.name b.name) users) input
      ]
      else some input

  abbrev pub own_credential : Input → Input
  own_credential input =
      if has_role node role_outbound then load_node_credential node.name input else input

  unfoldable pub collect_input : Bool → String → Option Input
  collect_input usage listen = elim (c.list_nodes node.namespace) [
    | none ↦ none
    | some all_nodes ↦
        let nodes = sort (λ a b. text_lt a.name b.name) all_nodes in
        elim (c.list_externals node.namespace) [
          | none ↦ none
          | some all_externals ↦
              let externals = sort (λ a b. text_lt a.name b.name) all_externals in
              let taken = node.name ∷ map (λ n. n.name) nodes in
              elim (collect_users
                (add_externals taken externals (add_peers nodes (start usage listen)))) [
                  | none ↦ none
                  | some input ↦ elim (c.list_policies node.namespace) [
                    | none ↦ none
                    | some policies ↦
                        some (own_credential (add_policies nodes externals policies input))
                  ]
                ]
        ]
  ]
