-- ===== src/Engine/Accounts.antt =====
-- The accounts of the inbound of a configuration, and the users that its rules name.
use singbox_operator.Base.{
  ℕ, String, true, false, ◌==◌, List, [], ◌∷◌, ◌++◌, map, ◌≡◌, refl, sym, ap, ◌∙◌, ◌⊎◌, inl, inr,
  arith, keep, is_empty, lookup, lookup_or, lookup_or-insert, eq-nil, Bool-cases, nat_eq, some,
  if◌then◌else◌,
}
use singbox_operator.Api.Platform.{Platform}
use singbox_operator.Api.Objects.{User, has_role, role_outbound}
use singbox_operator.Engine.Types.{
  Input, Account, Entry, RouteRule, string, accounts, inbound_tag, virtual_user_name,
  effective_inbound_protocol, find_protocol_port,
}
use singbox_operator.Engine.Policies.{
  user_allowed, policy_auth_users, policies_for_node, build_policy_rules,
}
use singbox_operator.Engine.Config.{
  compute_config, config_rules, config_inbounds, client_side, has_outbound_peers, is_inbound,
  is_self_outbound, routes_for_node,
}
use mathlib.Core.List.{map-append}
use mathlib.Core.Path.{subst}
use singbox_operator.Engine.Inbounds.{
  account, route_accounts, route_rules, build_inbound_entry, build_relay_inbound, inbound_for,
  outbound_names, build_route_inbounds, socks_type,
}

-- The name under which sing-box knows an account of an inbound of the protocol.
abbrev pub account_name : String → Account → String
account_name protocol a = lookup_or "" (if protocol == "naive" then "username" else "name") a

abbrev pub all_auth_users : List RouteRule → List String
all_auth_users [] = []
all_auth_users (r ∷ rs) = r.auth_user ++ all_auth_users rs

module _ (p : Platform) (input : Input) where
  account_name-account :
      (protocol : String) (u : User) (k as_name : String)
      → account_name protocol (account p input protocol u k as_name) ≡ as_name
  account_name-account protocol u k as_name =
      lookup_or-insert "" (if protocol == "naive" then "username" else "name") as_name _

  account_names :
      (protocol k : String) (us : List User)
      → map
          (account_name protocol)
          (map (λ u. account p input protocol u k (virtual_user_name u.name k)) us)
        ≡ map (λ u. virtual_user_name u.name k) us
  account_names protocol k [] = refl
  account_names protocol k (u ∷ us) =
      cc (
        account_name-account protocol u k (virtual_user_name u.name k),
        account_names protocol k us,
      )

  target_account_names :
      (protocol k : String)
      → map (account_name protocol) (
          map
            (λ u. account p input protocol u k (virtual_user_name u.name k))
            (keep (user_allowed input k) input.users))
        ≡ policy_auth_users input k
  unfolding policy_auth_users
  target_account_names protocol k = account_names protocol k _

  route_accounts-route_rules :
      (protocol : String) (targets : List String)
      → map (account_name protocol) (route_accounts p input protocol targets)
        ≡ all_auth_users (route_rules p input targets)
  unfolding route_accounts route_rules
  route_accounts-route_rules protocol [] = refl
  route_accounts-route_rules protocol (k ∷ targets) =
      let rest = route_accounts-route_rules protocol targets in
      let split =
        map-append (account_name protocol)
          (map (λ u. account p input protocol u k (virtual_user_name u.name k))
            (keep (user_allowed input k) input.users))
          (route_accounts p input protocol targets) in
      let names = target_account_names protocol k in
      elim (Bool-cases (is_empty (policy_auth_users input k))) [
        | inl nobody ↦
            rw nobody (cc (split, names, eq-nil (policy_auth_users input k) nobody, rest))
        | inr users ↦ rw users (cc (split, names, rest))
      ]

  entry-accounts :
      (protocol tag : String) (port : ℕ) (users : List Account)
      → lookup "users" (build_inbound_entry protocol tag port users) ≡ some (accounts users)
  unfolding build_inbound_entry
  entry-accounts protocol tag port users = ground arith

  -- The first inbound has an account for each of the users, of that name and in the same order.
  abbrev pub HasAccounts : List String → List Entry → Type 0
  HasAccounts names entries =
      (e : Entry) × (rest : List Entry) × (users : List Account) × (entries ≡ e ∷ rest)
      × (lookup "type" e ≡ some (string (socks_type (effective_inbound_protocol input.node))))
      × (lookup "users" e ≡ some (accounts users))
      × (map (account_name (effective_inbound_protocol input.node)) users ≡ names)

  entry-type :
      (protocol tag : String) (port : ℕ) (users : List Account)
      → lookup "type" (build_inbound_entry protocol tag port users)
        ≡ some (string (socks_type protocol))
  unfolding build_inbound_entry
  entry-type protocol tag port users = ground arith

  inbound_for-HasAccounts :
      (users : List Account)
      → nat_eq (find_protocol_port input.node (effective_inbound_protocol input.node)) 0 ≡ false
      → is_empty users ≡ false
      → (rest : List Entry)
      → HasAccounts
          (map (account_name (effective_inbound_protocol input.node)) users)
          (inbound_for p input (effective_inbound_protocol input.node) users ++ rest)
  inbound_for-HasAccounts users port some_user rest =
      let protocol = effective_inbound_protocol input.node in
      let e =
        build_inbound_entry protocol (inbound_tag protocol) (find_protocol_port input.node protocol)
          users in
      (
        e,
        rest,
        users,
        rw (port, some_user),
        entry-type protocol (inbound_tag protocol) (find_protocol_port input.node protocol) users,
        entry-accounts protocol (inbound_tag protocol) (find_protocol_port input.node protocol)
            users,
        refl,
      )

  -- The targets of the node, and the accounts for them.
  abbrev names : List String
  names = outbound_names p input (routes_for_node input) (is_self_outbound input)

  abbrev relay_accounts : List Account
  relay_accounts = route_accounts p input (effective_inbound_protocol input.node) names

  client_side-route_rules :
      has_outbound_peers p input (routes_for_node input) (policies_for_node input) ≡ true
      → (client_side p input (routes_for_node input) (policies_for_node input)).1
        ≡ route_rules p input names
  unfolding client_side build_route_inbounds
  client_side-route_rules peers = elim (Bool-cases (is_empty (policies_for_node input))) [
    | inl unset ↦ rw (peers, unset)
    | inr set ↦ rw set
  ]

  client_side-inbound_for :
      has_outbound_peers p input (routes_for_node input) (policies_for_node input) ≡ true
      → nat_eq (find_protocol_port input.node (effective_inbound_protocol input.node)) 0 ≡ false
      → is_empty relay_accounts ≡ false
      → (client_side p input (routes_for_node input) (policies_for_node input)).0
        ≡ inbound_for p input (effective_inbound_protocol input.node) relay_accounts
  unfolding client_side build_route_inbounds
  client_side-inbound_for peers port some_user =
      elim (Bool-cases (is_empty (policies_for_node input))) [
        | inl unset ↦ rw (peers, unset)
        | inr set ↦ rw (set, port, some_user)
      ]

  -- Where an inbound node with a port for its protocol relays to anything, what the users' part of its rules
  -- names and the accounts of its first inbound agree: the rules are those of the policies and
  -- then others, and the inbound is of the node's protocol and has an account under the name of each user
  -- of these others, in the same order, unless they name no user.
  pub config_inbounds-config_rules :
      is_inbound input ≡ true
      → has_outbound_peers p input (routes_for_node input) (policies_for_node input) ≡ true
      → nat_eq (find_protocol_port input.node (effective_inbound_protocol input.node)) 0 ≡ false
      → (relay : List RouteRule) × ((compute_config p input).rules
          ≡ build_policy_rules p input (policies_for_node input) ++ relay)
        × ((all_auth_users relay ≡ [])
            ⊎ HasAccounts (all_auth_users relay) (compute_config p input).inbounds)
  unfolding compute_config config_rules config_inbounds
  config_inbounds-config_rules inbound peers port =
      let same = route_accounts-route_rules (effective_inbound_protocol input.node) names in
      let rules = client_side-route_rules peers in
      (
        route_rules p input names,
        ap (λ b. build_policy_rules p input (policies_for_node input) ++ (if b then side.1 else []))
              inbound
            ∙ ap (λ rs. build_policy_rules p input (policies_for_node input) ++ rs) rules,
        elim (Bool-cases (is_empty relay_accounts)) [
          | inl nobody ↦ inl (
              sym same
              ∙ ap (map (account_name (effective_inbound_protocol input.node)))
                  (eq-nil relay_accounts nobody))
          | inr some_user ↦ inr (
              subst (λ ns. HasAccounts ns (config_inbounds p input)) same
                (subst
                  (HasAccounts
                    (map (account_name (effective_inbound_protocol input.node)) relay_accounts))
                  (sym (
                    ap (λ b. (if b then side.0 else []) ++ relay_inbound) inbound
                    ∙ ap (λ es. es ++ relay_inbound)
                        (client_side-inbound_for peers port some_user)))
                  (inbound_for-HasAccounts relay_accounts port some_user relay_inbound)))
        ],
      )
    where
      side : List Entry × List RouteRule
      side = client_side p input (routes_for_node input) (policies_for_node input)

      relay_inbound : List Entry
      relay_inbound =
          if has_role input.node role_outbound then build_relay_inbound p input ∷ [] else []
