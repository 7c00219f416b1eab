-- ===== src/Engine/Outbounds.antt =====
-- The outbound entries of a configuration (engine.go: buildOutboundNodeOutbounds,
-- buildRouteOutbounds, buildPolicyOutbounds, buildDirectOutbound, deduplicateByTag, routeFinal).
use singbox_operator.Base.{
  String, Bool, Option, not, ◌&&◌, ◌||◌, none, some, List, [], ◌∷◌, ◌++◌, lookup, lookup_or,
  if◌then◌else◌, ◌==◌, contains, any, all, is_empty, nat_eq,
}
use singbox_operator.Api.Platform.{Platform}
use singbox_operator.Api.Objects.{SingBoxNode, CustomRoute, EgressPolicy, action_route}
use singbox_operator.Engine.Types.{
  Input, NodeCredential, Entry, number, scalar, string, outbound_tag, tag_of, admits,
}
use singbox_operator.Engine.Policies.{
  user_allowed, egress_name, has_required_external_creds, creds_of,
}
use singbox_operator.Engine.Externals.{build_external_outbound_entry}

abbrev no_credential : NodeCredential
no_credential = record { username = ""; password = "" }

module _ (input : Input) where
  -- The SOCKS5 entry through which a peer is reached.
  unfoldable pub peer_entry : String → SingBoxNode → Entry
  peer_entry name node =
      let cred = lookup_or no_credential name input.node_creds in
      ("type", string "socks")
      ∷ ("tag", string (outbound_tag name))
      ∷ ("server", string node.spec.address)
      ∷ ("server_port", scalar (number node.spec.relay_port))
      ∷ ("username", string cred.username)
      ∷ ("password", string cred.password)
      ∷ []

  -- Both lists of admitted names, of the peer and of this node, let them be connected.
  abbrev pub connects : SingBoxNode → Bool
  connects peer =
      admits peer.spec.allowed_inbounds input.node.name
      && admits input.node.spec.allowed_outbounds peer.name

  unfoldable pub build_outbound_node_outbounds : List CustomRoute → List SingBoxNode → List Entry
  unfolding peer_entry
  build_outbound_node_outbounds routes [] = []
  build_outbound_node_outbounds routes (n ∷ ns) =
      let rest = build_outbound_node_outbounds routes ns in
      if any (λ r. r.outbound_node == n.name) routes
        || not (connects n)
        || nat_eq n.spec.relay_port 0
      then rest
      else peer_entry n.name n ∷ rest

  -- Whether there are users, and the groups deny the target to all of them.
  abbrev pub all_denied : String → Bool
  all_denied target =
      not (is_empty input.users) && all (λ u. not (user_allowed input target u)) input.users

  -- The entry of a route's target, if it is known: a round of the loop of buildRouteOutbounds.
  unfoldable pub route_entry : Option SingBoxNode → List Entry
  unfolding peer_entry
  route_entry none = []
  route_entry (some n) =
      if nat_eq n.spec.relay_port 0 || not (connects n) || all_denied n.name
      then []
      else peer_entry n.name n ∷ []

  unfoldable pub build_route_outbounds : List CustomRoute → List Entry
  unfolding route_entry
  build_route_outbounds [] = []
  build_route_outbounds (r ∷ rs) =
      route_entry (lookup r.outbound_node input.outbound_nodes_by_name) ++ build_route_outbounds rs

  -- The entry of a policy's target, if there is one to give: the end of a round of the loop.
  unfoldable pub policy_entry : String → List Entry
  unfolding peer_entry has_required_external_creds build_external_outbound_entry
  policy_entry name = elim (lookup name input.outbound_nodes_by_name) [
    | some node ↦ if nat_eq node.spec.relay_port 0 then [] else peer_entry name node ∷ []
    | none ↦ elim (lookup name input.external_outbounds_by_name) [
      | some eob ↦
          if has_required_external_creds eob (creds_of input name)
          then build_external_outbound_entry eob (creds_of input name) ∷ []
          else []
      | none ↦ []
    ]
  ]

-- `seen` is the set of the names that an earlier policy has used.
unfoldable pub build_policy_outbounds :
    Platform → Input → (seen : List String) → List EgressPolicy → List Entry
unfolding policy_entry egress_name
build_policy_outbounds p input seen [] = []
build_policy_outbounds p input seen (policy ∷ policies) =
    let name = egress_name p input policy in
    let skip = build_policy_outbounds p input seen policies in
    let rest = build_policy_outbounds p input (name ∷ seen) policies in
    if not (policy.spec.action == action_route) || name == "" || contains seen name
    then skip
    else policy_entry input name ++ rest

unfoldable pub build_direct_outbound : Entry
build_direct_outbound = ("type", string "direct") ∷ ("tag", string "direct") ∷ []

-- The loop of deduplicateByTag, with its set of the tags seen so far.
unfoldable pub dedup_from : List String → List Entry → List Entry
dedup_from seen [] = []
dedup_from seen (e ∷ es) =
    let dropped = dedup_from seen es in
    let kept = e ∷ dedup_from (tag_of e ∷ seen) es in
    if contains seen (tag_of e) then dropped else kept

unfoldable pub deduplicate_by_tag : List Entry → List Entry
unfolding dedup_from
deduplicate_by_tag entries = dedup_from [] entries

unfoldable pub route_final : List Entry → String
route_final [] = "direct"
route_final (e ∷ es) =
    if not (tag_of e == "direct") && not (tag_of e == "") then tag_of e else route_final es
