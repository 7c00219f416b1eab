-- ===== src/Controllers/Mappers.antt =====
-- The mappers of internal/controller/singboxnode_controller.go that SetupWithManager registers, from
-- a change to the names of the nodes to reconcile, and the predicates of its watches.
use singbox_operator.Base.{
  ℕ, true, nat_eq, String, Bool, false, not, ◌&&◌, none, some, List, [], ◌∷◌, map, keep, add_name,
  ◌==◌, if◌then◌else◌,
}
use singbox_operator.Api.Platform.{Platform}
use singbox_operator.Api.Objects.{
  SingBoxNode, ExternalOutbound, User, EgressPolicy, has_role, role_inbound,
}
use singbox_operator.Controllers.Client.{Client}
use singbox_operator.Controllers.Users.{
  inbound_nodes, inbounds_affected_by_external_outbound, egress_policy_mapper,
}

-- What the controller watches, the Kubernetes Nodes and its own objects aside.
pub data Change : Type 0 where
  sing_box_node : SingBoxNode → Change
  proxy_user : User → Change
  user_group : String → String → Change
  egress_policy : EgressPolicy → Change
  external_outbound : ExternalOutbound → Change
  core_secret : String → String → Change

-- An update, with the generations of the object before and after it: Kubernetes raises the
-- generation with a change of the specification, and not with one of labels or of the status.
pub data WatchEvent : Type 0 where
  created deleted : WatchEvent
  updated : ℕ → ℕ → WatchEvent

-- GenerationChangedPredicate of controller-runtime.
abbrev pub generation_changed : WatchEvent → Bool
generation_changed (updated old new) = not (nat_eq old new)
generation_changed event = true

-- The predicates of the watches.
abbrev pub lets_pass : Change → WatchEvent → Bool
lets_pass (sing_box_node n) event = generation_changed event
lets_pass (egress_policy q) event = generation_changed event
lets_pass (external_outbound e) event = generation_changed event
lets_pass change event = true

unfoldable pub same_region_node_mapper : Client → SingBoxNode → List String
same_region_node_mapper c changed = elim (c.list_nodes changed.namespace) [
  | none ↦ []
  | some nodes ↦
      map (λ n. n.name)
        (keep (λ n. not (n.name == changed.name) && n.spec.region == changed.spec.region) nodes)
]

unfoldable pub matching_protocol_node_mapper : Client → User → List String
matching_protocol_node_mapper c user = elim (c.list_nodes user.namespace) [
  | none ↦ []
  | some nodes ↦ map (λ n. n.name) (inbound_nodes nodes)
]

-- The inner loop, with the names of the requests so far.
unfoldable pub add_inbounds : List SingBoxNode → List String → List String
add_inbounds [] names = names
add_inbounds (n ∷ ns) names =
    add_inbounds ns (if has_role n role_inbound then add_name names n.name else names)

unfoldable pub add_users_of : String → List SingBoxNode → List User → List String → List String
add_users_of group nodes [] names = names
add_users_of group nodes (u ∷ us) names =
    add_users_of group nodes us
      (if not (u.spec.user_group_ref == group) then names else add_inbounds nodes names)

-- For the group of that namespace and name.
unfoldable pub users_in_group_to_nodes_mapper : Client → String → String → List String
users_in_group_to_nodes_mapper c namespace group = elim (c.list_users namespace) [
  | none ↦ []
  | some users ↦ elim (c.list_nodes namespace) [
    | none ↦ []
    | some nodes ↦ add_users_of group nodes users []
  ]
]

abbrev pub refers_to : ExternalOutbound → String → Bool
refers_to eob secret = elim eob.spec.credentials_secret_ref [
  | none ↦ false
  | some name ↦ name == secret
]

abbrev pub add_requests : List String → List String → List String
add_requests [] names = names
add_requests (r ∷ rs) names = add_requests rs (add_name names r)

module _ (p : Platform) (c : Client) where
  unfoldable pub external_outbound_mapper : ExternalOutbound → List String
  external_outbound_mapper eob =
      inbounds_affected_by_external_outbound p c eob.namespace eob.name eob.spec.region

  unfoldable pub add_referring : String → List ExternalOutbound → List String → List String
  add_referring secret [] names = names
  add_referring secret (eob ∷ eobs) names = add_referring secret eobs (
      if not (refers_to eob secret)
      then names
      else add_requests
          (inbounds_affected_by_external_outbound p c eob.namespace eob.name eob.spec.region) names)

  -- For the Secret of that namespace and name.
  unfoldable pub external_credential_secret_mapper : String → String → List String
  external_credential_secret_mapper namespace secret = elim (c.list_externals namespace) [
    | none ↦ []
    | some eobs ↦ add_referring secret eobs []
  ]

  abbrev pub mapped : Change → List String
  mapped (sing_box_node n) = same_region_node_mapper c n
  mapped (proxy_user u) = matching_protocol_node_mapper c u
  mapped (user_group namespace name) = users_in_group_to_nodes_mapper c namespace name
  mapped (egress_policy q) = egress_policy_mapper p c q
  mapped (external_outbound e) = external_outbound_mapper e
  mapped (core_secret namespace name) = external_credential_secret_mapper namespace name

  -- What the watch of the resource enqueues for an event, by the object before or after it.
  abbrev pub requests : Change → WatchEvent → List String
  requests change event = if lets_pass change event then mapped change else []
