-- ===== src/Webhooks/Admitted.antt =====
-- Which nodes the webhook admits.
use singbox_operator.Base.{
  ℕ, suc, String, Bool, true, not, ◌&&◌, ◌||◌, List, [], ◌∷◌, ◌++◌, map, if◌then◌else◌, ◌==◌,
  nat_eq, is_empty, any, any-contains, any-is_empty, all, keep, contains, ◌≡◌, refl, arith,
  Bool-cases, inl, inr,
}
use singbox_operator.Api.Platform.{Platform}
use singbox_operator.Api.Objects.{ProtocolConfig, SingBoxNode, has_role, role_inbound}
use singbox_operator.Webhooks.Errors.{
  field, required, invalid, report, is_empty-append, is_empty-report, distinct, unseen, unseen-cons,
  unseen-nil, both,
}
use singbox_operator.Webhooks.Nodes.{
  SingBoxNodeWebhook, in_node_port_range, is_valid_hostname, address_errors, protocol_errors,
  has_port, port_errors, is_known_role, role_errors, entry_errors, effective_proto, inbound_errors,
  validate_sing_box_node,
}

abbrev pub protocols : List ProtocolConfig → List String
protocols = map (λ c. c.protocol)

-- The ports that are set.
abbrev pub ports : List ProtocolConfig → List ℕ
ports cs = keep (λ n. not (nat_eq n 0)) (map (λ c. c.port) cs)

abbrev pub distinct_ports : List ℕ → Bool
distinct_ports [] = true
distinct_ports (x ∷ xs) = not (has_port xs x) && distinct_ports xs

abbrev unused : List ℕ → List ℕ → Bool
unused used xs = all (λ x. not (has_port used x)) xs

nat_eq_comm : (a b : ℕ) → nat_eq a b ≡ nat_eq b a
nat_eq_comm a b = ground arith

unused-cons :
    (x : ℕ) (used xs : List ℕ) → unused (x ∷ used) xs ≡ (not (has_port xs x) && unused used xs)
unused-cons x used [] = refl
unused-cons x used (y ∷ ys) = ground (arith, unused-cons x used ys, nat_eq_comm x y)

unused-nil : (xs : List ℕ) → unused [] xs ≡ true
unused-nil [] = refl
unused-nil (x ∷ xs) = unused-nil xs

is_empty-protocol_errors :
    (i : ℕ) (seen : List String) (cs : List ProtocolConfig)
    → is_empty (protocol_errors i seen cs) ≡ (distinct (protocols cs) && unseen seen (protocols cs))
unfolding protocol_errors
is_empty-protocol_errors i seen [] = refl
is_empty-protocol_errors i seen (c ∷ cs) = ground (
  arith,
  is_empty-append (report (contains seen c.protocol) _)
      (protocol_errors (suc i) (c.protocol ∷ seen) cs),
  is_empty-report (contains seen c.protocol) _,
  is_empty-protocol_errors (suc i) (c.protocol ∷ seen) cs,
  unseen-cons c.protocol seen (protocols cs),
)

is_empty-role_errors :
    (i : ℕ) (rs : List String) → is_empty (role_errors i rs) ≡ all is_known_role rs
unfolding role_errors
is_empty-role_errors i [] = refl
is_empty-role_errors i (r ∷ rs) = ground (
  arith,
  is_empty-append (report (not (is_known_role r)) _) (role_errors (suc i) rs),
  is_empty-report (not (is_known_role r)) _,
  is_empty-role_errors (suc i) rs,
)

-- No empty entry, and none twice.
abbrev pub proper_entries : List String → Bool
proper_entries es = distinct es && all (λ e. not (e == "")) es

is_empty-entry_errors :
    (path : String) (i : ℕ) (seen es : List String)
    → is_empty (entry_errors path i seen es) ≡ (proper_entries es && unseen seen es)
unfolding entry_errors
is_empty-entry_errors path i seen [] = refl
is_empty-entry_errors path i seen (e ∷ es) = ground (
  arith,
  is_empty-append (report (e == "") _)
      (report (contains seen e) _ ++ entry_errors path (suc i) (e ∷ seen) es),
  is_empty-append (report (contains seen e) _) (entry_errors path (suc i) (e ∷ seen) es),
  is_empty-report (e == "") _,
  is_empty-report (contains seen e) _,
  is_empty-entry_errors path (suc i) (e ∷ seen) es,
  unseen-cons e seen es,
)

is_empty-port_errors :
    (w : SingBoxNodeWebhook) (i : ℕ) (used : List ℕ) (cs : List ProtocolConfig)
    → is_empty (port_errors w i used cs) ≡ (
        distinct_ports (ports cs)
        && unused used (ports cs)
        && all (λ n. not (in_node_port_range w n)) (ports cs))
unfolding port_errors
is_empty-port_errors w i used [] = refl
is_empty-port_errors w i used (c ∷ cs) = elim (Bool-cases (nat_eq c.port 0)) [
  | inl unset ↦ rw unset (is_empty-port_errors w (suc i) used cs)
  | inr set ↦ rw set (
      ground (
        arith,
        is_empty-append (report (has_port used c.port) _ ++ report (in_node_port_range w c.port) _)
            (port_errors w (suc i) (c.port ∷ used) cs),
        is_empty-append (report (has_port used c.port) _) (report (in_node_port_range w c.port) _),
        is_empty-report (has_port used c.port) _,
        is_empty-report (in_node_port_range w c.port) _,
        is_empty-port_errors w (suc i) (c.port ∷ used) cs,
        unused-cons c.port used (ports cs),
      ))
]

-- What an inbound node must declare.
abbrev pub serves_inbound : SingBoxNode → Bool
serves_inbound node =
    not (node.spec.tag == "default")
    && any (λ c. c.protocol == effective_proto node) node.spec.supported_protocols

is_empty-inbound_errors :
    (node : SingBoxNode)
    → is_empty (inbound_errors node) ≡ (not (has_role node role_inbound) || serves_inbound node)
unfolding inbound_errors has_role
is_empty-inbound_errors node =
    let served : ProtocolConfig → Bool = λ c. c.protocol == effective_proto node in
    let named = any served node.spec.supported_protocols in
    ground (
      arith,
      any-contains node.spec.roles role_inbound,
      any-is_empty served node.spec.supported_protocols,
      is_empty-append (report (node.spec.tag == "default") (invalid (field "spec.tag"))) (
          if is_empty node.spec.supported_protocols
          then required (field "spec.supportedProtocols") ∷ []
          else report (not named) (invalid (field "spec.inboundProtocol"))),
      is_empty-report (node.spec.tag == "default") (invalid (field "spec.tag")),
      is_empty-report (not named) (invalid (field "spec.inboundProtocol")),
    )

-- Different ports, none of them in the range of node ports.
abbrev pub valid_ports : SingBoxNodeWebhook → List ℕ → Bool
valid_ports w ns = distinct_ports ns && all (λ n. not (in_node_port_range w n)) ns

-- What the webhook promises of a node that it admits.
abbrev pub valid_node : Platform → SingBoxNodeWebhook → SingBoxNode → Bool
valid_node p w node =
    let spec = node.spec in
    not (spec.address == "")
    && (p.parses_ip spec.address || is_valid_hostname spec.address)
    && distinct (protocols spec.supported_protocols)
    && valid_ports w (ports spec.supported_protocols)
    && (nat_eq spec.relay_port 0 || not (in_node_port_range w spec.relay_port))
    && not (is_empty spec.roles)
    && all is_known_role spec.roles
    && proper_entries spec.allowed_inbounds
    && proper_entries spec.allowed_outbounds
    && (not (has_role node role_inbound) || serves_inbound node)

is_empty-address_errors :
    (p : Platform) (address : String)
    → is_empty (address_errors p address)
      ≡ (not (address == "") && (p.parses_ip address || is_valid_hostname address))
unfolding address_errors
is_empty-address_errors p address =
    ground (arith, is_empty-report (not (is_valid_hostname address)) _)

unique_protocols :
    (cs : List ProtocolConfig) → is_empty (protocol_errors 0 [] cs) ≡ distinct (protocols cs)
unique_protocols cs = ground (arith, is_empty-protocol_errors 0 [] cs, unseen-nil (protocols cs))

free_ports :
    (w : SingBoxNodeWebhook) (cs : List ProtocolConfig)
    → is_empty (port_errors w 0 [] cs) ≡ valid_ports w (ports cs)
free_ports w cs = ground (arith, is_empty-port_errors w 0 [] cs, unused-nil (ports cs))

entries :
    (path : String) (es : List String) → is_empty (entry_errors path 0 [] es) ≡ proper_entries es
entries path es = ground (arith, is_empty-entry_errors path 0 [] es, unseen-nil es)

relay_port :
    (w : SingBoxNodeWebhook) (n : ℕ)
    → is_empty
        (report (not (nat_eq n 0) && in_node_port_range w n) (invalid (field "spec.relayPort")))
      ≡ (nat_eq n 0 || not (in_node_port_range w n))
relay_port w n =
    let clash = not (nat_eq n 0) && in_node_port_range w n in
    ground (arith, is_empty-report clash (invalid (field "spec.relayPort")))

-- The webhook admits a node exactly when it is valid.
pub validate_sing_box_node_iff :
    (p : Platform) (w : SingBoxNodeWebhook) (node : SingBoxNode)
    → is_empty (validate_sing_box_node p w node) ≡ valid_node p w node
unfolding validate_sing_box_node
validate_sing_box_node_iff p w node =
    let spec = node.spec in
    let start =
      both _ _ (is_empty-address_errors p spec.address)
        (unique_protocols spec.supported_protocols) in
    let free =
      both _ _ (both _ _ start (free_ports w spec.supported_protocols))
        (relay_port w spec.relay_port) in
    let roles =
      both _ _ (both _ _ free (is_empty-report (is_empty spec.roles) _))
        (is_empty-role_errors 0 spec.roles) in
    let lists =
      both _ _ (both _ _ roles (entries "spec.allowedInbounds" spec.allowed_inbounds))
        (entries "spec.allowedOutbounds" spec.allowed_outbounds) in
    both _ _ lists (is_empty-inbound_errors node)
