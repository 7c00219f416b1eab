-- ===== src/ApiServer/Reached.antt =====
-- The endpoints that the controller writes to a status, as the API server reads them.
use mathlib.Core.Path.{subst}
use mathlib.Core.Option.{some-injective}
use singbox_operator.Base.{
  ◌≤◌, String, join, true, some, List, [], ◌∷◌, any, ◌≡◌, refl, ap, ◌∙◌, arith, All, Bool-cases,
  inl, inr, cut_at, cut_at-append, lacks, letter-join, max_int, decimal, atoi-decimal, pos, ◌==◌,
}
use singbox_operator.Api.Objects.{ProtocolConfig, SingBoxNode, no_spec}
use singbox_operator.Engine.Types.{port_of, find_protocol_port}
use singbox_operator.Api.Conditions.{StatusConditions}
use singbox_operator.Controllers.Client.{found}
use singbox_operator.Controllers.Credentials.{Secrets}
use singbox_operator.Controllers.Status.{
  entry_endpoint, entry_endpoints, ReadCertificate, update_status,
}
use singbox_operator.ApiServer.Endpoints.{
  is_colon, split_three, find_entry_endpoint, supports_protocol,
}

-- The text after a separator that stands after `s`.
after : (s : String) → join ":" s ≡ String.◌∷◌ ":" s
after s = letter-join ":" s

split_three-entry_endpoint :
    (address : String) (p : ProtocolConfig)
    → lacks is_colon p.protocol ≡ true
    → lacks is_colon address ≡ true
    → split_three (entry_endpoint address p)
      ≡ some (record { protocol = p.protocol; address = address; port = decimal p.port })
unfolding split_three
split_three-entry_endpoint address p h k =
    let tail = join address (join ":" (decimal p.port)) in
    let first : cut_at is_colon (entry_endpoint address p) ≡ some (p.protocol, tail) =
      ap (λ x. cut_at is_colon (join p.protocol x)) (after tail)
      ∙ cut_at-append is_colon ":" p.protocol tail h refl in
    let second : cut_at is_colon tail ≡ some (address, decimal p.port) =
      ap (λ x. cut_at is_colon (join address x)) (after (decimal p.port))
      ∙ cut_at-append is_colon ":" address (decimal p.port) k refl in
    rw (split_three, first, second)

-- No protocol has a colon, and every port is an int.
abbrev pub IsPlain : ProtocolConfig → Type 0
IsPlain p = (lacks is_colon p.protocol ≡ true) × (p.port ≤ max_int)

find_entry_endpoint-map :
    (address protocol : String) (ps : List ProtocolConfig)
    → lacks is_colon address ≡ true
    → All IsPlain ps
    → any (λ p. p.protocol == protocol) ps ≡ true
    → find_entry_endpoint
        (entry_endpoints (record no_spec { address = address; supported_protocols = ps }))
        protocol
      ≡ some (record { address = address; port = pos (port_of ps protocol) })
unfolding find_entry_endpoint entry_endpoints
find_entry_endpoint-map address protocol [] h plain e = cc
find_entry_endpoint-map address protocol (p ∷ ps) h ((no_colon, fits), plain) e =
    elim (Bool-cases (p.protocol == protocol)) [
      | inl t ↦ rw (
        find_entry_endpoint,
        split_three-entry_endpoint address p no_colon h,
        t,
        atoi-decimal p.port fits,
      )
      | inr f ↦
          rw (find_entry_endpoint, split_three-entry_endpoint address p no_colon h, f)
            (find_entry_endpoint-map address protocol ps h plain (ground arith))
    ]

-- A client reads from the status that the controller writes the address of the node and the port
-- on which the engine lets the inbound listen, for a protocol that the node supports, where neither
-- the address nor a protocol has a colon, and the ports are ints.
pub find_entry_endpoint-update_status :
    (sc : StatusConditions) (read : ReadCertificate) (secrets : Secrets) (default hash : String)
    (latest n : SingBoxNode) (protocol : String)
    → update_status sc read secrets default hash (found latest) ≡ some n
    → lacks is_colon latest.spec.address ≡ true
    → All IsPlain latest.spec.supported_protocols
    → supports_protocol latest protocol ≡ true
    → find_entry_endpoint n.status.entry_endpoints protocol
      ≡ some (record {
        address = latest.spec.address;
        port = pos (find_protocol_port latest protocol);
      })
unfolding update_status supports_protocol find_protocol_port entry_endpoints
find_entry_endpoint-update_status sc read secrets default hash latest n protocol written h plain e =
    subst
      (λ m.
        find_entry_endpoint m.status.entry_endpoints protocol
        ≡ some (record {
          address = latest.spec.address;
          port = pos (find_protocol_port latest protocol);
        }))
      (some-injective _ n written)
      (find_entry_endpoint-map latest.spec.address protocol latest.spec.supported_protocols h plain
        e)
