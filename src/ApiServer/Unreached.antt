-- ===== src/ApiServer/Unreached.antt =====
-- An address with a colon, such as one of IPv6.
use Prim.Native.Char.{code}
use mathlib.Core.Path.{subst}
use mathlib.Core.Option.{some-injective}
use text.Mathlib.TextLemmas.{nil-append, cons-append}
use singbox_operator.Base.{
  ℕ, ◌+◌, ◌-◌, ◌*◌, nat_eq, leb, String, join, true, false, ◌&&◌, none, some, List, [], ◌∷◌, ◌≡◌,
  refl, ap, ◌∙◌, arith, All, Bool-cases, inl, inr, cut_at, cut_at-append, lacks, letter,
  letter-join, digits_value, magnitude, in_range, negated, atoi, decimal, ◌==◌,
}
use singbox_operator.Api.Objects.{ProtocolConfig, SingBoxNode, no_spec}
use singbox_operator.Api.Conditions.{StatusConditions}
use singbox_operator.Controllers.Client.{found}
use singbox_operator.Controllers.Credentials.{Secrets}
use singbox_operator.Controllers.Status.{
  entry_endpoint, entry_endpoints, ReadCertificate, update_status,
}
use singbox_operator.ApiServer.Endpoints.{is_colon, split_three, endpoint_of, find_entry_endpoint}

digits_value-colon : (n : ℕ) (s : String) → lacks is_colon s ≡ false → digits_value n s ≡ none
unfolding digits_value
digits_value-colon n String.[] h = cc
digits_value-colon n (String.◌∷◌ c s) h =
    elim (Bool-cases (leb b'0' (code c) && leb (code c) b'9')) [
      | inr f ↦ rw (digits_value, f)
      | inl t ↦
          let other : is_colon c ≡ false = ground arith in
          let rest : lacks is_colon s ≡ false = ground arith in
          rw (digits_value, t) (digits_value-colon (n * 10 + (code c - b'0')) s rest)
    ]

magnitude-colon : (s : String) → lacks is_colon s ≡ false → magnitude s ≡ none
magnitude-colon s h = elim (Bool-cases (s == "")) [
  | inl t ↦ rw t
  | inr f ↦ rw f (digits_value-colon 0 s h)
]

atoi-colon : (s : String) → lacks is_colon s ≡ false → atoi s ≡ none
unfolding atoi
atoi-colon String.[] h = cc
atoi-colon (String.◌∷◌ c s) h = elim (Bool-cases (nat_eq (code c) b'-')) [
  | inl t ↦
      let rest : lacks is_colon s ≡ false = ground arith in
      rw (atoi, t) (ap negated (magnitude-colon s rest))
  | inr f ↦
      rw (atoi, f)
        (elim (Bool-cases (nat_eq (code c) b'+')) [
          | inl t ↦
              let rest : lacks is_colon s ≡ false = ground arith in
              rw t (ap in_range (magnitude-colon s rest))
          | inr g ↦ rw g (ap in_range (magnitude-colon (String.◌∷◌ c s) h))
        ])
]

-- Where `s` has a separator, the text is cut inside `s`.
cut_at_inside :
    (s t : String)
    → lacks is_colon s ≡ false
    → (b a : String) × (cut_at is_colon (join s t) ≡ some (b, join a t))
unfolding cut_at
cut_at_inside String.[] t h = cc
cut_at_inside (String.◌∷◌ c s) t h = elim (Bool-cases (is_colon c)) [
  | inl here ↦ ("", s, ap (cut_at is_colon) (cons-append c s t) ∙ rw (cut_at, here))
  | inr later ↦
      let rest : lacks is_colon s ≡ false = ground arith in
      let (b, a, e) = cut_at_inside s t rest in
      (join (letter c) b, a, ap (cut_at is_colon) (cons-append c s t) ∙ rw (cut_at, later, e))
]

lacks-append-colon : (a t : String) → lacks is_colon (join a (String.◌∷◌ ":" t)) ≡ false
lacks-append-colon String.[] t = ap (lacks is_colon) (nil-append (String.◌∷◌ ":" t))
lacks-append-colon (String.◌∷◌ c a) t =
    ap (lacks is_colon) (cons-append c a (String.◌∷◌ ":" t))
    ∙ ground (arith, lacks-append-colon a t)

-- The endpoint of one protocol does not parse: what should be its port has a colon.
endpoint_of-entry_endpoint :
    (address protocol : String) (p : ProtocolConfig)
    → lacks is_colon p.protocol ≡ true
    → lacks is_colon address ≡ false
    → endpoint_of protocol (split_three (entry_endpoint address p)) ≡ none
unfolding split_three
endpoint_of-entry_endpoint address protocol p h k =
    let rest = String.◌∷◌ ":" (decimal p.port) in
    let (b, a, inside) = cut_at_inside address rest k in
    let first : cut_at is_colon (entry_endpoint address p)
        ≡ some (p.protocol, join address (join ":" (decimal p.port))) =
      ap (λ x. cut_at is_colon (join p.protocol x))
        (letter-join ":" (join address (join ":" (decimal p.port))))
      ∙ cut_at-append is_colon ":" p.protocol (join address (join ":" (decimal p.port))) h refl in
    let second : cut_at is_colon (join address (join ":" (decimal p.port)))
        ≡ some (b, join a rest) =
      ap (λ x. cut_at is_colon (join address x)) (letter-join ":" (decimal p.port)) ∙ inside in
    let bad : atoi (join a rest) ≡ none =
      atoi-colon (join a rest) (lacks-append-colon a (decimal p.port)) in
    elim (Bool-cases (p.protocol == protocol)) [
      | inl t ↦ rw (split_three, first, second, t, bad)
      | inr f ↦ rw (split_three, first, second, f)
    ]

find_entry_endpoint-colon :
    (address protocol : String) (ps : List ProtocolConfig)
    → lacks is_colon address ≡ false
    → All (λ p. lacks is_colon p.protocol ≡ true) ps
    → find_entry_endpoint
        (entry_endpoints (record no_spec { address = address; supported_protocols = ps }))
        protocol
      ≡ none
unfolding find_entry_endpoint entry_endpoints
find_entry_endpoint-colon address protocol [] h plain = refl
find_entry_endpoint-colon address protocol (p ∷ ps) h (no_colon, plain) =
    rw (find_entry_endpoint, endpoint_of-entry_endpoint address protocol p no_colon h)
      (find_entry_endpoint-colon address protocol ps h plain)

-- Where the address of a node has a colon, and no protocol has one, no client finds an endpoint in
-- the status that the controller writes, for any protocol.
pub update_status-find_entry_endpoint :
    (sc : StatusConditions) (read : ReadCertificate) (secrets : Secrets) (default hash : String)
    (latest n : SingBoxNode) (protocol : String)
    → update_status sc read secrets default hash (found latest) ≡ some n
    → lacks is_colon latest.spec.address ≡ false
    → All (λ p. lacks is_colon p.protocol ≡ true) latest.spec.supported_protocols
    → find_entry_endpoint n.status.entry_endpoints protocol ≡ none
unfolding update_status entry_endpoints
update_status-find_entry_endpoint sc read secrets default hash latest n protocol written h plain =
    subst (λ m. find_entry_endpoint m.status.entry_endpoints protocol ≡ none)
      (some-injective _ n written)
      (find_entry_endpoint-colon latest.spec.address protocol latest.spec.supported_protocols h
        plain)
