-- ===== src/Controllers/Accepted.antt =====
-- External outbounds in the webhook, the controller and the engine: specifications, credentials.
use singbox_operator.Base.{
  String, true, false, not, ◌&&◌, ◌||◌, Option, none, some, List, [], ◌∷◌, ◌++◌, StringMap,
  lookup_or, keep, find, is_empty, ◌==◌, ◌≡◌, refl, ◌∙◌, arith, Bool-cases, inl, inr, eq_iff,
}
use singbox_operator.Api.Objects.{ExternalOutbound}
use singbox_operator.Engine.Types.{ExternalCredential}
use singbox_operator.Engine.Policies.{required, wants_obfs, has_required_external_creds}
use singbox_operator.Webhooks.Errors.{
  field, forbidden, required as missing, report, is_empty-append, is_empty-report,
}
use singbox_operator.Webhooks.Externals.{is_set, tls_errors, validate_external_outbound}
use singbox_operator.Controllers.Client.{Got, found, not_found, failed, Client}
use singbox_operator.Controllers.Credentials.{get_external_credentials}
use singbox_operator.Controllers.Externals.{
  tls_violation, spec_violation, required_credential_keys, is_unset, data_violation, Checked,
  checked, failed_call, name_conflict, credential_violation, and_then, reconcile,
}

is_empty-tls_errors :
    (eob : ExternalOutbound)
    → is_empty (tls_errors eob.spec.protocol eob.spec.tls)
      ≡ not (tls_violation eob.spec.protocol eob.spec.tls)
unfolding tls_errors tls_violation
is_empty-tls_errors eob = elim eob.spec.tls [ none ↦ ground arith | some tls ↦ ground arith ]

-- The webhook admits exactly the external outbounds in whose specification the controller finds no
-- violation.
pub validate_external_outbound_iff :
    (eob : ExternalOutbound)
    → is_empty (validate_external_outbound eob) ≡ not (is_set (spec_violation eob))
unfolding validate_external_outbound spec_violation
validate_external_outbound_iff eob =
    let protocol = eob.spec.protocol in
    let misplaced = is_set eob.spec.hysteria2 && not (protocol == "hysteria2") in
    let secretless =
      not (is_set eob.spec.credentials_secret_ref)
      && not (protocol == "socks5")
      && not (protocol == "http") in
    let hysteria2 = report misplaced (forbidden (field "spec.hysteria2")) in
    let secret = report secretless (missing (field "spec.credentialsSecretRef")) in
    ground (
      arith,
      is_empty-append (tls_errors protocol eob.spec.tls ++ hysteria2) secret,
      is_empty-append (tls_errors protocol eob.spec.tls) hysteria2,
      is_empty-tls_errors eob,
      is_empty-report misplaced (forbidden (field "spec.hysteria2")),
      is_empty-report secretless (missing (field "spec.credentialsSecretRef")),
    )

-- The engine finds all credentials that it needs exactly when the controller misses no key.
pub has_required_external_creds-required_credential_keys :
    (eob : ExternalOutbound) (creds : ExternalCredential)
    → has_required_external_creds eob creds ≡ required (required_credential_keys eob) creds
unfolding has_required_external_creds required_credential_keys
has_required_external_creds-required_credential_keys eob creds =
    let p = eob.spec.protocol in
    elim (Bool-cases (p == "shadowsocks")) [
      | inl t ↦ rw t
      | inr ss ↦ elim (Bool-cases (p == "tuic")) [
        | inl t ↦ rw ((eq_iff p "tuic").0 t)
        | inr tuic ↦ elim (Bool-cases (p == "trojan")) [
          | inl t ↦ rw ((eq_iff p "trojan").0 t) (ground arith)
          | inr trojan ↦ elim (Bool-cases (p == "anytls")) [
            | inl t ↦ rw ((eq_iff p "anytls").0 t) (ground arith)
            | inr anytls ↦ elim (Bool-cases (p == "hysteria2")) [
              | inl t ↦
                  rw ((eq_iff p "hysteria2").0 t)
                    (elim (Bool-cases (wants_obfs eob.spec.hysteria2)) [
                      | inl w ↦ rw w (ground arith)
                      | inr w ↦ rw w (ground arith)
                    ])
              | inr hysteria2 ↦ rw (ss, tuic, trojan, anytls, hysteria2)
            ]
          ]
        ]
      ]
    ]

-- Dropping the empty values of a Secret changes no value that is set.
lookup_or-keep :
    (m : StringMap String) (k : String)
    → lookup_or "" k m == "" ≡ false
    → lookup_or "" k (keep (λ v. not (v.1 == "")) m) == "" ≡ false
lookup_or-keep [] k h = h
lookup_or-keep ((j, v) ∷ m) k h = elim (Bool-cases (v == "")) [
  | inl unset ↦ rw unset (ground (arith, lookup_or-keep m k))
  | inr value ↦ rw value (ground (arith, lookup_or-keep m k))
]

required-keep :
    (m : StringMap String) (keys : List String)
    → is_set (find (is_unset m) keys) ≡ false
    → required keys (keep (λ v. not (v.1 == "")) m) ≡ true
required-keep m [] h = refl
required-keep m (k ∷ keys) h = elim (Bool-cases (is_unset m k)) [
  | inl unset ↦ ground arith
  | inr value ↦ ground (arith, lookup_or-keep m k value, required-keep m keys)
]

-- Protocols that may go without credentials require no key.
no_keys :
    (eob : ExternalOutbound) (p : String)
    → eob.spec.protocol ≡ p
    → (p == "socks5" || p == "http") ≡ true
    → required_credential_keys eob ≡ []
unfolding required_credential_keys
no_keys eob p e h = elim (Bool-cases (p == "socks5")) [
  | inl socks5 ↦ rw (e ∙ (eq_iff p "socks5").0 socks5)
  | inr other ↦ rw (e ∙ (eq_iff p "http").0 (ground arith))
]

keys_set :
    (eob : ExternalOutbound) (m : StringMap String) (o : Option String)
    → find (is_unset m) (required_credential_keys eob) ≡ o
    → (eob.spec.protocol == "socks5" || eob.spec.protocol == "http") ≡ false
    → data_violation eob m ≡ none
    → o ≡ none
unfolding data_violation
keys_set eob m none e p h = refl
keys_set eob m (some k) e p h = let bad = rw (p, e) at h in cc

data_violation-keys :
    (eob : ExternalOutbound) (m : StringMap String)
    → data_violation eob m ≡ none
    → is_set (find (is_unset m) (required_credential_keys eob)) ≡ false
data_violation-keys eob m h =
    elim (Bool-cases (eob.spec.protocol == "socks5" || eob.spec.protocol == "http")) [
      | inl free ↦ rw (no_keys eob eob.spec.protocol refl free)
      | inr bound ↦ rw (keys_set eob m _ refl bound h)
    ]

and_then-none :
    (a b : Checked) → and_then a b ≡ checked none → (a ≡ checked none) × (b ≡ checked none)
and_then-none failed_call b h = cc
and_then-none (checked (some r)) b h = cc
and_then-none (checked none) b h = (refl, h)

unreferenced :
    (eob : ExternalOutbound)
    → eob.spec.credentials_secret_ref ≡ none
    → spec_violation eob ≡ none
    → (eob.spec.protocol == "socks5" || eob.spec.protocol == "http") ≡ true
unfolding spec_violation
unreferenced eob e h = ground arith

-- The credentials of an outbound with or without a reference, by what the Secret holds.
loaded :
    (c : Client) (eob : ExternalOutbound) (ref : Option String)
    → eob.spec.credentials_secret_ref ≡ ref
    → spec_violation eob ≡ none
    → credential_violation c eob ≡ checked none
    → (creds : ExternalCredential) × (get_external_credentials c.get_secret eob ≡ some creds)
      × (has_required_external_creds eob creds ≡ true)
unfolding credential_violation get_external_credentials
loaded c eob none e spec h =
    let free = no_keys eob eob.spec.protocol refl (unreferenced eob e spec) in
    ([], rw e, has_required_external_creds-required_credential_keys eob [] ∙ rw free)
loaded c eob (some ref) e spec h = read (c.get_secret eob.namespace ref) refl
  where
    read :
        (got : Got (StringMap String))
        → c.get_secret eob.namespace ref ≡ got
        → (creds : ExternalCredential) × (get_external_credentials c.get_secret eob ≡ some creds)
          × (has_required_external_creds eob creds ≡ true)
    read (found m) g =
        let same = rw (e, credential_violation, g) at h in
        let clean : data_violation eob m ≡ none = cc in
        (
          keep (λ v. not (v.1 == "")) m,
          rw (e, get_external_credentials, g),
          has_required_external_creds-required_credential_keys eob _
              ∙ required-keep m (required_credential_keys eob) (data_violation-keys eob m clean),
        )
    read not_found g = let bad = rw (e, credential_violation, g) at h in absurd (cc)
    read failed g = let bad = rw (e, credential_violation, g) at h in absurd (cc)

-- An external outbound that the controller accepts has the credentials that the engine needs: the
-- Secret, if the outbound refers to one, can be read, and it sets every key of the protocol.
pub reconcile-has_required_external_creds :
    (c : Client) (eob : ExternalOutbound)
    → reconcile c eob ≡ checked none
    → (creds : ExternalCredential) × (get_external_credentials c.get_secret eob ≡ some creds)
      × (has_required_external_creds eob creds ≡ true)
unfolding reconcile
reconcile-has_required_external_creds c eob h =
    let (first, creds) = and_then-none _ (credential_violation c eob) h in
    let (spec, name) = and_then-none (checked (spec_violation eob)) (name_conflict c eob) first in
    loaded c eob _ refl (cc) creds
