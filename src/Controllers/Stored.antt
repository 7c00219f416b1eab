-- ===== src/Controllers/Stored.antt =====
-- Relay credentials, as they are ensured and read.
use mathlib.Core.Path.{subst}
use singbox_operator.Base.{
  String, ◌&&◌, Option, none, some, [], ◌∷◌, ◌≡◌, refl, Bool-cases, inl, inr, StringMap, eq_refl,
  sym,
}
use singbox_operator.Api.Objects.{SingBoxNode}
use singbox_operator.Engine.Types.{NodeCredential}
use singbox_operator.Controllers.Client.{Got, found, not_found, failed}
use singbox_operator.Controllers.Credentials.{
  Secrets, secret_name, node_credential, get_node_credential, with_secret, Outcomes,
  ensure_node_credential,
}

-- A Secret with the credential is there, and stays.
module _ (again : Outcomes) (node : SingBoxNode) (cred : NodeCredential) where
  abbrev Kept : Secrets → Type 0
  Kept secrets =
      (get_node_credential secrets node.name node.namespace ≡ some cred)
      × (ensure_node_credential again node secrets ≡ (some cred, secrets))

  stored-Kept :
      (secrets : Secrets) (m : StringMap String)
      → secrets node.namespace (secret_name node.name) ≡ found m
      → node_credential m ≡ cred
      → Kept secrets
  unfolding get_node_credential ensure_node_credential
  stored-Kept secrets m e h = (rw (get_node_credential, e, h), rw (ensure_node_credential, e, h))

-- After a credential is ensured, reading it gives the same credential, and ensuring it again, with
-- whatever the generators and the client would give then, gives it once more and changes nothing.
pub ensure_node_credential-get_node_credential :
    (o again : Outcomes) (node : SingBoxNode) (secrets : Secrets) (cred : NodeCredential)
    → (ensure_node_credential o node secrets).0 ≡ some cred
    → (get_node_credential (ensure_node_credential o node secrets).1 node.name node.namespace
        ≡ some cred)
      × (ensure_node_credential again node (ensure_node_credential o node secrets).1
          ≡ (some cred, (ensure_node_credential o node secrets).1))
unfolding ensure_node_credential get_node_credential
ensure_node_credential-get_node_credential o again node secrets cred h =
    go (secrets node.namespace (secret_name node.name)) refl
  where
    go :
        (got : Got (StringMap String))
        → secrets node.namespace (secret_name node.name) ≡ got
        → Kept again node cred (ensure_node_credential o node secrets).1
    go (found m) e =
        let same = rw (ensure_node_credential, e) at h in
        let after : (ensure_node_credential o node secrets).1 ≡ secrets =
          rw (ensure_node_credential, e) in
        subst (Kept again node cred) (sym after) (stored-Kept again node cred secrets m e (cc))
    go failed e = let bad = rw (ensure_node_credential, e) at h in absurd (cc)
    go not_found e = make o.password refl
      where
        make :
            (password : Option String)
            → o.password ≡ password
            → Kept again node cred (ensure_node_credential o node secrets).1
        make none f = let bad = rw (ensure_node_credential, e, f) at h in absurd (cc)
        make (some password) f = elim (Bool-cases (o.owned && o.created)) [
          | inr lost ↦ let bad = rw (ensure_node_credential, e, f, lost) at h in absurd (cc)
          | inl made ↦
              let same = rw (ensure_node_credential, e, f, made) at h in
              let contents = ("username", o.username) ∷ ("password", password) ∷ [] in
              let name = secret_name node.name in
              let after : (ensure_node_credential o node secrets).1
                  ≡ with_secret node.namespace name contents secrets =
                rw (ensure_node_credential, e, f, made) in
              let there : with_secret node.namespace name contents secrets node.namespace name
                  ≡ found contents =
                rw (eq_refl node.namespace, eq_refl name) in
              subst (Kept again node cred) (sym after)
                (stored-Kept again node cred _ contents there (cc))
        ]
