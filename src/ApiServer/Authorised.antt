-- ===== src/ApiServer/Authorised.antt =====
-- Whom the handler answers with a configuration.
use mathlib.Core.Path.{subst}
use mathlib.Core.Option.{some-injective}
use singbox_operator.Controllers.Client.{Client}
use singbox_operator.Base.{
  ◌>>=◌, String, Bool, true, false, not, Option, none, some, List, [], ◌∷◌, find, StringMap,
  if◌then◌else◌, ◌≡◌, refl, sym, ap, ◌∙◌, Bool-cases, Option-cases, inl, inr,
}
use singbox_operator.Api.Platform.{Platform}
use singbox_operator.Api.Objects.{User}
use singbox_operator.Engine.Types.{UserCredential}
use singbox_operator.Controllers.Credentials.{Secrets, get_user_credential}
use singbox_operator.ApiServer.Targets.{ClientConfigInput}
use singbox_operator.ApiServer.Json.{Json}
use singbox_operator.ApiServer.Requests.{request_of, is_uuid, equal_fold}
use singbox_operator.ApiServer.Handler.{
  status_bad_request, status_internal_error, status_ok, Server, Matched, group_sets, match_user,
  client_config_input, respond, serve, handle_request, handle_client_config,
}

-- Whether the credential of a user can be read, and is the UUID, but for the case of letters.
abbrev pub owns : Secrets → String → User → Bool
owns secrets uuid u = elim (get_user_credential secrets u) [
  | none ↦ false
  | some cred ↦ equal_fold cred.uuid uuid
]

-- The user who was found is the first such one.
abbrev pub IsFirst : Secrets → String → List User → Option Matched → Type 0
IsFirst secrets uuid us none = find (owns secrets uuid) us ≡ none
IsFirst secrets uuid us (some m) =
    (find (owns secrets uuid) us ≡ some m.user)
    × (get_user_credential secrets m.user ≡ some m.cred)
    × (equal_fold m.cred.uuid uuid ≡ true)

module _ (secrets : Secrets) (uuid : String) where
  match_user-some : (m : Matched) (us : List User) → match_user secrets uuid (some m) us ≡ some m
  unfolding match_user
  match_user-some m [] = refl
  match_user-some m (u ∷ us) = elim (Option-cases (get_user_credential secrets u)) [
    | inl e ↦ rw (match_user, e) (match_user-some m us)
    | inr (cred, e) ↦ elim (Bool-cases (equal_fold cred.uuid uuid)) [
      | inl t ↦ rw (match_user, e, t)
      | inr f ↦ rw (match_user, e, f) (match_user-some m us)
    ]
  ]

  IsFirst-skip :
      (u : User) (us : List User) (o : Option Matched)
      → owns secrets uuid u ≡ false
      → IsFirst secrets uuid us o
      → IsFirst secrets uuid (u ∷ us) o
  IsFirst-skip u us none h first =
      ap (λ b. if b then some u else find (owns secrets uuid) us) h ∙ first
  IsFirst-skip u us (some m) h (first, owned, same) =
      (ap (λ b. if b then some u else find (owns secrets uuid) us) h ∙ first, owned, same)

  match_user-IsFirst : (us : List User) → IsFirst secrets uuid us (match_user secrets uuid none us)
  unfolding match_user
  match_user-IsFirst [] = refl
  match_user-IsFirst (u ∷ us) = elim (Option-cases (get_user_credential secrets u)) [
    | inl e ↦
        let other : owns secrets uuid u ≡ false = rw (owns, e) in
        subst (IsFirst secrets uuid (u ∷ us)) (sym (skipped e))
          (IsFirst-skip u us (match_user secrets uuid none us) other (match_user-IsFirst us))
    | inr (cred, e) ↦ elim (Bool-cases (equal_fold cred.uuid uuid)) [
      | inl t ↦
          let m : Matched = record { user = u; cred = cred } in
          let own : owns secrets uuid u ≡ true = rw (owns, e, t) in
          subst (IsFirst secrets uuid (u ∷ us)) (sym (taken cred e t))
            (ap (λ b. if b then some u else find (owns secrets uuid) us) own, e, t)
      | inr f ↦
          let other : owns secrets uuid u ≡ false = rw (owns, e, f) in
          subst (IsFirst secrets uuid (u ∷ us)) (sym (unequal cred e f))
            (IsFirst-skip u us (match_user secrets uuid none us) other (match_user-IsFirst us))
    ]
  ]
    where
      skipped :
          get_user_credential secrets u ≡ none
          → match_user secrets uuid none (u ∷ us) ≡ match_user secrets uuid none us
      skipped e = rw (match_user, e)

      taken :
          (cred : UserCredential)
          → get_user_credential secrets u ≡ some cred
          → equal_fold cred.uuid uuid ≡ true
          → match_user secrets uuid none (u ∷ us) ≡ some (record { user = u; cred = cred })
      taken cred e t = rw (match_user, e, t) (match_user-some (record { user = u; cred = cred }) us)

      unequal :
          (cred : UserCredential)
          → get_user_credential secrets u ≡ some cred
          → equal_fold cred.uuid uuid ≡ false
          → match_user secrets uuid none (u ∷ us) ≡ match_user secrets uuid none us
      unequal cred e f = rw (match_user, e, f)

pub bind-some {ℓ κ} :
    {A : Type ℓ} {B : Type κ} (o : Option A) (f : A → Option B) (b : B)
    → (o >>= f) ≡ some b
    → (a : A) × (o ≡ some a) × (f a ≡ some b)
bind-some none f b e = cc
bind-some (some a) f b e = (a, refl, e)

client_config_input-user :
    (p : Platform) (c : Client) (namespace : String) (m : Matched) (input : ClientConfigInput)
    → client_config_input p c namespace m ≡ some input
    → (input.user ≡ m.user) × (input.user_cred ≡ m.cred)
unfolding client_config_input
client_config_input-user p c namespace m input e =
    let (nodes, n, e1) = bind-some (c.list_nodes namespace) _ input e in
    let (externals, x, e2) = bind-some (c.list_externals namespace) _ input e1 in
    let (policies, q, e3) = bind-some (c.list_policies namespace) _ input e2 in
    let (s, g, e4) = bind-some (group_sets c namespace m.user) _ input e3 in
    let made = some-injective _ input e4 in
    (ap (λ i. i.user) (sym made), ap (λ i. i.user_cred) (sym made))

-- What is known of a request that is answered with a configuration.
abbrev pub IsOwners : Platform → Server → String → StringMap Json → Type 0
IsOwners p s path body =
    (namespace uuid : String) × (users : List User) × (m : Matched) × (input : ClientConfigInput)
    × ((request_of path ≡ some (namespace, uuid))
        × (is_uuid uuid ≡ true)
        × (s.client.list_users namespace ≡ some users)
        × (IsFirst s.client.get_secret uuid users (some m))
        × (client_config_input p s.client namespace m ≡ some input)
        × (input.user ≡ m.user)
        × (input.user_cred ≡ m.cred)
        × (respond p s input ≡ status_ok body))

module _ (p : Platform) (s : Server) (path : String) (body : StringMap Json) where
  handle_request-IsOwners :
      (request : Option (String × String))
      → request_of path ≡ request
      → handle_request p s request ≡ status_ok body
      → IsOwners p s path body
  handle_request-IsOwners none r h = cc
  handle_request-IsOwners (some (namespace, uuid)) r h =
      checked (is_uuid uuid) refl (s.client.list_users namespace) refl h
    where
      served :
          (users : List User) (m : Matched)
          → is_uuid uuid ≡ true
          → s.client.list_users namespace ≡ some users
          → match_user s.client.get_secret uuid none users ≡ some m
          → (made : Option ClientConfigInput) → client_config_input p s.client namespace m ≡ made
          → elim made [ none ↦ status_internal_error | some input ↦ respond p s input ]
            ≡ status_ok body
          → IsOwners p s path body
      served users m ok listed matched none made h = cc
      served users m ok listed matched (some input) made h =
          let (own_user, own_cred) = client_config_input-user p s.client namespace m input made in
          (
            namespace,
            uuid,
            users,
            m,
            input,
            (
              r,
              ok,
              listed,
              subst (IsFirst s.client.get_secret uuid users) matched
                  (match_user-IsFirst s.client.get_secret uuid users),
              made,
              own_user,
              own_cred,
              h,
            ),
          )

      found_user :
          (users : List User) (hit : Option Matched)
          → is_uuid uuid ≡ true
          → s.client.list_users namespace ≡ some users
          → match_user s.client.get_secret uuid none users ≡ hit
          → serve p s namespace hit ≡ status_ok body
          → IsOwners p s path body
      found_user users none ok listed matched h = cc
      found_user users (some m) ok listed matched h =
          served users m ok listed matched (client_config_input p s.client namespace m) refl h

      checked :
          (ok : Bool)
          → is_uuid uuid ≡ ok
          → (users : Option (List User)) → s.client.list_users namespace ≡ users
          → (if not ok then status_bad_request else elim users [
            | none ↦ status_internal_error
            | some us ↦ serve p s namespace (match_user s.client.get_secret uuid none us)
          ])
            ≡ status_ok body
          → IsOwners p s path body
      checked false e users listed h = cc
      checked true e none listed h = cc
      checked true e (some users) listed h =
          found_user users (match_user s.client.get_secret uuid none users) e listed refl h

  -- A request is answered with a configuration only if its path has a namespace and a well-formed
  -- UUID, and the configuration is made for the first user of the namespace whose Secret can be read
  -- and has that UUID, but for the case of letters, with that user's credential.
  pub handle_client_config-IsOwners :
      handle_client_config p s path ≡ status_ok body → IsOwners p s path body
  unfolding handle_client_config
  handle_client_config-IsOwners h = handle_request-IsOwners (request_of path) refl h
