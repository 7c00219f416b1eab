-- ===== src/Engine/Decided.antt =====
-- The rules that name the virtual user of a user and a target.
use mathlib.Core.Path.{subst}
use mathlib.Core.Option.{some-injective}
use singbox_operator.Base.{
  String, true, lacks, List, [], ◌∷◌, ◌≡◌, sym, ◌∙◌, ap, ◌==◌, contains, any-contains, All, All-any,
  All-mono, eq_iff, inl, inr, false≢true,
}
use mathlib.Core.List.{Memᴰ}
use singbox_operator.Api.Platform.{Platform}
use singbox_operator.Api.Objects.{User}
use singbox_operator.Engine.Types.{Input, RouteRule, virtual_user_name}
use singbox_operator.Engine.Policies.{policies_for_node}
use singbox_operator.Engine.Config.{compute_config}
use singbox_operator.Engine.Restrictions.{IsFor, Grants, config_rules-IsGranted}
use singbox_operator.Usage.Counters.{is_hash, cut}
use singbox_operator.Usage.Parsed.{cut-plain}

-- No user's name has the separator of a virtual user.
abbrev pub PlainNames : List User → Type 0
PlainNames = All (λ u. lacks is_hash u.name ≡ true)

All-Memᴰ {ℓ κ} : {A : Type ℓ} (P : A → Type κ) (xs : List A) (x : A) → All P xs → Memᴰ x xs → P x
All-Memᴰ P [] x h m = elim m [ ]
All-Memᴰ P (y ∷ ys) x (q, h) (Memᴰ.head same) = subst P (sym same) q
All-Memᴰ P (y ∷ ys) x (q, h) (Memᴰ.tail m) = All-Memᴰ P ys x h m

-- A virtual user stands for one user and one target.
virtual_user_name-target :
    (u v k t : String)
    → lacks is_hash u ≡ true
    → lacks is_hash v ≡ true
    → virtual_user_name u k ≡ virtual_user_name v t
    → k ≡ t
unfolding virtual_user_name
virtual_user_name-target u v k t h g e =
    ap (λ x. x.1)
      (some-injective (u, k) (v, t) (sym (cut-plain u k h) ∙ (ap cut e ∙ cut-plain v t g)))

module _ (p : Platform) (input : Input) (name k : String) where
  Grants-IsFor :
      lacks is_hash name ≡ true
      → PlainNames input.users
      → (r : RouteRule) → Grants p input (policies_for_node input) r
      → contains r.auth_user (virtual_user_name name k) ≡ true
      → IsFor p input (policies_for_node input) k r
  Grants-IsFor plain plain_users r (inl (q, m, h)) named =
      absurd (false≢true (sym (ap (λ us. contains us (virtual_user_name name k)) h.0) ∙ named))
  Grants-IsFor plain plain_users r (inr (t, some_user, granted, for)) named =
      let (s, g, same) =
        All-any (λ x. x == virtual_user_name name k) r.auth_user granted
          (sym (any-contains r.auth_user (virtual_user_name name k)) ∙ named) in
      let t_k : t ≡ k =
        virtual_user_name-target g.user.name name t k
          (All-Memᴰ (λ u. lacks is_hash u.name ≡ true) input.users g.user plain_users g.known) plain
          (sym g.virtual ∙ (eq_iff s (virtual_user_name name k)).0 same) in
      subst (λ x. IsFor p input (policies_for_node input) x r) t_k for

  pub compute_config-IsFor :
      lacks is_hash name ≡ true
      → PlainNames input.users
      → All
          (λ r.
            contains r.auth_user (virtual_user_name name k) ≡ true
            → IsFor p input (policies_for_node input) k r)
          (compute_config p input).rules
  compute_config-IsFor plain plain_users =
      All-mono (Grants-IsFor plain plain_users) (compute_config p input).rules
        (config_rules-IsGranted p input)
