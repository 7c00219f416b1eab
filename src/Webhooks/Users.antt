-- ===== src/Webhooks/Users.antt =====
-- internal/webhook/user_webhook.go and usergroup_webhook.go
use singbox_operator.Base.{ℕ, suc, String, not, ◌&&◌, List, [], ◌∷◌, ◌++◌, ◌==◌}
use singbox_operator.Api.Platform.{Platform}
use singbox_operator.Api.Objects.{User, UserGroup}
use singbox_operator.Webhooks.Errors.{field, element, FieldError, required, invalid, report}

module _ (p : Platform) where
  unfoldable pub validate_user : User → List FieldError
  validate_user user =
      report (user.spec.auth_secret_name == "") (required (field "spec.authSecret.name"))
      ++ report
          (not (user.spec.user_group_ref == "") && not (p.is_subdomain user.spec.user_group_ref))
          (invalid (field "spec.userGroupRef"))

  -- The loops on allowedNodes and deniedNodes, which differ in their path.
  unfoldable pub name_errors : String → ℕ → List String → List FieldError
  name_errors path i [] = []
  name_errors path i (n ∷ ns) =
      report (not (p.is_subdomain n)) (invalid (element path i "")) ++ name_errors path (suc i) ns

  unfoldable pub validate_user_group : UserGroup → List FieldError
  validate_user_group ug =
      name_errors "spec.allowedNodes" 0 ug.allowed_nodes
      ++ name_errors "spec.deniedNodes" 0 ug.denied_nodes
