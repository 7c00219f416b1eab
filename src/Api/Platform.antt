-- ===== src/Api/Platform.antt =====
-- Code outside the repository, as functions that the model takes: k8s.io/apimachinery
-- (LabelSelectorAsSelector, IsDNS1123Subdomain), and Go's regexp, net and crypto packages.
use singbox_operator.Base.{ℕ, String, Bool, Option, List, StringMap}

-- metav1.LabelSelectorRequirement
pub record Requirement : Type 0 where
  pub key : String
  pub operator : String
  pub values : List String

-- metav1.LabelSelector
pub record LabelSelector : Type 0 where
  pub match_labels : StringMap String
  pub match_expressions : List Requirement

pub record Platform : Type 0 where
  -- metav1.LabelSelectorAsSelector: `none` is its error, `some` the selector's test of labels.
  pub as_selector : LabelSelector → Option (StringMap String → Bool)
  -- Whether regexp.Compile and net.ParseCIDR return no error, and net.ParseIP no nil.
  pub compiles : String → Bool
  pub parses_cidr : String → Bool
  pub parses_ip : String → Bool
  -- Whether validation.IsDNS1123Subdomain returns no error.
  pub is_subdomain : String → Bool
  -- sha1.Sum and sha256.Sum256, on bytes.
  pub sha1 : List ℕ → List ℕ
  pub sha256 : List ℕ → List ℕ
