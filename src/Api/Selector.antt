-- ===== src/Api/Selector.antt =====
-- EgressPolicySelector.Valid and Matches, and EgressPolicyMatch.Valid:
-- api/v1alpha1/egresspolicy_types.go. A Go error is `true` in `*_error`, or an Option of its kind.
use singbox_operator.Base.{
  String, Bool, true, false, not, ◌&&◌, Option, none, some, StringMap, ◌==◌, all, any, is_empty,
  if◌then◌else◌,
}
use singbox_operator.Api.Platform.{LabelSelector, Platform}
use singbox_operator.Api.Objects.{EgressPolicySelector, EgressPolicyMatch}

abbrev to_label_selector : EgressPolicySelector → LabelSelector
to_label_selector s = record {
  match_labels = s.match_labels;
  match_expressions = s.match_expressions;
}

pub data MatchError : Type 0 where
  empty_policy_match bad_regex bad_cidr : MatchError

module _ (p : Platform) where
  -- Valid() returns nil.
  unfoldable pub selector_valid : EgressPolicySelector → Bool
  selector_valid s = elim (p.as_selector (to_label_selector s)) [ none ↦ false | some _ ↦ true ]

  -- Matches(obj), on the name and the labels of obj.
  unfoldable pub selector_matches : EgressPolicySelector → String → StringMap String → Bool
  selector_matches s name labels =
      if not (is_empty s.match_names) && not (any (λ n. n == name) s.match_names)
      then false
      else elim (p.as_selector (to_label_selector s)) [ none ↦ false | some test ↦ test labels ]

  -- The first error of `Valid(fallback)`, in the order of the code's checks.
  unfoldable pub match_valid : EgressPolicyMatch → Bool → Option MatchError
  match_valid m fallback =
      if is_empty m.domain
        && is_empty m.domain_suffix
        && is_empty m.domain_regex
        && is_empty m.ip_cidr
        && is_empty m.rule_set
      then (if fallback then none else some empty_policy_match)
      else if not (all p.compiles m.domain_regex)
      then some bad_regex
      else if not (all p.parses_cidr m.ip_cidr)
      then some bad_cidr
      else none
