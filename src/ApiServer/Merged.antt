-- ===== src/ApiServer/Merged.antt =====
-- The DNS servers of a merged configuration.
use mathlib.Core.Path.{subst}
use mathlib.Core.Option.{some-injective}
use singbox_operator.Base.{
  String, Bool, true, false, not, Option, none, some, List, StringMap, lookup, lookup-insert,
  insert, any, is_empty, Distinct, if◌then◌else◌, ◌≡◌, refl, sym, ◌∙◌, ap, inl, inr, Option-cases,
}
use singbox_operator.Api.Platform.{Platform}
use singbox_operator.Engine.Types.{RouteRule}
use singbox_operator.ApiServer.Json.{
  Json, as_object, entries_of-fields, json_array, json_object, delete,
}
use singbox_operator.ApiServer.Dns.{
  object_or_empty, array_or_empty, tags_in, servers_of, Configured,
}
use singbox_operator.ApiServer.DnsTags.{lookup-delete}
use singbox_operator.ApiServer.Targets.{ClientConfigInput}
use singbox_operator.ApiServer.Policies.{ClientPolicies, refused, built, build_client_policies}
use singbox_operator.ApiServer.Template.{
  at_object, at_array, normalize_set, with_default_mode, original_rules, has_rule_sets,
  normalize_deprecated_client_config, assembled, merge_into, merge_rules, merge_client_config,
}
use singbox_operator.ApiServer.Managed.{
  servers_at, servers_of-insert, configure_client_dns-Distinct,
}

servers_of-normalize :
    (m : StringMap Json) → servers_of (normalize_deprecated_client_config m) ≡ servers_of m
unfolding normalize_deprecated_client_config
servers_of-normalize m =
    route_kept (at_object "dns" (delete "independent_cache") m)
    ∙ dns_kept (as_object (lookup "dns" m)) refl
  where
    route_kept :
        (x : StringMap Json)
        → servers_of (at_object "route" (at_array "rule_set" normalize_set) x) ≡ servers_of x
    route_kept x = elim (Option-cases (as_object (lookup "route" x))) [
      | inl e ↦ rw (at_object, e)
      | inr (o, e) ↦
          rw (at_object, e)
            (servers_of-insert "route" (json_object (at_array "rule_set" normalize_set o)) x refl)
    ]

    dns_kept :
        (dns : Option (StringMap Json))
        → as_object (lookup "dns" m) ≡ dns
        → servers_of (at_object "dns" (delete "independent_cache") m) ≡ servers_of m
    dns_kept none e = rw (at_object, e)
    dns_kept (some o) e =
        let new = delete "independent_cache" o in
        rw (at_object, e)
          (ap servers_at (lookup-insert "dns" "dns" (json_object new) m)
            ∙ (ap (λ x. array_or_empty (lookup "servers" x)) (entries_of-fields new)
                ∙ (ap array_or_empty (lookup-delete "independent_cache" "servers" o refl)
                    ∙ rw (object_or_empty, e))))

assembled-Distinct :
    (o : Option Configured) (result : StringMap Json)
    → assembled o ≡ some result
    → ((c : Configured) → o ≡ some c → Distinct (tags_in (servers_of c.config)))
    → Distinct (tags_in (servers_of result))
assembled-Distinct none result h k = cc
assembled-Distinct (some c) result h k =
    let kept : servers_of (
          insert "outbounds" (json_array c.outbounds)
            (insert "route" (json_object c.route) c.config))
        ≡ servers_of c.config =
      servers_of-insert "outbounds" (json_array c.outbounds)
        (insert "route" (json_object c.route) c.config) refl
      ∙ servers_of-insert "route" (json_object c.route) c.config refl in
    subst (λ m. Distinct (tags_in (servers_of m))) (some-injective _ result h)
      (subst (λ js. Distinct (tags_in js)) (sym kept) (k c refl))

merge_into-Distinct :
    (parses_addr : String → Bool) (outbounds : List Json) (policy_rules : List RouteRule)
    (m route : StringMap Json) (original : List Json) (result : StringMap Json)
    → merge_into parses_addr outbounds policy_rules m route original ≡ some result
    → Distinct (tags_in (servers_of m))
    → Distinct (tags_in (servers_of result))
merge_into-Distinct parses_addr outbounds policy_rules m route original result h d =
    assembled-Distinct _ result h (λ c made.
      configure_client_dns-Distinct parses_addr (with_default_mode m) _ outbounds _ _ c made
        (subst (λ js. Distinct (tags_in js)) (sym (servers_of-insert "experimental" _ m refl)) d))

module _ (p : Platform) (parses_addr : String → Bool) (input : ClientConfigInput)
    (outbounds : List Json) where
  merge_rules-Distinct :
      (policy_rules : List RouteRule) (m result : StringMap Json)
      → merge_rules p parses_addr input outbounds policy_rules m ≡ some result
      → Distinct (tags_in (servers_of m))
      → Distinct (tags_in (servers_of result))
  merge_rules-Distinct policy_rules m result h d = step (as_object (lookup "route" m)) h
    where
      merged :
          (route : StringMap Json) (original : Option (List Json)) (undefined : Bool)
          → elim original [
            | none ↦ none
            | some rules ↦
                if undefined
                then none
                else merge_into parses_addr outbounds policy_rules m route rules
          ]
            ≡ some result
          → Distinct (tags_in (servers_of result))
      merged route none undefined h = cc
      merged route (some rules) true h = cc
      merged route (some rules) false h =
          merge_into-Distinct parses_addr outbounds policy_rules m route rules result h d

      step :
          (route : Option (StringMap Json))
          → elim route [
            | none ↦ none
            | some r ↦ elim (original_rules (lookup "rules" r) (is_empty policy_rules)) [
              | none ↦ none
              | some original ↦
                  if any
                    (λ q.
                      not
                        (has_rule_sets p input (tags_in (array_or_empty (lookup "rule_set" r))) q))
                    input.egress_policies
                  then none
                  else merge_into parses_addr outbounds policy_rules m r original
            ]
          ]
            ≡ some result
          → Distinct (tags_in (servers_of result))
      step none h = cc
      step (some r) h = merged r (original_rules (lookup "rules" r) (is_empty policy_rules)) _ h

  -- Where no two DNS servers of a template have the same tag, no two of the merged configuration do.
  pub merge_client_config-Distinct :
      (template result : StringMap Json)
      → merge_client_config p parses_addr template outbounds input ≡ some result
      → Distinct (tags_in (servers_of template))
      → Distinct (tags_in (servers_of result))
  unfolding merge_client_config
  merge_client_config-Distinct template result h d = step (build_client_policies p input) h
    where
      step :
          (policies : ClientPolicies)
          → elim policies [
            | refused e ↦ none
            | built policy_rules targets ↦
                merge_rules p parses_addr input outbounds policy_rules
                  (normalize_deprecated_client_config template)
          ]
            ≡ some result
          → Distinct (tags_in (servers_of result))
      step (refused e) h = cc
      step (built policy_rules targets) h =
          merge_rules-Distinct policy_rules (normalize_deprecated_client_config template) result h
            (subst (λ js. Distinct (tags_in js)) (sym (servers_of-normalize template)) d)
