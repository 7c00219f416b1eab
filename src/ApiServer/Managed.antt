-- ===== src/ApiServer/Managed.antt =====
-- The DNS servers that configureClientDNS leaves in a configuration.
use mathlib.Core.Path.{subst}
use mathlib.Core.Option.{some-injective}
use singbox_operator.Base.{
  String, Bool, true, false, ◌||◌, Option, none, some, List, ◌++◌, StringMap, lookup, lookup-insert,
  insert, contains, contains-append, Distinct, ◌==◌, if◌then◌else◌, ◌≡◌, refl, sym, ◌∙◌, ap, inl,
  inr, Bool-cases,
}
use singbox_operator.ApiServer.Json.{
  Json, as_string, entries_of-fields, elements-items, json_array, json_object,
}
use singbox_operator.ApiServer.Dns.{
  object_or_empty, array_or_empty, array_or_nil, tags_in, set_server, set_detour, dns_of,
  servers_of, client_dns_server, client_region_modes, mode_dns, resolve_outbounds, is_found,
  Configured, managed, configure_client_dns,
}
use singbox_operator.ApiServer.DnsTags.{
  tags_in-append, find_server-tags_in, set_server-tags_in, tag-find_server, tag-set_detour,
}
use singbox_operator.ApiServer.DnsDistinct.{
  Distinct-append, AreNew, mode_dns-AreNew, resolve_outbounds-Distinct,
}

abbrev pub servers_at : Option Json → List Json
servers_at dns = array_or_empty (lookup "servers" (object_or_empty dns))

pub servers_of-insert :
    (k : String) (v : Json) (m : StringMap Json)
    → k == "dns" ≡ false
    → servers_of (insert k v m) ≡ servers_of m
servers_of-insert k v m h =
    ap servers_at (lookup-insert k "dns" v m ∙ ap (λ b. if b then some v else lookup "dns" m) h)

servers_of-insert_dns :
    (servers : List Json) (dns config : StringMap Json)
    → servers_of (insert "dns" (json_object (insert "servers" (json_array servers) dns)) config)
      ≡ servers
servers_of-insert_dns servers dns config =
    let new = insert "servers" (json_array servers) dns in
    ap servers_at (lookup-insert "dns" "dns" (json_object new) config)
    ∙ (ap (λ m. array_or_empty (lookup "servers" m)) (entries_of-fields new)
        ∙ (ap array_or_empty (lookup-insert "servers" "servers" (json_array servers) dns)
            ∙ elements-items servers))

or_false : (b : Bool) → (b || false) ≡ b
or_false true = refl
or_false false = refl

module _ (parses_addr : String → Bool) (config route : StringMap Json) (outbounds : List Json) where
  managed-Distinct :
      (servers rules : List Json) (more : Option (List Json × List Json)) (c : Configured)
      → managed parses_addr config route outbounds servers rules more ≡ some c
      → tags_in servers ≡ tags_in (servers_of config)
      → Distinct (tags_in servers)
      → ((ss rs : List Json) → more ≡ some (ss, rs) → AreNew servers client_region_modes ss)
      → Distinct (tags_in (servers_of c.config))
  managed-Distinct servers rules none c h e d new = cc
  managed-Distinct servers rules (some (ss, rs)) c h e d new =
      let (fresh, known, apart) = new ss rs refl in
      let has_local = is_found (client_dns_server config "local") in
      let all_tags : Distinct (tags_in (servers ++ ss)) =
        rw (tags_in-append servers ss)
          (Distinct-append (tags_in servers) (tags_in ss) d apart fresh) in
      let no_local : contains (tags_in ss) "local" ≡ false =
        elim (Bool-cases (contains (tags_in ss) "local")) [
          | inl t ↦ let none_is : false ≡ true = known "local" t in cc
          | inr f ↦ f
        ] in
      let local_known : contains (tags_in (servers ++ ss)) "local" ≡ has_local =
        ap (λ ts. contains ts "local") (tags_in-append servers ss)
        ∙ (contains-append (tags_in servers) (tags_in ss) "local"
            ∙ (ap (λ b. contains (tags_in servers) "local" || b) no_local
                ∙ (or_false (contains (tags_in servers) "local")
                    ∙ (ap (λ ts. contains ts "local") e
                        ∙ sym (find_server-tags_in "local" (servers_of config)))))) in
      subst (λ x. Distinct (tags_in (servers_of x.config))) (some-injective _ c h)
        (rw
          (servers_of-insert_dns
            (resolve_outbounds parses_addr has_local (servers ++ ss) outbounds).0 _ config)
          (resolve_outbounds-Distinct parses_addr has_local (servers ++ ss) outbounds local_known
            all_tags))

  pub configure_client_dns-Distinct :
      (selector : String) (has : List String) (c : Configured)
      → configure_client_dns parses_addr config route outbounds selector has ≡ some c
      → Distinct (tags_in (servers_of config))
      → Distinct (tags_in (servers_of c.config))
  unfolding configure_client_dns
  configure_client_dns-Distinct selector has c h d =
      step (client_dns_server config "proxy-dns") refl
        (array_or_nil (lookup "rules" (dns_of config))) h
    where
      step :
          (hit : Option (StringMap Json))
          → client_dns_server config "proxy-dns" ≡ hit
          → (rules : Option (List Json))
          → elim hit [
            | none ↦ some (record { config = config; route = route; outbounds = outbounds })
            | some proxy ↦ elim rules [
              | none ↦ none
              | some rs ↦
                  managed parses_addr config route outbounds
                    (set_server "proxy-dns" (set_detour selector proxy) (servers_of config))
                    rs
                    (mode_dns
                      (set_detour selector proxy)
                      (set_server "proxy-dns" (set_detour selector proxy) (servers_of config))
                      has
                      client_region_modes)
            ]
          ]
            ≡ some c
          → Distinct (tags_in (servers_of c.config))
      step none absent rules made =
          subst (λ x. Distinct (tags_in (servers_of x.config))) (some-injective _ c made) d
      step (some proxy) at_tag none made = cc
      step (some proxy) at_tag (some rs) made =
          let detoured = set_detour selector proxy in
          let tagged : as_string (lookup "tag" detoured) ≡ some "proxy-dns" =
            ap as_string (tag-set_detour selector proxy)
            ∙ tag-find_server "proxy-dns" (servers_of config) proxy at_tag in
          let servers = set_server "proxy-dns" detoured (servers_of config) in
          let same : tags_in servers ≡ tags_in (servers_of config) =
            set_server-tags_in "proxy-dns" detoured (servers_of config) tagged in
          managed-Distinct servers rs (mode_dns detoured servers has client_region_modes) c made
            same (subst Distinct (sym same) d)
            (λ ss rs made.
              mode_dns-AreNew detoured servers has client_region_modes ss rs
                (refl, (refl, (refl, tt))) made)
