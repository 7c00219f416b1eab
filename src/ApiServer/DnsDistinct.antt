-- ===== src/ApiServer/DnsDistinct.antt =====
-- The tags of the DNS servers that are added.
use mathlib.Core.Path.{subst}
use mathlib.Core.Option.{some-injective}
use singbox_operator.Base.{
  String, Bool, true, false, not, ◌&&◌, ◌||◌, Option, none, some, List, [], ◌∷◌, ◌++◌, map,
  StringMap, lookup, lookup-insert, insert, contains, contains-append, Distinct, Distinct-concat,
  if◌then◌else◌, ◌≡◌, refl, sym, ◌∙◌, ap, arith, eq_iff, eq_refl,
}
use singbox_operator.ApiServer.Json.{Json, text, entries_of-fields, as_string}
use singbox_operator.ApiServer.Dns.{
  RegionMode, tag_in, tags_in, find_server, mode_tag, mode_server, mode_rule, append_mode, mode_dns,
  local_server, needs_resolver, resolve_outbounds, is_found,
}
use singbox_operator.ApiServer.DnsTags.{tags_in-append, find_server-tags_in}

pub Distinct-append :
    (xs ys : List String)
    → Distinct xs
    → Distinct ys
    → ((k : String) → contains ys k ≡ true → contains xs k ≡ false)
    → Distinct (xs ++ ys)
Distinct-append [] ys d e h = e
Distinct-append (x ∷ xs) ys d e h = (
  contains-append xs ys x ∙ ground (arith, h x, eq_refl x),
  Distinct-append xs ys d.1 e (λ k m. ground (arith, h k m)),
)

-- The tags of the servers of the modes.
abbrev pub mode_tags : List RegionMode → List String
mode_tags = map mode_tag

tag_in-mode_server :
    (proxy : StringMap Json) (mode : RegionMode)
    → tag_in (mode_server proxy mode) ≡ some (mode_tag mode)
tag_in-mode_server proxy mode =
    let tagged = insert "tag" (text (mode_tag mode)) proxy in
    ap (λ m. as_string (lookup "tag" m))
      (entries_of-fields (insert "detour" (text mode.tag) tagged))
    ∙ (ap as_string (lookup-insert "detour" "tag" (text mode.tag) tagged)
        ∙ ap as_string (lookup-insert "tag" "tag" (text (mode_tag mode)) proxy))

-- The tags of servers are new, differ, and are of these modes.
abbrev pub AreNew : List Json → List RegionMode → List Json → Type 0
AreNew servers modes more =
    ((k : String) → contains (tags_in more) k ≡ true → contains (tags_in servers) k ≡ false)
    × ((k : String) → contains (tags_in more) k ≡ true → contains (mode_tags modes) k ≡ true)
    × Distinct (tags_in more)

module _ (proxy : StringMap Json) (servers : List Json) (has : List String) where
  AreNew-append_mode :
      (mode : RegionMode) (modes : List RegionMode) (rest : Option (List Json × List Json))
      (more rules : List Json)
      → find_server (mode_tag mode) servers ≡ none
      → contains (mode_tags modes) (mode_tag mode) ≡ false
      → ((ss rs : List Json) → rest ≡ some (ss, rs) → AreNew servers modes ss)
      → append_mode (mode_server proxy mode) (mode_rule mode) rest ≡ some (more, rules)
      → AreNew servers (mode ∷ modes) more
  AreNew-append_mode mode modes none more rules absent fresh h e = cc
  AreNew-append_mode mode modes (some (ss, rs)) more rules absent fresh h e =
      let (new, known, d) = h ss rs refl in
      let missing : contains (tags_in servers) (mode_tag mode) ≡ false =
        sym (find_server-tags_in (mode_tag mode) servers) ∙ ap is_found absent in
      let added : AreNew servers (mode ∷ modes) (mode_server proxy mode ∷ ss) =
        rw (tags_in, tag_in-mode_server proxy mode)
          (
            λ k m. ground (arith, new k, eq_iff (mode_tag mode) k),
            λ k m. ground (arith, known k, eq_iff (mode_tag mode) k),
            (ground (arith, known (mode_tag mode)), d),
          ) in
      subst (AreNew servers (mode ∷ modes)) (ap (λ x. x.0) (some-injective _ (more, rules) e)) added

  AreNew-skip :
      (mode : RegionMode) (modes : List RegionMode) (more : List Json)
      → AreNew servers modes more
      → AreNew servers (mode ∷ modes) more
  AreNew-skip mode modes more (new, known, d) = (new, λ k m. ground (arith, known k m), d)

  pub mode_dns-AreNew :
      (modes : List RegionMode) (more rules : List Json)
      → Distinct (mode_tags modes)
      → mode_dns proxy servers has modes ≡ some (more, rules)
      → AreNew servers modes more
  unfolding mode_dns
  mode_dns-AreNew [] more rules fresh e =
      subst (AreNew servers []) (ap (λ x. x.0) (some-injective _ (more, rules) e))
        (λ k m. cc, λ k m. cc, tt)
  mode_dns-AreNew (mode ∷ modes) more rules (apart, fresh) e =
      step (λ ss rs r. mode_dns-AreNew modes ss rs fresh r) (not (contains has mode.tag))
        (find_server (mode_tag mode) servers) refl e
    where
      step :
          ((ss rs : List Json)
            → mode_dns proxy servers has modes ≡ some (ss, rs)
            → AreNew servers modes ss)
          → (skip : Bool) (hit : Option (StringMap Json))
          → find_server (mode_tag mode) servers ≡ hit
          → (if skip then mode_dns proxy servers has modes else elim hit [
            | some s ↦ none
            | none ↦
                append_mode
                  (mode_server proxy mode)
                  (mode_rule mode)
                  (mode_dns proxy servers has modes)
          ])
            ≡ some (more, rules)
          → AreNew servers (mode ∷ modes) more
      step h true hit at_tag r = AreNew-skip mode modes more (h more rules r)
      step h false (some s) at_tag r = cc
      step h false none at_tag r =
          AreNew-append_mode mode modes (mode_dns proxy servers has modes) more rules at_tag apart h
            r

-- The local server is added where there is none of its tag.
pub resolve_outbounds-Distinct :
    (parses_addr : String → Bool) (has_local : Bool) (servers raws : List Json)
    → contains (tags_in servers) "local" ≡ has_local
    → Distinct (tags_in servers)
    → Distinct (tags_in (resolve_outbounds parses_addr has_local servers raws).0)
unfolding resolve_outbounds
resolve_outbounds-Distinct parses_addr has_local servers [] e d = d
resolve_outbounds-Distinct parses_addr has_local servers (raw ∷ raws) e d =
    let grown =
      if needs_resolver parses_addr raw && not has_local
      then servers ++ local_server ∷ []
      else servers in
    let (known, apart) : (contains (tags_in grown) "local"
          ≡ (has_local || needs_resolver parses_addr raw))
        × Distinct (tags_in grown) =
      with_local has_local (needs_resolver parses_addr raw) e in
    resolve_outbounds-Distinct parses_addr (has_local || needs_resolver parses_addr raw) grown raws
      known apart
  where
    with_local :
        (has_local needed : Bool)
        → contains (tags_in servers) "local" ≡ has_local
        → (contains
              (tags_in (if needed && not has_local then servers ++ local_server ∷ [] else servers))
              "local"
            ≡ (has_local || needed))
          × Distinct
              (tags_in (if needed && not has_local then servers ++ local_server ∷ [] else servers))
    with_local true true e = (e, d)
    with_local true false e = (e, d)
    with_local false false e = (e, d)
    with_local false true e = rw (tags_in-append servers (local_server ∷ [])) (
      contains-append (tags_in servers) ("local" ∷ []) "local" ∙ ground arith,
      Distinct-concat (tags_in servers) "local" d e,
    )
