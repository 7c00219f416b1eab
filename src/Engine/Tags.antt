-- ===== src/Engine/Tags.antt =====
-- The tags of the outbound entries: what deduplicateByTag keeps, and which tag each entry has.
use singbox_operator.Base.{
  String, not, ◌&&◌, ◌||◌, List, [], ◌∷◌, ◌++◌, map, ◌≡◌, refl, arith, contains, eq_iff, eq_refl,
  inl, inr, Bool-cases, Distinct,
}
use singbox_operator.Api.Objects.{SingBoxNode, ExternalOutbound}
use singbox_operator.Engine.Types.{Input, ExternalCredential, Entry, tag_of, outbound_tag}
use singbox_operator.Engine.Externals.{build_external_outbound_entry}
use singbox_operator.Engine.Outbounds.{peer_entry, dedup_from, deduplicate_by_tag}

abbrev pub tags : List Entry → List String
tags = map tag_of

pub tags-append :
    (xs ys : List Entry) (k : String)
    → contains (tags (xs ++ ys)) k ≡ (contains (tags xs) k || contains (tags ys) k)
tags-append [] ys k = refl
tags-append (x ∷ xs) ys k = ground (arith, tags-append xs ys k)

contains-dedup_from :
    (seen : List String) (es : List Entry) (k : String)
    → contains (tags (dedup_from seen es)) k ≡ (contains (tags es) k && not (contains seen k))
unfolding dedup_from
contains-dedup_from seen [] k = refl
contains-dedup_from seen (e ∷ es) k = elim (Bool-cases (contains seen (tag_of e))) [
  | inl old ↦ rw old (ground (arith, contains-dedup_from seen es k, eq_iff (tag_of e) k))
  | inr new ↦
      rw new (ground (arith, contains-dedup_from (tag_of e ∷ seen) es k, eq_iff (tag_of e) k))
]

Distinct-dedup_from : (seen : List String) (es : List Entry) → Distinct (tags (dedup_from seen es))
unfolding dedup_from
Distinct-dedup_from seen [] = tt
Distinct-dedup_from seen (e ∷ es) = elim (Bool-cases (contains seen (tag_of e))) [
  | inl old ↦ rw old (Distinct-dedup_from seen es)
  | inr new ↦ rw new (
    ground (arith, contains-dedup_from (tag_of e ∷ seen) es (tag_of e), eq_refl (tag_of e)),
    Distinct-dedup_from (tag_of e ∷ seen) es,
  )
]

pub contains-deduplicate_by_tag :
    (es : List Entry) (k : String)
    → contains (tags (deduplicate_by_tag es)) k ≡ contains (tags es) k
unfolding deduplicate_by_tag
contains-deduplicate_by_tag es k = ground (arith, contains-dedup_from [] es k)

-- Deduplication leaves entries of different tags, and among them every tag that was there.
pub deduplicate_by_tag-Distinct :
    (es : List Entry)
    → Distinct (tags (deduplicate_by_tag es))
      × ((k : String) → contains (tags (deduplicate_by_tag es)) k ≡ contains (tags es) k)
unfolding deduplicate_by_tag
deduplicate_by_tag-Distinct es = (Distinct-dedup_from [] es, λ k. contains-deduplicate_by_tag es k)

pub tag_of-peer_entry :
    (input : Input) (name : String) (n : SingBoxNode)
    → tag_of (peer_entry input name n) ≡ outbound_tag name
unfolding peer_entry
tag_of-peer_entry input name n = refl

pub tag_of-external_entry :
    (e : ExternalOutbound) (creds : ExternalCredential)
    → tag_of (build_external_outbound_entry e creds) ≡ outbound_tag e.name
unfolding build_external_outbound_entry
tag_of-external_entry e creds = ground arith
