-- ===== src/ApiServer/DnsTags.antt =====
-- The tags of the DNS servers while the servers of the modes and the local one are added.
use mathlib.Core.Path.{subst}
use mathlib.Core.Option.{some-injective}
use singbox_operator.Base.{
  String, Bool, true, false, not, Option, none, some, List, [], ◌∷◌, ◌++◌, StringMap, lookup,
  lookup-insert, contains, ◌==◌, if◌then◌else◌, ◌≡◌, refl, sym, ◌∙◌, ap, arith, inl, inr,
  Bool-cases, Option-cases, eq_iff,
}
use singbox_operator.ApiServer.Json.{
  Json, null, boolean, number, text, array, object, entries_of, entries_of-fields, as_object,
  as_string, is_text, delete,
}
use singbox_operator.ApiServer.Dns.{
  tag_in, tags_in, if_tagged, find_server, set_server, set_detour, is_found,
}

pub tags_in-append : (xs ys : List Json) → tags_in (xs ++ ys) ≡ tags_in xs ++ tags_in ys
tags_in-append [] ys = refl
tags_in-append (x ∷ xs) ys = elim (Option-cases (tag_in x)) [
  | inl e ↦ rw (tags_in, e) (tags_in-append xs ys)
  | inr (t, e) ↦ rw (tags_in, e) (ap (λ r. t ∷ r) (tags_in-append xs ys))
]

-- The value at a key, as a text.
is_text-as_string :
    (tag : String) (v : Option Json)
    → is_text tag v ≡ elim (as_string v) [ none ↦ false | some s ↦ s == tag ]
is_text-as_string tag none = refl
is_text-as_string tag (some null) = refl
is_text-as_string tag (some (boolean b)) = refl
is_text-as_string tag (some (number n)) = refl
is_text-as_string tag (some (text s)) = refl
is_text-as_string tag (some (array js)) = refl
is_text-as_string tag (some (object fs)) = refl

abbrev equals : String → Option String → Bool
equals tag none = false
equals tag (some s) = s == tag

found_if : (b : Bool) (o : StringMap Json) → is_found (if b then some o else none) ≡ b
found_if true o = refl
found_if false o = refl

if_tagged-tag_in :
    (tag : String) (j : Json)
    → is_found (if_tagged tag (as_object (some j))) ≡ equals tag (tag_in j)
if_tagged-tag_in tag null = refl
if_tagged-tag_in tag (boolean b) = refl
if_tagged-tag_in tag (number n) = refl
if_tagged-tag_in tag (text s) = refl
if_tagged-tag_in tag (array js) = refl
if_tagged-tag_in tag (object fs) =
    found_at (lookup "tag" (entries_of fs))
      (found_if (is_text tag (lookup "tag" (entries_of fs))) (entries_of fs))
  where
    found_at : (v : Option Json) {hit : Bool} → hit ≡ is_text tag v → hit ≡ equals tag (as_string v)
    found_at none e = e
    found_at (some null) e = e
    found_at (some (boolean b)) e = e
    found_at (some (number n)) e = e
    found_at (some (text s)) e = e
    found_at (some (array js)) e = e
    found_at (some (object fs)) e = e

at_hit :
    (tag : String) (j : Json) (own : Option String) (hit : Option (StringMap Json))
    → tag_in j ≡ own
    → if_tagged tag (as_object (some j)) ≡ hit
    → is_found hit ≡ equals tag own
at_hit tag j own hit n e = sym (ap is_found e) ∙ (if_tagged-tag_in tag j ∙ ap (equals tag) n)

pub find_server-tags_in :
    (tag : String) (js : List Json) → is_found (find_server tag js) ≡ contains (tags_in js) tag
unfolding find_server
find_server-tags_in tag [] = refl
find_server-tags_in tag (j ∷ js) = elim (Option-cases (if_tagged tag (as_object (some j)))) [
  | inl e ↦ elim (Option-cases (tag_in j)) [
    | inl n ↦ rw (find_server, tags_in, e, n) (find_server-tags_in tag js)
    | inr (t, n) ↦
        let other : false ≡ (t == tag) = at_hit tag j (some t) none n e in
        rw (find_server, tags_in, e, n) (ground (arith, find_server-tags_in tag js))
  ]
  | inr (s, e) ↦ elim (Option-cases (tag_in j)) [
    | inl n ↦ let other : true ≡ false = at_hit tag j none (some s) n e in cc
    | inr (t, n) ↦
        let here : true ≡ (t == tag) = at_hit tag j (some t) (some s) n e in
        rw (find_server, tags_in, e, n) (ground arith)
  ]
]

-- A server that takes the place of one of the same tag.
pub set_server-tags_in :
    (tag : String) (new : StringMap Json) (js : List Json)
    → as_string (lookup "tag" new) ≡ some tag
    → tags_in (set_server tag new js) ≡ tags_in js
unfolding set_server
set_server-tags_in tag new [] h = refl
set_server-tags_in tag new (j ∷ js) h = elim (Option-cases (if_tagged tag (as_object (some j)))) [
  | inl e ↦ elim (Option-cases (tag_in j)) [
    | inl n ↦ rw (set_server, tags_in, e, n) (set_server-tags_in tag new js h)
    | inr (t, n) ↦
        rw (set_server, tags_in, e, n) (ap (λ r. t ∷ r) (set_server-tags_in tag new js h))
  ]
  | inr (s, e) ↦ elim (Option-cases (tag_in j)) [
    | inl n ↦ let other : true ≡ false = at_hit tag j none (some s) n e in cc
    | inr (t, n) ↦
        let here : true ≡ (t == tag) = at_hit tag j (some t) (some s) n e in
        rw (set_server, tags_in, e, n, entries_of-fields new, h)
          (ap (λ r. r ∷ tags_in js) (sym ((eq_iff t tag).0 (sym here))))
  ]
]

text_at : (tag : String) (v : Option Json) → is_text tag v ≡ true → as_string v ≡ some tag
text_at tag none h = cc
text_at tag (some null) h = cc
text_at tag (some (boolean b)) h = cc
text_at tag (some (number n)) h = cc
text_at tag (some (text s)) h = ap some ((eq_iff s tag).0 h)
text_at tag (some (array js)) h = cc
text_at tag (some (object fs)) h = cc

tag-if_tagged :
    (tag : String) (v : Option (StringMap Json)) (s : StringMap Json)
    → if_tagged tag v ≡ some s
    → as_string (lookup "tag" s) ≡ some tag
tag-if_tagged tag none s h = cc
tag-if_tagged tag (some m) s h = elim (Bool-cases (is_text tag (lookup "tag" m))) [
  | inl t ↦
      subst (λ x. as_string (lookup "tag" x) ≡ some tag)
        (some-injective m s (sym (ap (λ b. if b then some m else none) t) ∙ h))
        (text_at tag (lookup "tag" m) t)
  | inr f ↦ let absent : none ≡ some s = sym (ap (λ b. if b then some m else none) f) ∙ h in cc
]

pub tag-find_server :
    (tag : String) (js : List Json) (s : StringMap Json)
    → find_server tag js ≡ some s
    → as_string (lookup "tag" s) ≡ some tag
unfolding find_server
tag-find_server tag [] s h = cc
tag-find_server tag (j ∷ js) s h =
    step (λ e. tag-find_server tag js s e) (if_tagged tag (as_object (some j))) refl h
  where
    step :
        (find_server tag js ≡ some s → as_string (lookup "tag" s) ≡ some tag)
        → (hit : Option (StringMap Json)) → if_tagged tag (as_object (some j)) ≡ hit
        → elim hit [ some s ↦ some s | none ↦ find_server tag js ] ≡ some s
        → as_string (lookup "tag" s) ≡ some tag
    step later none e h = later h
    step later (some m) e h = tag-if_tagged tag (as_object (some j)) s (e ∙ h)

pub lookup-delete :
    (k j : String) (m : StringMap Json) → k == j ≡ false → lookup j (delete k m) ≡ lookup j m
lookup-delete k j [] h = refl
lookup-delete k j ((i, v) ∷ m) h = elim (Bool-cases (i == k)) [
  | inl t ↦
      let other : i == j ≡ false = ground (arith, eq_iff i k, eq_iff i j, eq_iff k j) in
      rw (delete, lookup, t, other) (lookup-delete k j m h)
  | inr f ↦ elim (Bool-cases (i == j)) [
    | inl t ↦ rw (delete, f) (rw (lookup, t))
    | inr g ↦ rw (delete, f) (rw (lookup, g) (lookup-delete k j m h))
  ]
]

pub tag-set_detour :
    (selector : String) (proxy : StringMap Json)
    → lookup "tag" (set_detour selector proxy) ≡ lookup "tag" proxy
tag-set_detour selector proxy = elim (Bool-cases (not (selector == ""))) [
  | inl t ↦ rw (set_detour, t) (lookup-insert "detour" "tag" (text selector) proxy)
  | inr f ↦ rw (set_detour, f) (lookup-delete "detour" "tag" proxy refl)
]
