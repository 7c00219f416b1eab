-- ===== src/Usage/Parsed.antt =====
-- The counters of a virtual user, and their names.
use Prim.Native.Char.{Char, code}
use Prim.Native.String.{count}
use text.Mathlib.TextLemmas.{nil-append, cons-append, length-append}
use singbox_operator.Base.{
  List, letter, letter-join, lacks, lacks-append, cut_at, cut_at-append, String, join, true, false,
  ◌||◌, some, [], ◌∷◌, nat_eq, ◌==◌, ◌≡◌, refl, ap, ◌∙◌, eq_iff, ◌⊎◌, arith, Bool-cases, inl, inr,
}
use singbox_operator.Engine.Types.{virtual_user_name}
use singbox_operator.Usage.Counters.{
  is_gt, is_hash, push, split_from, cut, after_prefix, split_user, parse_parts,
  parse_user_counter_name,
}

-- The name of a counter of a virtual user.
abbrev pub counter_name : String → String → String
counter_name name direction =
    join "user>>>" (join name (join ">>>" (join "traffic" (join ">>>" direction))))

separator : (t : String) → join ">>>" t ≡ String.◌∷◌ ">" (String.◌∷◌ ">" (String.◌∷◌ ">" t))
separator t =
    cons-append ">" ">>" t
    ∙ ap (String.◌∷◌ ">") (
        cons-append ">" ">" t
        ∙ ap (String.◌∷◌ ">") (cons-append ">" "" t ∙ ap (String.◌∷◌ ">") (nil-append t)))

push-letter :
    (c : Char) (s : String) (rest : List String)
    → push (join "" (letter c)) (s ∷ rest) ≡ String.◌∷◌ c s ∷ rest
push-letter c s rest =
    ap (λ x. x ∷ rest) (ap (λ x. join x s) (nil-append (letter c)) ∙ letter-join c s)

split_from-plain :
    (s t : String)
    → lacks is_gt s ≡ true
    → split_from 0 (join s (join ">>>" t)) ≡ s ∷ split_from 0 t
unfolding split_from
split_from-plain String.[] t h = ap (split_from 0) (nil-append (join ">>>" t) ∙ separator t)
split_from-plain (String.◌∷◌ c s) t h =
    let rest : lacks is_gt s ≡ true = ground arith in
    let other : is_gt c ≡ false = ground arith in
    let step : split_from 0 (String.◌∷◌ c (join s (join ">>>" t)))
        ≡ push (join "" (letter c)) (split_from 0 (join s (join ">>>" t))) =
      rw (split_from, other) in
    ap (split_from 0) (cons-append c s (join ">>>" t))
    ∙ step
    ∙ ap (push (join "" (letter c))) (split_from-plain s t rest)
    ∙ push-letter c s (split_from 0 t)

split_from-last : (s : String) → lacks is_gt s ≡ true → split_from 0 s ≡ s ∷ []
unfolding split_from
split_from-last String.[] h = refl
split_from-last (String.◌∷◌ c s) h =
    let rest : lacks is_gt s ≡ true = ground arith in
    let other : is_gt c ≡ false = ground arith in
    let step : split_from 0 (String.◌∷◌ c s) ≡ push (join "" (letter c)) (split_from 0 s) =
      rw (split_from, other) in
    step ∙ ap (push (join "" (letter c))) (split_from-last s rest) ∙ push-letter c s []

pub cut-plain : (u n : String) → lacks is_hash u ≡ true → cut (join u (join "#" n)) ≡ some (u, n)
unfolding cut
cut-plain u n h =
    ap (λ x. cut_at is_hash (join u x)) (letter-join "#" n) ∙ cut_at-append is_hash "#" u n h refl

after_prefix-append : (s t : String) → after_prefix s (join s t) ≡ some t
unfolding after_prefix
after_prefix-append String.[] t = ap (after_prefix "") (nil-append t)
after_prefix-append (String.◌∷◌ c s) t =
    let same : nat_eq (code c) (code c) ≡ true = ground arith in
    ap (after_prefix (String.◌∷◌ c s)) (cons-append c s t)
    ∙ rw (after_prefix, same) (after_prefix-append s t)

named : (user node : String) → join user (join "#" node) == "" ≡ false
named user node = elim (Bool-cases (join user (join "#" node) == "")) [
  | inr f ↦ f
  | inl empty ↦
      let equal = ap count ((eq_iff (join user (join "#" node)) "").0 empty) in
      absurd (omega (arith, length-append user (join "#" node), length-append "#" node, equal))
]

parts-parse :
    (user node direction : String)
    → lacks is_hash user ≡ true
    → (direction == "uplink" || direction == "downlink") ≡ true
    → parse_parts (join user (join "#" node) ∷ "traffic" ∷ direction ∷ [])
      ≡ some (record { user = user; node = node; direction = direction })
parts-parse user node direction plain known =
    let halves : split_user (join user (join "#" node)) ≡ (user, node) =
      rw (split_user, cut-plain user node plain) in
    rw (named user node, known)
      (ap (λ h. some (record { user = h.0; node = h.1; direction = direction })) halves)

-- The name of a counter of a virtual user parses to its user, its target and its direction, where
-- the names have no separator in them.
pub parse_user_counter_name-virtual_user_name :
    (user node direction : String)
    → lacks is_gt user ≡ true
    → lacks is_hash user ≡ true
    → lacks is_gt node ≡ true
    → (direction ≡ "uplink") ⊎ (direction ≡ "downlink")
    → parse_user_counter_name (counter_name (virtual_user_name user node) direction)
      ≡ some (record { user = user; node = node; direction = direction })
unfolding parse_user_counter_name virtual_user_name
parse_user_counter_name-virtual_user_name user node direction no_gt no_hash node_no_gt known =
    let name = join user (join "#" node) in
    let name_no_gt : lacks is_gt name ≡ true =
      lacks-append is_gt user (join "#" node) no_gt (lacks-append is_gt "#" node refl node_no_gt) in
    let plain_direction : lacks is_gt direction ≡ true = elim known [
      | inl e ↦ rw e
      | inr e ↦ rw e
    ] in
    let valid : (direction == "uplink" || direction == "downlink") ≡ true = elim known [
      | inl e ↦ rw e
      | inr e ↦ rw e
    ] in
    let parts : split_from 0 (join name (join ">>>" (join "traffic" (join ">>>" direction))))
        ≡ name ∷ "traffic" ∷ direction ∷ [] =
      split_from-plain name (join "traffic" (join ">>>" direction)) name_no_gt
      ∙ ap (λ x. name ∷ x)
          (split_from-plain "traffic" direction refl
            ∙ ap (λ x. "traffic" ∷ x) (split_from-last direction plain_direction)) in
    rw
      (
        parse_user_counter_name,
        after_prefix-append "user>>>"
            (join name (join ">>>" (join "traffic" (join ">>>" direction)))),
        parts,
      )
      (parts-parse user node direction no_hash valid)
