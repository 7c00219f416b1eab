-- ===== src/Usage/Counters.antt =====
-- ParseUserCounterName: internal/usagecollector/v2rayclient.go. strings.Split and strings.Cut are
-- written out for the separators that the code uses.
use Prim.Native.Char.{Char, code}
use singbox_operator.Base.{
  letter, cut_at, ℕ, zero, suc, String, join, Bool, true, false, not, ◌||◌, Option, none, some,
  List, [], ◌∷◌, nat_eq, ◌==◌, if◌then◌else◌,
}

abbrev pub is_gt : Char → Bool
is_gt c = nat_eq (code c) b'>'

abbrev pub is_hash : Char → Bool
is_hash c = nat_eq (code c) b'#'

-- To the front of the first part.
abbrev pub push : String → List String → List String
push t [] = t ∷ []
push t (x ∷ xs) = join t x ∷ xs

-- The part of a separator that has been read.
abbrev pub angles : ℕ → String
angles zero = ""
angles (suc n) = join ">" (angles n)

-- strings.Split(s, ">>>"), after `n` characters of a separator.
unfoldable pub split_from : ℕ → String → List String
split_from n String.[] = angles n ∷ []
split_from n (String.◌∷◌ c s) = elim (is_gt c) [
  | true ↦ elim (nat_eq n 2) [ true ↦ "" ∷ split_from 0 s | false ↦ split_from (suc n) s ]
  | false ↦ push (join (angles n) (letter c)) (split_from 0 s)
]

-- strings.Cut(s, "#"): `none` if there is none.
unfoldable pub cut : String → Option (String × String)
cut = cut_at is_hash

-- `strings.HasPrefix(name, prefix)` and what follows the prefix.
unfoldable pub after_prefix : String → String → Option String
after_prefix String.[] s = some s
after_prefix (String.◌∷◌ c p) String.[] = none
after_prefix (String.◌∷◌ c p) (String.◌∷◌ d s) = elim (nat_eq (code c) (code d)) [
  | true ↦ after_prefix p s
  | false ↦ none
]

pub record Counter : Type 0 where
  pub user : String
  pub node : String
  pub direction : String

abbrev pub split_user : String → String × String
split_user name = elim (cut name) [ none ↦ (name, "") | some parts ↦ parts ]

abbrev pub counter_of : String → String → Counter
counter_of name direction = record {
  user = (split_user name).0;
  node = (split_user name).1;
  direction = direction;
}

abbrev pub parse_parts : List String → Option Counter
parse_parts (name ∷ kind ∷ direction ∷ []) =
    if name == ""
      || not (kind == "traffic")
      || not (direction == "uplink" || direction == "downlink")
    then none
    else some (counter_of name direction)
parse_parts [] = none
parse_parts (a ∷ []) = none
parse_parts (a ∷ b ∷ []) = none
parse_parts (a ∷ b ∷ c ∷ d ∷ ps) = none

unfoldable pub parse_user_counter_name : String → Option Counter
parse_user_counter_name name = elim (after_prefix "user>>>" name) [
  | none ↦ none
  | some rest ↦ parse_parts (split_from 0 rest)
]
