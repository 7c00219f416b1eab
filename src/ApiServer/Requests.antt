-- ===== src/ApiServer/Requests.antt =====
-- What the handler reads from a request: the beginning of handleClientConfig, and uuidRegex, of
-- internal/apiserver/handler.go. The texts are those of the standard library's functions.
use Prim.Native.Char.{Char, code}
use Prim.Native.Nat.{ℕ, zero, suc}
use singbox_operator.Base.{
  ◌+◌, nat_eq, leb, String, Bool, true, false, ◌&&◌, ◌||◌, Option, none, some, List, [], ◌∷◌,
  cut_at, ◌==◌, if◌then◌else◌,
}

-- strings.TrimPrefix
unfoldable pub after_prefix : String → String → Option String
after_prefix String.[] s = some s
after_prefix (String.◌∷◌ c p) String.[] = none
after_prefix (String.◌∷◌ c p) (String.◌∷◌ d s) = elim (nat_eq (code c) (code d)) [
  | true ↦ after_prefix p s
  | false ↦ none
]

unfoldable pub trim_prefix : String → String → String
trim_prefix prefix s = elim (after_prefix prefix s) [ none ↦ s | some rest ↦ rest ]

abbrev is_slash : Char → Bool
is_slash c = nat_eq (code c) b'/'

abbrev both_present : Option (String × String) → Option (String × String)
both_present none = none
both_present (some (namespace, uuid)) =
    if namespace == "" || uuid == "" then none else some (namespace, uuid)

-- The namespace and the UUID of a path; `none` if it has not both.
unfoldable pub request_of : String → Option (String × String)
unfolding trim_prefix
request_of path = both_present (cut_at is_slash (trim_prefix "/api/v1/client-config/" path))

abbrev is_hex : Char → Bool
is_hex c =
    leb b'0' (code c) && leb (code c) b'9'
    || leb b'a' (code c) && leb (code c) b'f'
    || leb b'A' (code c) && leb (code c) b'F'

-- `n` hexadecimal digits, and what follows them.
unfoldable pub after_hex : ℕ → String → Option String
after_hex zero s = some s
after_hex (suc n) String.[] = none
after_hex (suc n) (String.◌∷◌ c s) = elim (is_hex c) [ true ↦ after_hex n s | false ↦ none ]

abbrev after_dash : Option String → Option String
after_dash none = none
after_dash (some s) = after_prefix "-" s

-- Groups of digits, with dashes between them, up to the end.
unfoldable pub is_grouped : List ℕ → String → Bool
is_grouped [] s = s == ""
is_grouped (n ∷ []) s = elim (after_hex n s) [ none ↦ false | some rest ↦ rest == "" ]
is_grouped (n ∷ m ∷ ns) s = elim (after_dash (after_hex n s)) [
  | none ↦ false
  | some rest ↦ is_grouped (m ∷ ns) rest
]

unfoldable pub is_uuid : String → Bool
is_uuid s = is_grouped (8 ∷ 4 ∷ 4 ∷ 4 ∷ 12 ∷ []) s

-- The lower case of an ASCII letter.
abbrev folded : Char → ℕ
folded c = if leb b'A' (code c) && leb (code c) b'Z' then code c + 32 else code c

-- strings.EqualFold, where one text is a UUID: its letters fold only with ASCII letters.
unfoldable pub equal_fold : String → String → Bool
equal_fold String.[] String.[] = true
equal_fold String.[] (String.◌∷◌ d t) = false
equal_fold (String.◌∷◌ c s) String.[] = false
equal_fold (String.◌∷◌ c s) (String.◌∷◌ d t) = nat_eq (folded c) (folded d) && equal_fold s t
