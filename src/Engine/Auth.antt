-- ===== src/Engine/Auth.antt =====
-- Credentials derived from the UUID of a user (engine.go: DeriveUUID, DerivePassword, DeriveAuth,
-- ComputeHash). The hashes are parameters of the model; text becomes bytes by UTF-8.
use Prim.Native.String.{slice}
use singbox_operator.Base.{
  ℕ, zero, suc, ◌+◌, ◌-◌, ◌*◌, ◌/◌, ◌%◌, String, join, ◌&&◌, ◌||◌, Option, none, some, List, [],
  ◌∷◌, ◌++◌, if◌then◌else◌, ◌==◌, ltb, leb, nat_eq, length, take, drop, bytes,
}
use singbox_operator.Api.Platform.{Platform}
use singbox_operator.Engine.Types.{Account}

abbrev pub nth_digit : List String → ℕ → String
nth_digit [] n = ""
nth_digit (d ∷ ds) zero = d
nth_digit (d ∷ ds) (suc n) = nth_digit ds n

abbrev pub digits : List String
digits =
    "0" ∷ "1" ∷ "2" ∷ "3" ∷ "4" ∷ "5" ∷ "6" ∷ "7" ∷ "8" ∷ "9" ∷ "a" ∷ "b" ∷ "c" ∷ "d" ∷ "e" ∷ "f"
    ∷ []

unfoldable pub hex_digit : ℕ → String
hex_digit n = nth_digit digits (n % 16)

-- `%x` of a slice of bytes
unfoldable pub hex : List ℕ → String
hex [] = ""
hex (b ∷ bs) = join (hex_digit (b / 16)) (join (hex_digit b) (hex bs))

-- The hexadecimal digit that a byte stands for; 16 if it stands for none.
abbrev digit_value : ℕ → ℕ
digit_value c =
    if leb b'0' c && leb c b'9'
    then c - b'0'
    else if leb b'a' c && leb c b'f'
    then c - b'a' + 10
    else if leb b'A' c && leb c b'F'
    then c - b'A' + 10
    else 16

-- hex.DecodeString: `none` is its error.
unfoldable pub decode_hex : List ℕ → Option (List ℕ)
decode_hex [] = some []
decode_hex (a ∷ []) = none
decode_hex (a ∷ b ∷ cs) = elim (decode_hex cs) [
  | none ↦ none
  | some bs ↦
      if ltb (digit_value a) 16 && ltb (digit_value b) 16
      then some ((digit_value a * 16 + digit_value b) ∷ bs)
      else none
]

abbrev without_dashes : List ℕ → List ℕ
without_dashes [] = []
without_dashes (c ∷ cs) = if nat_eq c b'-' then without_dashes cs else c ∷ without_dashes cs

abbrev zero_bytes : ℕ → List ℕ
zero_bytes zero = []
zero_bytes (suc n) = 0 ∷ zero_bytes n

abbrev pub namespace_bytes : String → List ℕ
namespace_bytes base = elim (decode_hex (without_dashes (bytes base))) [
  | none ↦ zero_bytes 16
  | some bs ↦ if nat_eq (length bs) 16 then bs else zero_bytes 16
]

-- An assignment to one byte.
abbrev pub update : ℕ → (ℕ → ℕ) → List ℕ → List ℕ
update n f [] = []
update zero f (b ∷ bs) = f b ∷ bs
update (suc n) f (b ∷ bs) = b ∷ update n f bs

abbrev pub dash : String → String → String
dash s t = join s (join "-" t)

-- `h[from:to]`
abbrev pub range : ℕ → ℕ → List ℕ → List ℕ
range from to h = take (to - from) (drop from h)

-- The version and the variant: `(h[6] & 0x0f) | 0x50` and `(h[8] & 0x3f) | 0x80` of bytes.
abbrev pub stamp : List ℕ → List ℕ
stamp h = update 8 (λ b. b % 64 + 0x80) (update 6 (λ b. b % 16 + 0x50) h)

unfoldable pub format_uuid : List ℕ → String
format_uuid h = dash (hex (range 0 4 h)) (
    dash (hex (range 4 6 h))
      (dash (hex (range 6 8 h)) (dash (hex (range 8 10 h)) (hex (range 10 16 h)))))

module _ (p : Platform) where
  unfoldable pub derive_uuid : String → String → String
  derive_uuid base suffix = format_uuid (stamp (p.sha1 (namespace_bytes base ++ bytes suffix)))

  unfoldable pub derive_password : String → String → String
  derive_password base suffix = slice (hex (p.sha256 (bytes (join base (join "#" suffix))))) 0 32

  -- The first 16 digits of the SHA-256 of a configuration.
  unfoldable pub compute_hash : List ℕ → String
  compute_hash config = hex (take 8 (p.sha256 config))

  unfoldable pub derive_auth : String → String → String → Account
  derive_auth protocol uuid node =
      let password = derive_password uuid node in
      if protocol == "hysteria2" || protocol == "trojan"
      then ("password", password) ∷ []
      else if protocol == "vless"
      then ("uuid", derive_uuid uuid node) ∷ []
      else if protocol == "socks5" || protocol == "http" || protocol == "naive"
      then ("username", uuid) ∷ ("password", password) ∷ []
      else if protocol == "tuic"
      then ("uuid", derive_uuid uuid node) ∷ ("password", password) ∷ []
      else ("password", password) ∷ []
