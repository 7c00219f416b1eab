-- ===== src/Engine/Uuid.antt =====
-- The form of a derived UUID.
use Prim.Native.String.{count}
use Prim.Native.Char.{Char, code}
use text.Mathlib.TextLemmas.{length-append, nil-append, cons-append}
use singbox_operator.Base.{
  Bool, true, ◌&&◌, ◌||◌, leb, ap, ◌∙◌, ℕ, suc, zero, ◌+◌, ◌*◌, ◌/◌, ◌%◌, ◌≤◌, ◌<◌, String, join,
  List, [], ◌∷◌, ◌++◌, bytes, ◌≡◌, refl, ◌⊎◌, inl, inr, arith, length, take, All,
}
use singbox_operator.Api.Platform.{Platform}
use singbox_operator.Engine.Auth.{
  hex, hex_digit, stamp, format_uuid, derive_uuid, namespace_bytes, nth_digit, digits, dash,
}

count-nth_digit :
    (ds : List String) (k : ℕ)
    → All (λ d. count d ≡ 1) ds
    → k < length ds
    → count (nth_digit ds k) ≡ 1
count-nth_digit [] k h lt = absurd (omega arith)
count-nth_digit (d ∷ ds) zero (e, h) lt = e
count-nth_digit (d ∷ ds) (suc k) (e, h) lt = count-nth_digit ds k h (omega arith)

count-hex_digit : (n : ℕ) → count (hex_digit n) ≡ 1
unfolding hex_digit
count-hex_digit n = count-nth_digit digits (n % 16) (omega arith) (omega arith)

count-hex : (bs : List ℕ) → count (hex bs) ≡ 2 * length bs
unfolding hex
count-hex [] = refl
count-hex (b ∷ bs) = omega (
  arith,
  length-append (hex_digit (b / 16)) (join (hex_digit b) (hex bs)),
  length-append (hex_digit b) (hex bs),
  count-hex_digit (b / 16),
  count-hex_digit b,
  count-hex bs,
)

abbrev pub is_hex_digit : Char → Bool
is_hex_digit c = leb b'0' (code c) && leb (code c) b'9' || leb b'a' (code c) && leb (code c) b'f'

-- Every character is a hexadecimal digit, and none is a capital letter.
abbrev pub is_hex_text : String → Bool
is_hex_text String.[] = true
is_hex_text (String.◌∷◌ c s) = is_hex_digit c && is_hex_text s

is_hex_text-join :
    (s t : String) → is_hex_text s ≡ true → is_hex_text t ≡ true → is_hex_text (join s t) ≡ true
is_hex_text-join String.[] t h g = ap is_hex_text (nil-append t) ∙ g
is_hex_text-join (String.◌∷◌ c s) t h g =
    ap is_hex_text (cons-append c s t) ∙ ground (arith, is_hex_text-join s t)

is_hex_text-nth_digit :
    (ds : List String) (k : ℕ)
    → All (λ d. is_hex_text d ≡ true) ds
    → is_hex_text (nth_digit ds k) ≡ true
is_hex_text-nth_digit [] k h = refl
is_hex_text-nth_digit (d ∷ ds) zero (e, h) = e
is_hex_text-nth_digit (d ∷ ds) (suc k) (e, h) = is_hex_text-nth_digit ds k h

is_hex_text-hex_digit : (n : ℕ) → is_hex_text (hex_digit n) ≡ true
unfolding hex_digit
is_hex_text-hex_digit n = is_hex_text-nth_digit digits (n % 16) (
  refl,
  (
    refl,
    (
      refl,
      (
        refl,
        (
          refl,
          (
            refl,
            (refl, (refl, (refl, (refl, (refl, (refl, (refl, (refl, (refl, (refl, tt)))))))))),
          ),
        ),
      ),
    ),
  ),
)

is_hex_text-hex : (bs : List ℕ) → is_hex_text (hex bs) ≡ true
unfolding hex
is_hex_text-hex [] = refl
is_hex_text-hex (b ∷ bs) =
    is_hex_text-join (hex_digit (b / 16)) (join (hex_digit b) (hex bs))
      (is_hex_text-hex_digit (b / 16))
      (is_hex_text-join (hex_digit b) (hex bs) (is_hex_text-hex_digit b) (is_hex_text-hex bs))

-- A UUID of version 5 and of the RFC 4122 variant: five groups of hexadecimal digits.
pub record IsUuidV5 (s : String) : Type 0 where
  pub first : String
  pub second : String
  pub third : String
  pub variant : String
  pub fourth : String
  pub fifth : String
  pub split :
      s ≡ dash first (dash second (dash (join "5" third) (dash (join variant fourth) fifth)))
  pub lengths :
      (count first ≡ 8)
      × (count second ≡ 4)
      × (count third ≡ 3)
      × (count fourth ≡ 3)
      × (count fifth ≡ 12)
  pub hexadecimal :
      (is_hex_text first ≡ true)
      × (is_hex_text second ≡ true)
      × (is_hex_text third ≡ true)
      × (is_hex_text fourth ≡ true)
      × (is_hex_text fifth ≡ true)
  pub rfc_4122 : (variant ≡ "8") ⊎ (variant ≡ "9") ⊎ (variant ≡ "a") ⊎ (variant ≡ "b")

length-take : (n : ℕ) (xs : List ℕ) → n ≤ length xs → length (take n xs) ≡ n
length-take zero xs h = refl
length-take (suc n) [] h = absurd (omega arith)
length-take (suc n) (x ∷ xs) h = omega (arith, length-take n xs)

variant_digit :
    (n : ℕ)
    → (hex_digit ((n % 64 + 0x80) / 16) ≡ "8")
      ⊎ (hex_digit ((n % 64 + 0x80) / 16) ≡ "9")
      ⊎ (hex_digit ((n % 64 + 0x80) / 16) ≡ "a")
      ⊎ (hex_digit ((n % 64 + 0x80) / 16) ≡ "b")
unfolding hex_digit
variant_digit n = elim (four n) [
  | inl e ↦ inl (rw e)
  | inr (inl e) ↦ inr (inl (rw e))
  | inr (inr (inl e)) ↦ inr (inr (inl (rw e)))
  | inr (inr (inr e)) ↦ inr (inr (inr (rw e)))
]
  where
    four :
        (n : ℕ)
        → ((n % 64 + 0x80) / 16 % 16 ≡ 8)
          ⊎ ((n % 64 + 0x80) / 16 % 16 ≡ 9)
          ⊎ ((n % 64 + 0x80) / 16 % 16 ≡ 10)
          ⊎ ((n % 64 + 0x80) / 16 % 16 ≡ 11)
    four n = omega arith

version_digit : (n : ℕ) → hex_digit ((n % 16 + 0x50) / 16) ≡ "5"
unfolding hex_digit
version_digit n = rw (version n)
  where
    version : (n : ℕ) → (n % 16 + 0x50) / 16 % 16 ≡ 5
    version n = omega arith

three : (n b : ℕ) → count (join (hex_digit n) (hex (b ∷ []))) ≡ 3
three n b =
    omega (arith, length-append (hex_digit n) (hex (b ∷ [])), count-hex_digit n, count-hex (b ∷ []))

format_uuid-IsUuidV5 : (h : List ℕ) → length h ≡ 20 → IsUuidV5 (format_uuid (stamp h))
unfolding format_uuid hex
format_uuid-IsUuidV5 (a ∷ b ∷ c ∷ d ∷ e ∷ f ∷ g ∷ i ∷ j ∷ k ∷ t) eq = record {
  first = hex (a ∷ b ∷ c ∷ d ∷ []);
  second = hex (e ∷ f ∷ []);
  third = join (hex_digit (g % 16 + 0x50)) (hex (i ∷ []));
  variant = hex_digit ((j % 64 + 0x80) / 16);
  fourth = join (hex_digit (j % 64 + 0x80)) (hex (k ∷ []));
  fifth = hex (take 6 t);
  split = rw (version_digit g);
  lengths = (
    count-hex (a ∷ b ∷ c ∷ d ∷ []),
    count-hex (e ∷ f ∷ []),
    three (g % 16 + 0x50) i,
    three (j % 64 + 0x80) k,
    omega (arith, count-hex (take 6 t), length-take 6 t),
  );
  hexadecimal = (
    is_hex_text-hex (a ∷ b ∷ c ∷ d ∷ []),
    is_hex_text-hex (e ∷ f ∷ []),
    is_hex_text-join (hex_digit (g % 16 + 0x50)) (hex (i ∷ []))
        (is_hex_text-hex_digit (g % 16 + 0x50)) (is_hex_text-hex (i ∷ [])),
    is_hex_text-join (hex_digit (j % 64 + 0x80)) (hex (k ∷ []))
        (is_hex_text-hex_digit (j % 64 + 0x80)) (is_hex_text-hex (k ∷ [])),
    is_hex_text-hex (take 6 t),
  );
  rfc_4122 = variant_digit j;
}
format_uuid-IsUuidV5 [] eq = absurd (omega arith)
format_uuid-IsUuidV5 (a ∷ []) eq = absurd (omega arith)
format_uuid-IsUuidV5 (a ∷ b ∷ []) eq = absurd (omega arith)
format_uuid-IsUuidV5 (a ∷ b ∷ c ∷ []) eq = absurd (omega arith)
format_uuid-IsUuidV5 (a ∷ b ∷ c ∷ d ∷ []) eq = absurd (omega arith)
format_uuid-IsUuidV5 (a ∷ b ∷ c ∷ d ∷ e ∷ []) eq = absurd (omega arith)
format_uuid-IsUuidV5 (a ∷ b ∷ c ∷ d ∷ e ∷ f ∷ []) eq = absurd (omega arith)
format_uuid-IsUuidV5 (a ∷ b ∷ c ∷ d ∷ e ∷ f ∷ g ∷ []) eq = absurd (omega arith)
format_uuid-IsUuidV5 (a ∷ b ∷ c ∷ d ∷ e ∷ f ∷ g ∷ i ∷ []) eq = absurd (omega arith)
format_uuid-IsUuidV5 (a ∷ b ∷ c ∷ d ∷ e ∷ f ∷ g ∷ i ∷ j ∷ []) eq = absurd (omega arith)

-- On a hash of 20 bytes, what a user gets on a node is the text of a UUID of version 5
-- and of the RFC 4122 variant: hexadecimal digits in small letters, in groups of 8, 4, 4, 4 and 12.
pub derive_uuid-IsUuidV5 :
    (p : Platform)
    → ((b : List ℕ) → length (p.sha1 b) ≡ 20)
    → (base suffix : String) → IsUuidV5 (derive_uuid p base suffix)
unfolding derive_uuid
derive_uuid-IsUuidV5 p h base suffix =
    format_uuid-IsUuidV5 (p.sha1 (namespace_bytes base ++ bytes suffix)) (h _)
