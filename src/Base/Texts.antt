-- ===== src/Base/Texts.antt =====
-- Texts read character by character: strings.Cut and SplitN at one character, `%d` and strconv.Atoi.
use Prim.Native.Nat.{ℕ, zero, suc, ◌+◌, ◌-◌, ◌*◌, ◌/◌, ◌%◌, ◌<◌}
use Prim.Native.Char.{Char, code}
use Prim.Native.String.{String, ◌++◌ as join}
use mathlib.Core.Path.{◌≡◌, refl, sym, ap, subst, ◌∙◌}
use mathlib.Core.Bool.{Bool, true, false, not, ◌&&◌}
use mathlib.Core.Option.{Option, none, some}
use native.Mathlib.Omega.{arith}
use text.Mathlib.TextLemmas.{nil-append, cons-append}
use singbox_operator.Base.Tests.{ltb, leb, nat_eq, ◌==◌, if◌then◌else◌}
use singbox_operator.Base.Int.{ℤ, pos, negsuc}

abbrev pub letter : Char → String
letter c = String.◌∷◌ c ""

pub letter-join : (c : Char) (s : String) → join (letter c) s ≡ String.◌∷◌ c s
letter-join c s = cons-append c "" s ∙ ap (String.◌∷◌ c) (nil-append s)

-- No character of the text passes the test.
abbrev pub lacks : (Char → Bool) → String → Bool
lacks test String.[] = true
lacks test (String.◌∷◌ c s) = not (test c) && lacks test s

pub lacks-append :
    (test : Char → Bool) (s t : String)
    → lacks test s ≡ true
    → lacks test t ≡ true
    → lacks test (join s t) ≡ true
lacks-append test String.[] t h k = subst (λ x. lacks test x ≡ true) (sym (nil-append t)) k
lacks-append test (String.◌∷◌ c s) t h k =
    let rest : lacks test s ≡ true = ground arith in
    let first : test c ≡ false = ground arith in
    subst (λ x. lacks test x ≡ true) (sym (cons-append c s t))
      (rw (first) (lacks-append test s t rest k))

-- What stands before and after the first separator; `none` if there is none.
unfoldable pub cut_at : (Char → Bool) → String → Option (String × String)
cut_at sep String.[] = none
cut_at sep (String.◌∷◌ c s) = elim (sep c) [
  | true ↦ some ("", s)
  | false ↦ elim (cut_at sep s) [ none ↦ none | some (b, a) ↦ some (join (letter c) b, a) ]
]

pub cut_at-append :
    (sep : Char → Bool) (c : Char) (s t : String)
    → lacks sep s ≡ true
    → sep c ≡ true
    → cut_at sep (join s (String.◌∷◌ c t)) ≡ some (s, t)
unfolding cut_at
cut_at-append sep c String.[] t h k = ap (cut_at sep) (nil-append (String.◌∷◌ c t)) ∙ rw (cut_at, k)
cut_at-append sep c (String.◌∷◌ d s) t h k =
    let rest : lacks sep s ≡ true = ground arith in
    let other : sep d ≡ false = ground arith in
    let step : cut_at sep (String.◌∷◌ d (join s (String.◌∷◌ c t))) ≡ some (join (letter d) s, t) =
      rw (cut_at, other, cut_at-append sep c s t rest k) in
    ap (cut_at sep) (cons-append d s (String.◌∷◌ c t))
    ∙ step
    ∙ ap (λ x. some (x, t)) (letter-join d s)

pub cut_at-lacks : (sep : Char → Bool) (s : String) → lacks sep s ≡ true → cut_at sep s ≡ none
unfolding cut_at
cut_at-lacks sep String.[] h = refl
cut_at-lacks sep (String.◌∷◌ d s) h =
    let rest : lacks sep s ≡ true = ground arith in
    let other : sep d ≡ false = ground arith in rw (cut_at, other, cut_at-lacks sep s rest)

abbrev pub digit_char : ℕ → Char
digit_char zero = "0"
digit_char (suc zero) = "1"
digit_char (suc (suc zero)) = "2"
digit_char (suc (suc (suc zero))) = "3"
digit_char (suc (suc (suc (suc zero)))) = "4"
digit_char (suc (suc (suc (suc (suc zero))))) = "5"
digit_char (suc (suc (suc (suc (suc (suc zero)))))) = "6"
digit_char (suc (suc (suc (suc (suc (suc (suc zero))))))) = "7"
digit_char (suc (suc (suc (suc (suc (suc (suc (suc zero)))))))) = "8"
digit_char (suc (suc (suc (suc (suc (suc (suc (suc (suc n))))))))) = "9"

pub digit_char-code : (d : ℕ) → d < 10 → code (digit_char d) ≡ b'0' + d
digit_char-code zero h = refl
digit_char-code (suc zero) h = refl
digit_char-code (suc (suc zero)) h = refl
digit_char-code (suc (suc (suc zero))) h = refl
digit_char-code (suc (suc (suc (suc zero)))) h = refl
digit_char-code (suc (suc (suc (suc (suc zero))))) h = refl
digit_char-code (suc (suc (suc (suc (suc (suc zero)))))) h = refl
digit_char-code (suc (suc (suc (suc (suc (suc (suc zero))))))) h = refl
digit_char-code (suc (suc (suc (suc (suc (suc (suc (suc zero)))))))) h = refl
digit_char-code (suc (suc (suc (suc (suc (suc (suc (suc (suc zero))))))))) h = refl
digit_char-code (suc (suc (suc (suc (suc (suc (suc (suc (suc (suc n)))))))))) h =
    absurd (omega arith)

-- The digits of `n` before `out`; one round for each digit.
unfoldable pub emit : ℕ → ℕ → String → String
emit zero n out = out
emit (suc f) n out = elim (ltb 0 n) [
  | true ↦ emit f (n / 10) (String.◌∷◌ (digit_char (n % 10)) out)
  | false ↦ out
]

-- `%d` of a number of at most twenty digits.
unfoldable pub decimal : ℕ → String
unfolding emit
decimal n = if nat_eq n 0 then "0" else emit 20 n ""

-- The value of a text of digits, read after `n`.
unfoldable pub digits_value : ℕ → String → Option ℕ
digits_value n String.[] = some n
digits_value n (String.◌∷◌ c s) = elim (leb b'0' (code c) && leb (code c) b'9') [
  | true ↦ digits_value (n * 10 + (code c - b'0')) s
  | false ↦ none
]

abbrev pub max_int : ℕ
max_int = 9223372036854775807

abbrev pub magnitude : String → Option ℕ
magnitude s = if s == "" then none else digits_value 0 s

abbrev pub in_range : Option ℕ → Option ℤ
in_range none = none
in_range (some n) = if ltb max_int n then none else some (pos n)

abbrev pub negated : Option ℕ → Option ℤ
negated none = none
negated (some zero) = some (pos 0)
negated (some (suc n)) = if ltb max_int n then none else some (negsuc n)

-- strconv.Atoi on 64 bits; `none` is an error.
unfoldable pub atoi : String → Option ℤ
atoi String.[] = none
atoi (String.◌∷◌ c s) =
    if nat_eq (code c) b'-'
    then negated (magnitude s)
    else if nat_eq (code c) b'+'
    then in_range (magnitude s)
    else in_range (magnitude (String.◌∷◌ c s))
