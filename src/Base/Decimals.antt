-- ===== src/Base/Decimals.antt =====
-- The decimal print of a number, and reading it.
use Prim.Native.Nat.{ℕ, zero, suc, ◌+◌, ◌-◌, ◌*◌, ◌/◌, ◌%◌, ◌^◌, ◌<◌, ◌≤◌}
use Prim.Native.Char.{Char, code}
use Prim.Native.String.compare
use Prim.Native.String.{String}
use mathlib.Core.Path.{◌≡◌, refl, sym, ap, subst, ◌∙◌}
use mathlib.Core.Logic.{inl, inr}
use mathlib.Core.Bool.{Bool, true, false, ◌&&◌}
use mathlib.Core.Option.{some}
use native.Mathlib.Omega.{arith}
use native.Mathlib.Nat.{pow-suc}
use text.Mathlib.Text.{is_eq}
use singbox_operator.Base.Tests.{ltb, leb, nat_eq, ◌==◌, Bool-cases}
use singbox_operator.Base.Int.{pos}
use singbox_operator.Base.Texts.{
  digit_char, digit_char-code, emit, decimal, digits_value, max_int, in_range, atoi,
}

is_digit : Char → Bool
is_digit c = leb b'0' (code c) && leb (code c) b'9'

digits_value-cons :
    (d n : ℕ) (s : String)
    → d < 10
    → digits_value n (String.◌∷◌ (digit_char d) s) ≡ digits_value (n * 10 + d) s
unfolding digits_value
digits_value-cons d n s h =
    let value : code (digit_char d) ≡ b'0' + d = digit_char-code d h in
    let digit : (leb b'0' (code (digit_char d)) && leb (code (digit_char d)) b'9') ≡ true =
      ground arith in
    let same : n * 10 + (code (digit_char d) - b'0') ≡ n * 10 + d = omega arith in
    rw (digits_value, digit) (ap (λ x. digits_value x s) same)

digits_value-emit :
    (f n : ℕ) (out : String) → n < 10 ^ f → digits_value 0 (emit f n out) ≡ digits_value n out
unfolding emit
digits_value-emit zero n out h =
    let none_left : n ≡ 0 = omega (arith, h) in ap (λ x. digits_value x out) (sym none_left)
digits_value-emit (suc f) n out h = elim (Bool-cases (ltb 0 n)) [
  | inr done ↦
      let none_left : n ≡ 0 = ground arith in
      rw (emit, done) (ap (λ x. digits_value x out) (sym none_left))
  | inl more ↦
      let fits : n / 10 < 10 ^ f = omega (arith, pow-suc 10 f) in
      let last : n / 10 * 10 + n % 10 ≡ n = omega arith in
      rw (emit, more)
        (digits_value-emit f (n / 10) (String.◌∷◌ (digit_char (n % 10)) out) fits
          ∙ digits_value-cons (n % 10) (n / 10) out (omega arith)
          ∙ ap (λ x. digits_value x out) last)
]

abbrev starts_with_digit : String → Bool
starts_with_digit String.[] = false
starts_with_digit (String.◌∷◌ c s) = is_digit c

digit_char-is_digit : (d : ℕ) → d < 10 → is_digit (digit_char d) ≡ true
unfolding is_digit
digit_char-is_digit d h = ground (arith, digit_char-code d h)

emit-starts_with_digit :
    (f n : ℕ) (out : String)
    → starts_with_digit out ≡ true
    → starts_with_digit (emit f n out) ≡ true
unfolding emit
emit-starts_with_digit zero n out h = h
emit-starts_with_digit (suc f) n out h = elim (Bool-cases (ltb 0 n)) [
  | inr done ↦ rw (emit, done) h
  | inl more ↦
      rw (emit, more)
        (emit-starts_with_digit f (n / 10) (String.◌∷◌ (digit_char (n % 10)) out)
          (digit_char-is_digit (n % 10) (omega arith)))
]

atoi-digits_value : (s : String) → starts_with_digit s ≡ true → atoi s ≡ in_range (digits_value 0 s)
unfolding atoi is_digit
atoi-digits_value String.[] h = cc
atoi-digits_value (String.◌∷◌ c s) h =
    let minus : nat_eq (code c) b'-' ≡ false = ground arith in
    let plus : nat_eq (code c) b'+' ≡ false = ground arith in
    let nonempty : (String.◌∷◌ c s == "") ≡ false = ap is_eq (compare.cons-nil c s) in
    rw (atoi, minus, plus, nonempty)

emit-starts_with_digit_nonzero :
    (f n : ℕ) → nat_eq n 0 ≡ false → starts_with_digit (emit (suc f) n "") ≡ true
unfolding emit
emit-starts_with_digit_nonzero f n nz =
    let more : ltb 0 n ≡ true = ground arith in
    rw (emit, more)
      (emit-starts_with_digit f (n / 10) (String.◌∷◌ (digit_char (n % 10)) "")
        (digit_char-is_digit (n % 10) (omega arith)))

atoi_zero : atoi (decimal 0) ≡ some (pos 0)
unfolding atoi decimal digits_value
atoi_zero = refl

-- What `%d` prints, Atoi reads.
pub atoi-decimal : (n : ℕ) → n ≤ max_int → atoi (decimal n) ≡ some (pos n)
unfolding decimal digits_value
atoi-decimal n h = elim (Bool-cases (nat_eq n 0)) [
  | inl z ↦
      let zeroth : n ≡ 0 = ground arith in
      subst (λ x. atoi (decimal x) ≡ some (pos x)) (sym zeroth) atoi_zero
  | inr nz ↦
      let fits : ltb max_int n ≡ false = ground arith in
      rw nz (
        atoi-digits_value (emit 20 n "") (emit-starts_with_digit_nonzero 19 n nz)
        ∙ ap in_range (digits_value-emit 20 n "" (omega arith))
        ∙ rw fits)
]
