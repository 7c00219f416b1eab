-- ===== src/Webhooks/Errors.antt =====
-- Field errors (field.ErrorList), without their messages.
use singbox_operator.Base.{
  ℕ, String, Bool, true, ◌&&◌, not, List, [], ◌∷◌, ◌++◌, ◌≡◌, refl, ◌∙◌, arith, is_empty, contains,
  all, if◌then◌else◌, Bool-cases, inl, inr, eq_iff,
}

-- The path of a field: a field, or a child of an element of a list (`""` is the element itself).
pub data FieldPath : Type 0 where
  field : String → FieldPath
  element : String → ℕ → String → FieldPath

pub data FieldError : Type 0 where
  required invalid duplicate not_supported forbidden : FieldPath → FieldError

-- `if test { errs = append(errs, e) }`
abbrev pub report : Bool → FieldError → List FieldError
report b e = if b then e ∷ [] else []

pub is_empty-append {ℓ} :
    {A : Type ℓ} (xs ys : List A) → is_empty (xs ++ ys) ≡ (is_empty xs && is_empty ys)
is_empty-append [] ys = refl
is_empty-append (x ∷ xs) ys = refl

pub is_empty-report : (b : Bool) (e : FieldError) → is_empty (report b e) ≡ not b
is_empty-report b e = elim (Bool-cases b) [ inl t ↦ rw t | inr f ↦ rw f ]

-- Reports in a row find nothing when each of them finds nothing.
pub both :
    (xs ys : List FieldError) {a b : Bool}
    → is_empty xs ≡ a
    → is_empty ys ≡ b
    → is_empty (xs ++ ys) ≡ (a && b)
both xs ys e f = ground (arith, is_empty-append xs ys)

pub fits : (b : Bool) (e : FieldError) {a : Bool} → not b ≡ a → is_empty (report b e) ≡ a
fits b e h = is_empty-report b e ∙ h

-- Whether no text occurs twice.
abbrev pub distinct : List String → Bool
distinct [] = true
distinct (x ∷ xs) = not (contains xs x) && distinct xs

-- Whether no text of a list is in the set of those seen before.
abbrev pub unseen : List String → List String → Bool
unseen seen xs = all (λ x. not (contains seen x)) xs

pub unseen-cons :
    (x : String) (seen xs : List String)
    → unseen (x ∷ seen) xs ≡ (not (contains xs x) && unseen seen xs)
unseen-cons x seen [] = refl
unseen-cons x seen (y ∷ ys) = ground (arith, unseen-cons x seen ys, eq_iff x y, eq_iff y x)

pub unseen-nil : (xs : List String) → unseen [] xs ≡ true
unseen-nil [] = refl
unseen-nil (x ∷ xs) = unseen-nil xs
