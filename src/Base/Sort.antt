-- ===== src/Base/Sort.antt =====
-- Go's sort.SliceStable, as a stable insertion sort. It stands for sort.Slice too: the program
-- sorts by names that are unique in their list, where a stable sort has the same result.
use Prim.Native.Nat.{compare as compare_ℕ, Ordering}
use Prim.Native.Char.{Char, code}
use Prim.Native.String
use Prim.Native.String.compare
use Prim.Native.String.{String}
use mathlib.Core.Path.{◌≡◌, refl}
use mathlib.Core.Bool.{Bool, true, false, ◌||◌}
use mathlib.Core.List.Perm
use mathlib.Core.List.{Perm, List, [], ◌∷◌}
use native.Mathlib.Omega.{arith}
use singbox_operator.Base.Tests.{if◌then◌else◌, text_lt, Bool-cases}
use mathlib.Core.Logic.{inl, inr}
use singbox_operator.Base.Lists.{any, All}

module _ {ℓ} {A : Type ℓ} (lt : A → A → Bool) where
  abbrev pub place : A → List A → List A
  place x [] = x ∷ []
  place x (y ∷ ys) = if lt y x then y ∷ place x ys else x ∷ y ∷ ys

  abbrev pub sort : List A → List A
  sort [] = []
  sort (x ∷ xs) = place x (sort xs)

  -- No element is followed at once by a smaller one.
  abbrev pub IsSorted : List A → Type 0
  IsSorted [] = Unit
  IsSorted (x ∷ []) = Unit
  IsSorted (x ∷ y ∷ ys) = (lt y x ≡ false) × IsSorted (y ∷ ys)

  any-place : (p : A → Bool) (x : A) (xs : List A) → any p (place x xs) ≡ (p x || any p xs)
  any-place p x [] = refl
  any-place p x (y ∷ ys) = ground (arith, any-place p x ys)

  -- Sorting keeps the elements: what holds of some element still does.
  pub any-sort : (p : A → Bool) (xs : List A) → any p (sort xs) ≡ any p xs
  any-sort p [] = refl
  any-sort p (x ∷ xs) = ground (arith, any-place p x (sort xs), any-sort p xs)

  All-place {κ} : (P : A → Type κ) (x : A) (xs : List A) → P x → All P xs → All P (place x xs)
  All-place P x [] p h = (p, tt)
  All-place P x (y ∷ ys) p (q, h) = elim (Bool-cases (lt y x)) [
    | inl t ↦ rw t (q, All-place P x ys p h)
    | inr f ↦ rw f (p, (q, h))
  ]

  pub All-sort {κ} : (P : A → Type κ) (xs : List A) → All P xs → All P (sort xs)
  All-sort P [] h = h
  All-sort P (x ∷ xs) (p, h) = All-place P x (sort xs) p (All-sort P xs h)

  place-perm : (x : A) (xs : List A) → Perm (place x xs) (x ∷ xs)
  place-perm x [] = Perm.refl (x ∷ [])
  place-perm x (y ∷ ys) = elim (Bool-cases (lt y x)) [
    | inl t ↦ rw t (Perm.trans (Perm.cons y (place-perm x ys)) (Perm.swap x y ys))
    | inr f ↦ rw f (Perm.refl (x ∷ y ∷ ys))
  ]

  pub sort-perm : (xs : List A) → Perm (sort xs) xs
  sort-perm [] = Perm.refl []
  sort-perm (x ∷ xs) = Perm.trans (place-perm x (sort xs)) (Perm.cons x (sort-perm xs))

  module _ (asym : (a b : A) → lt a b ≡ true → lt b a ≡ false) where
    place-IsSorted : (x : A) (xs : List A) → IsSorted xs → IsSorted (place x xs)
    place-IsSorted x [] h = tt
    place-IsSorted x (y ∷ []) h = ground (arith, asym y x)
    place-IsSorted x (y ∷ z ∷ zs) h =
        ground (arith, asym y x, asym z x, place-IsSorted x (z ∷ zs) h.1)

    pub sort-IsSorted : (xs : List A) → IsSorted (sort xs)
    sort-IsSorted [] = tt
    sort-IsSorted (x ∷ xs) = place-IsSorted x (sort xs) (sort-IsSorted xs)

compare-cons :
    (c d : Char) (s t : String)
    → String.compare (String.◌∷◌ c s) (String.◌∷◌ d t)
      ≡ String.then (compare_ℕ (code c) (code d)) (String.compare s t)
compare-cons c d s t = compare.cons-cons c d s t

compare-gt : (a b : String) → String.compare a b ≡ Ordering.lt → String.compare b a ≡ Ordering.gt
compare-gt String.[] String.[] h = cc (compare.nil-nil)
compare-gt String.[] (String.◌∷◌ d t) h = compare.cons-nil d t
compare-gt (String.◌∷◌ c s) String.[] h = cc (compare.cons-nil c s)
compare-gt (String.◌∷◌ c s) (String.◌∷◌ d t) h =
    ground (arith, compare-cons c d s t, compare-cons d c t s, compare-gt s t)

pub text_lt_asym : (a b : String) → text_lt a b ≡ true → text_lt b a ≡ false
text_lt_asym a b h = ground (arith, compare-gt a b)
