-- ===== src/Base/Lists.antt =====
-- Lists measured by native numbers, membership as a test, and predicates by recursion.
use Prim.Native.Nat.{ℕ, zero, suc}
use Prim.Native.String.{String}
use mathlib.Core.Path.{◌≡◌, refl}
use mathlib.Core.Logic.{inl, inr}
use mathlib.Core.Bool.{not, Bool, true, false, ◌&&◌, ◌||◌}
use mathlib.Core.Option.{Option, none, some}
use mathlib.Core.List.{List, [], ◌∷◌, ◌++◌, map}
use native.Mathlib.Omega.{arith}
use text.Mathlib.TextEquality.{eq_iff}
use singbox_operator.Base.Tests.{◌==◌, if◌then◌else◌, Bool-cases}

module _ {ℓ} {A : Type ℓ} where
  abbrev pub length : List A → ℕ
  length [] = 0
  length (x ∷ xs) = suc (length xs)

  -- `len(xs) == 0`
  abbrev pub is_empty : List A → Bool
  is_empty [] = true
  is_empty (x ∷ xs) = false

  abbrev pub all : (A → Bool) → List A → Bool
  all p [] = true
  all p (x ∷ xs) = p x && all p xs

  abbrev pub any : (A → Bool) → List A → Bool
  any p [] = false
  any p (x ∷ xs) = p x || any p xs

  -- The elements that pass a test, in order.
  abbrev pub keep : (A → Bool) → List A → List A
  keep p [] = []
  keep p (x ∷ xs) = if p x then x ∷ keep p xs else keep p xs

  -- The first element that passes a test.
  abbrev pub find : (A → Bool) → List A → Option A
  find p [] = none
  find p (x ∷ xs) = if p x then some x else find p xs

module _ {ℓ κ} {A : Type ℓ} (P : A → Type κ) where
  abbrev pub All : List A → Type κ
  All [] = Unit
  All (x ∷ xs) = P x × All xs

  pub All-append : (xs ys : List A) → All xs → All ys → All (xs ++ ys)
  All-append [] ys h k = k
  All-append (x ∷ xs) ys (p, h) k = (p, All-append xs ys h k)

-- A fact about every element carries over along an implication.
pub All-mono {ℓ κ μ} :
    {A : Type ℓ} {P : A → Type κ} {Q : A → Type μ}
    → ((a : A) → P a → Q a)
    → (xs : List A) → All P xs
    → All Q xs
All-mono f [] h = tt
All-mono f (x ∷ xs) (p, h) = (f x p, All-mono f xs h)

-- `slices.Contains`, and a set held as a list.
abbrev pub contains : List String → String → Bool
contains [] k = false
contains (x ∷ xs) k = x == k || contains xs k

abbrev pub Distinct : List String → Type 0
Distinct [] = Unit
Distinct (x ∷ xs) = (contains xs x ≡ false) × Distinct xs

pub contains-append :
    (xs ys : List String) (k : String) → contains (xs ++ ys) k ≡ (contains xs k || contains ys k)
contains-append [] ys k = refl
contains-append (x ∷ xs) ys k = ground (arith, contains-append xs ys k)

pub contains-map {ℓ} :
    {A : Type ℓ} (f : A → String) (xs : List A) (p : A → Bool) (k : String)
    → contains (map f (keep p xs)) k ≡ true
    → contains (map f xs) k ≡ true
contains-map f [] p k h = h
contains-map f (x ∷ xs) p k h = ground (arith, contains-map f xs p k)

module _ {ℓ} {A : Type ℓ} where
  abbrev pub take : ℕ → List A → List A
  take zero xs = []
  take (suc n) [] = []
  take (suc n) (x ∷ xs) = x ∷ take n xs

  abbrev pub drop : ℕ → List A → List A
  drop zero xs = xs
  drop (suc n) [] = []
  drop (suc n) (x ∷ xs) = drop n xs

-- An element that passes a test, with what holds of every element.
pub All-any {ℓ κ} :
    {A : Type ℓ} {P : A → Type κ} (q : A → Bool) (xs : List A)
    → All P xs
    → any q xs ≡ true
    → (x : A) × P x × (q x ≡ true)
All-any q [] h e = cc
All-any q (x ∷ xs) (p, h) e = elim (Bool-cases (q x)) [
  | inl t ↦ (x, p, t)
  | inr f ↦ All-any q xs h (ground arith)
]

-- `names`, with `name` at the end unless it is there.
abbrev pub add_name : List String → String → List String
add_name names name = if contains names name then names else names ++ name ∷ []

pub contains-add_name :
    (names : List String) (n k : String)
    → contains (add_name names n) k ≡ (contains names k || n == k)
contains-add_name names n k = elim (Bool-cases (contains names n)) [
  | inl old ↦ rw old (ground (arith, eq_iff n k))
  | inr new ↦ rw new (ground (arith, contains-append names (n ∷ []) k))
]

pub Distinct-concat :
    (xs : List String) (k : String) → Distinct xs → contains xs k ≡ false → Distinct (xs ++ k ∷ [])
Distinct-concat [] k d h = (refl, tt)
Distinct-concat (x ∷ xs) k d h =
    ground (arith, contains-append xs (k ∷ []) x, eq_iff x k, eq_iff k x, Distinct-concat xs k d.1)

pub Distinct-add_name :
    (names : List String) (n : String) → Distinct names → Distinct (add_name names n)
Distinct-add_name names n d = elim (Bool-cases (contains names n)) [
  | inl old ↦ rw old d
  | inr new ↦ rw new (Distinct-concat names n d new)
]

-- Nothing is kept where every element fails the test.
pub is_empty-map-keep {ℓ κ} :
    {A : Type ℓ} {B : Type κ} (f : A → B) (p : A → Bool) (xs : List A)
    → is_empty (map f (keep p xs)) ≡ all (λ x. not (p x)) xs
is_empty-map-keep f p [] = refl
is_empty-map-keep f p (x ∷ xs) = elim (Bool-cases (p x)) [
  | inl kept ↦ rw kept
  | inr dropped ↦ rw dropped (is_empty-map-keep f p xs)
]

module _ {ℓ} {A : Type ℓ} where
  pub any-witness : (q : A → Bool) (xs : List A) → any q xs ≡ true → (x : A) × (q x ≡ true)
  any-witness q [] e = cc
  any-witness q (x ∷ xs) e = elim (Bool-cases (q x)) [
    | inl t ↦ (x, t)
    | inr f ↦ any-witness q xs (ground arith)
  ]

  pub any_mono :
      (p q : A → Bool)
      → ((x : A) → p x ≡ true → q x ≡ true)
      → (xs : List A) → any p xs ≡ true
      → any q xs ≡ true
  any_mono p q f [] e = e
  any_mono p q f (x ∷ xs) e = ground (arith, f x, any_mono p q f xs)

  pub All-keep {κ} : (P : A → Type κ) (q : A → Bool) (xs : List A) → All P xs → All P (keep q xs)
  All-keep P q [] h = h
  All-keep P q (x ∷ xs) (p, h) = elim (Bool-cases (q x)) [
    | inl t ↦ rw t (p, All-keep P q xs h)
    | inr f ↦ rw f (All-keep P q xs h)
  ]

pub eq-nil {ℓ} : {A : Type ℓ} (xs : List A) → is_empty xs ≡ true → xs ≡ []
eq-nil [] h = refl
eq-nil (x ∷ xs) h = cc

pub any-contains : (xs : List String) (k : String) → contains xs k ≡ any (λ x. x == k) xs
any-contains [] k = refl
any-contains (x ∷ xs) k = ground (arith, any-contains xs k)

pub any-is_empty {ℓ} :
    {A : Type ℓ} (q : A → Bool) (xs : List A) → is_empty xs ≡ true → any q xs ≡ false
any-is_empty q [] h = refl
any-is_empty q (x ∷ xs) h = cc

pub keep-true {ℓ} : {A : Type ℓ} (q : A → Bool) (xs : List A) → All (λ x. q x ≡ true) (keep q xs)
keep-true q [] = tt
keep-true q (x ∷ xs) = elim (Bool-cases (q x)) [
  | inl t ↦ rw t (t, keep-true q xs)
  | inr f ↦ rw f (keep-true q xs)
]

pub All-both {ℓ κ μ} :
    {A : Type ℓ} (P : A → Type κ) (Q : A → Type μ) (xs : List A)
    → All P xs
    → All Q xs
    → All (λ x. P x × Q x) xs
All-both P Q [] h k = tt
All-both P Q (x ∷ xs) (p, h) (q, k) = ((p, q), All-both P Q xs h k)

pub All-map {ℓ κ μ} :
    {A : Type ℓ} {B : Type κ} (P : B → Type μ) (f : A → B) (xs : List A)
    → All (λ x. P (f x)) xs
    → All P (map f xs)
All-map P f [] h = tt
All-map P f (x ∷ xs) (p, h) = (p, All-map P f xs h)

pub any-append {ℓ} :
    {A : Type ℓ} (q : A → Bool) (xs ys : List A) → any q (xs ++ ys) ≡ (any q xs || any q ys)
any-append q [] ys = refl
any-append q (x ∷ xs) ys = ground (arith, any-append q xs ys)
