-- ===== src/Base/Named.antt =====
-- Lists whose elements have different names, before and after sorting.
use Prim.Native.String.{String}
use mathlib.Core.Path.{◌≡◌, refl, sym, ap, ◌∙◌}
use mathlib.Core.Logic.{inl, inr}
use mathlib.Core.Bool.{Bool, true, false, ◌||◌}
use mathlib.Core.Option.{some, some-injective}
use mathlib.Core.Path.{subst}
use mathlib.Core.List.{List, [], ◌∷◌, map}
use native.Mathlib.Omega.{arith}
use text.Mathlib.TextEquality.{eq_iff}
use text.Mathlib.TextPositions.{eq_refl}
use singbox_operator.Base.Tests.{◌==◌, if◌then◌else◌, Bool-cases}
use singbox_operator.Base.Lists.{any, keep, All, All-mono, All-both, Distinct, contains, find}
use singbox_operator.Base.Sort.{place, sort}

module _ {ℓ} {A : Type ℓ} (name : A → String) where
  other_names :
      (x : A) (xs : List A)
      → contains (map name xs) (name x) ≡ false
      → All (λ y. name x == name y ≡ false) xs
  other_names x [] h = tt
  other_names x (y ∷ ys) h = (
    ground (arith, eq_iff (name x) (name y), eq_iff (name y) (name x)),
    other_names x ys (ground arith),
  )

  -- Each element is the one that its name stands for.
  pub Distinct-find :
      (xs : List A)
      → Distinct (map name xs)
      → All (λ x. find (λ y. name y == name x) xs ≡ some x) xs
  Distinct-find [] d = tt
  Distinct-find (x ∷ xs) (new, d) = (
    rw (eq_refl (name x)),
    All-mono (λ y (other, known). rw (other, known)) xs
        (All-both _ _ xs (other_names x xs new) (Distinct-find xs d)),
  )

  module _ (lt : A → A → Bool) where
    contains-map-place :
        (x : A) (xs : List A) (k : String)
        → contains (map name (place lt x xs)) k ≡ (name x == k || contains (map name xs) k)
    contains-map-place x [] k = refl
    contains-map-place x (y ∷ ys) k = elim (Bool-cases (lt y x)) [
      | inl t ↦ rw t (ground (arith, contains-map-place x ys k))
      | inr f ↦ rw f
    ]

    Distinct-map-place :
        (x : A) (xs : List A)
        → contains (map name xs) (name x) ≡ false
        → Distinct (map name xs)
        → Distinct (map name (place lt x xs))
    Distinct-map-place x [] h d = (refl, tt)
    Distinct-map-place x (y ∷ ys) h d = elim (Bool-cases (lt y x)) [
      | inl t ↦ rw t (
        ground (
          arith,
          contains-map-place x ys (name y),
          eq_iff (name x) (name y),
          eq_iff (name y) (name x),
        ),
        Distinct-map-place x ys (ground arith) d.1,
      )
      | inr f ↦ rw f (h, d)
    ]

    contains-map-sort :
        (xs : List A) (k : String) → contains (map name (sort lt xs)) k ≡ contains (map name xs) k
    contains-map-sort [] k = refl
    contains-map-sort (x ∷ xs) k =
        ground (arith, contains-map-place x (sort lt xs) k, contains-map-sort xs k)

    pub Distinct-map-sort :
        (xs : List A) → Distinct (map name xs) → Distinct (map name (sort lt xs))
    Distinct-map-sort [] d = tt
    Distinct-map-sort (x ∷ xs) (new, d) =
        Distinct-map-place x (sort lt xs) (contains-map-sort xs (name x) ∙ new)
          (Distinct-map-sort xs d)

module _ {ℓ κ} {A : Type ℓ} (P : A → Type κ) where
  module _ (lt : A → A → Bool) where
    All-unplace : (x : A) (xs : List A) → All P (place lt x xs) → P x × All P xs
    All-unplace x [] h = h
    All-unplace x (y ∷ ys) h = placed (λ k. All-unplace x ys k) (lt y x) h
      where
        placed :
            (All P (place lt x ys) → P x × All P ys)
            → (b : Bool) → All P (if b then y ∷ place lt x ys else x ∷ y ∷ ys)
            → P x × All P (y ∷ ys)
        placed next true (q, k) = let (p, l) = next k in (p, (q, l))
        placed next false (p, k) = (p, k)

    -- What holds of the elements of the sorted list holds of those of the list.
    pub All-unsort : (xs : List A) → All P (sort lt xs) → All P xs
    All-unsort [] h = tt
    All-unsort (x ∷ xs) h = let (p, k) = All-unplace x (sort lt xs) h in (p, All-unsort xs k)

  -- What holds of every element holds of one that is found, which passes the test.
  pub All-find : (q : A → Bool) (xs : List A) (x : A) → All P xs → find q xs ≡ some x → P x
  All-find q [] x h e = cc
  All-find q (y ∷ ys) x (p, h) e = elim (Bool-cases (q y)) [
    | inl t ↦ subst P (some-injective y x (sym (ap (λ b. if b then some y else find q ys) t) ∙ e)) p
    | inr f ↦ All-find q ys x h (sym (ap (λ b. if b then some y else find q ys) f) ∙ e)
  ]

-- An element that is found passes where a list is searched.
pub any-find {ℓ} :
    {A : Type ℓ} (q h : A → Bool) (xs : List A) (x : A)
    → find q xs ≡ some x
    → h x ≡ true
    → any h xs ≡ true
any-find q h [] x f e = cc
any-find q h (y ∷ ys) x f e = elim (Bool-cases (q y)) [
  | inl t ↦
      let same : y ≡ x =
        some-injective y x (sym (ap (λ b. if b then some y else find q ys) t) ∙ f) in
      let here : h y ≡ true = subst (λ z. h z ≡ true) (sym same) e in rw here
  | inr g ↦
      ground (arith, any-find q h ys x (sym (ap (λ b. if b then some y else find q ys) g) ∙ f) e)
]

-- The element of a name is found among those that are kept, if it is one of them.
pub find-keep {ℓ} :
    {A : Type ℓ} (name : A → String) (q : A → Bool) (k : String) (xs : List A) (x : A)
    → find (λ y. name y == k) xs ≡ some x
    → q x ≡ true
    → find (λ y. name y == k) (keep q xs) ≡ some x
find-keep name q k [] x f e = cc
find-keep name q k (y ∷ ys) x f e = elim (Bool-cases (name y == k)) [
  | inl same ↦
      let y_x : y ≡ x =
        some-injective y x
          (sym (ap (λ b. if b then some y else find (λ z. name z == k) ys) same) ∙ f) in
      let kept : q y ≡ true = subst (λ z. q z ≡ true) (sym y_x) e in rw (kept, same) (ap some y_x)
  | inr other ↦
      let later : find (λ z. name z == k) ys ≡ some x =
        sym (ap (λ b. if b then some y else find (λ z. name z == k) ys) other) ∙ f in
      elim (Bool-cases (q y)) [
        | inl t ↦ rw (t, other) (find-keep name q k ys x later e)
        | inr g ↦ rw g (find-keep name q k ys x later e)
      ]
]
