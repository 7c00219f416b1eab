-- ===== src/Base/Maps.antt =====
-- Go maps with text keys, as association lists. Iteration is in the list's order, which stands
-- for the arbitrary order in which Go ranges over a map.
use Prim.Native.String.{String}
use mathlib.Core.Path.{◌≡◌, refl}
use mathlib.Core.Option.{Option, none, some}
use mathlib.Core.List.{List, [], ◌∷◌}
use native.Mathlib.Omega.{arith}
use text.Mathlib.TextEquality.{eq_iff}
use text.Mathlib.TextPositions.{eq_refl}
use mathlib.Core.Logic.{inl, inr}
use singbox_operator.Base.Tests.{◌==◌, if◌then◌else◌, Bool-cases}
use singbox_operator.Base.Lists.{All}

abbrev pub StringMap {ℓ} : Type ℓ → Type ℓ
StringMap V = List (String × V)

module _ {ℓ} {V : Type ℓ} where
  abbrev pub lookup : String → StringMap V → Option V
  lookup k [] = none
  lookup k ((j, v) ∷ m) = if j == k then some v else lookup k m

  abbrev pub insert : String → V → StringMap V → StringMap V
  insert k v [] = (k, v) ∷ []
  insert k v ((j, w) ∷ m) = if j == k then (k, v) ∷ m else (j, w) ∷ insert k v m

  -- A missing key reads as the zero value.
  abbrev pub lookup_or : V → String → StringMap V → V
  lookup_or d k m = elim (lookup k m) [ none ↦ d | some v ↦ v ]

  pub lookup-insert :
      (k j : String) (v : V) (m : StringMap V)
      → lookup j (insert k v m) ≡ (if k == j then some v else lookup j m)
  lookup-insert k j v [] = refl
  lookup-insert k j v ((i, w) ∷ m) =
      ground (arith, eq_iff k j, eq_iff i k, eq_iff i j, lookup-insert k j v m)

module _ {ℓ} {V : Type ℓ} where
  pub lookup_or-insert :
      (d : V) (k : String) (v : V) (m : StringMap V) → lookup_or d k (insert k v m) ≡ v
  lookup_or-insert d k v m = ground (arith, lookup-insert k k v m, eq_refl k)

pub All-insert {ℓ κ} :
    {V : Type ℓ} (P : String × V → Type κ) (k : String) (v : V) (m : StringMap V)
    → P (k, v)
    → All P m
    → All P (insert k v m)
All-insert P k v [] p h = (p, tt)
All-insert P k v ((j, w) ∷ m) p (q, h) = elim (Bool-cases (j == k)) [
  | inl t ↦ rw t (p, h)
  | inr f ↦ rw f (q, All-insert P k v m p h)
]
