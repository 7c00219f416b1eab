-- ===== src/ApiServer/Apart.antt =====
-- Different names of the targets of a client, and sorting.
use singbox_operator.Base.{
  String, false, ◌||◌, List, [], ◌∷◌, ◌++◌, sort, place, text_lt, ◌==◌, ◌≡◌, refl, ◌∙◌, inl, inr,
  arith, any-sort, Bool-cases, eq_iff,
}
use singbox_operator.ApiServer.Targets.{OutboundRef, is_seen}

-- No two targets have the same name.
abbrev pub Apart : List OutboundRef → Type 0
Apart [] = Unit
Apart (r ∷ rs) = (is_seen rs r.name ≡ false) × Apart rs

is_seen-append :
    (xs ys : List OutboundRef) (k : String) → is_seen (xs ++ ys) k ≡ (is_seen xs k || is_seen ys k)
is_seen-append [] ys k = refl
is_seen-append (x ∷ xs) ys k = ground (arith, is_seen-append xs ys k)

pub Apart-append :
    (xs : List OutboundRef) (r : OutboundRef)
    → Apart xs
    → is_seen xs r.name ≡ false
    → Apart (xs ++ r ∷ [])
Apart-append [] r d h = (refl, tt)
Apart-append (x ∷ xs) r d h = ground (
  arith,
  is_seen-append xs (r ∷ []) x.name,
  eq_iff x.name r.name,
  eq_iff r.name x.name,
  Apart-append xs r d.1,
)

is_seen-place :
    (r : OutboundRef) (xs : List OutboundRef) (k : String)
    → is_seen (place (λ a b. text_lt a.name b.name) r xs) k ≡ (r.name == k || is_seen xs k)
is_seen-place r [] k = refl
is_seen-place r (x ∷ xs) k = ground (arith, is_seen-place r xs k)

Apart-place :
    (r : OutboundRef) (xs : List OutboundRef)
    → Apart xs
    → is_seen xs r.name ≡ false
    → Apart (place (λ a b. text_lt a.name b.name) r xs)
Apart-place r [] d h = (refl, tt)
Apart-place r (x ∷ xs) d h = elim (Bool-cases (text_lt x.name r.name)) [
  | inl t ↦ rw t (
      ground (
        arith,
        is_seen-place r xs x.name,
        eq_iff x.name r.name,
        eq_iff r.name x.name,
        Apart-place r xs d.1,
      ))
  | inr f ↦ rw f (h, d)
]

pub Apart-sort : (xs : List OutboundRef) → Apart xs → Apart (sort (λ a b. text_lt a.name b.name) xs)
Apart-sort [] d = tt
Apart-sort (x ∷ xs) (fresh, d) =
    Apart-place x (sort (λ a b. text_lt a.name b.name) xs) (Apart-sort xs d)
      (any-sort (λ a b. text_lt a.name b.name) (λ r. r.name == x.name) xs ∙ fresh)
