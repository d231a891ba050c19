-- ===== src/Prelude/Sets.antt =====
-- A `HashSet` as a list, in which an element is only looked for.
use mathlib.Core.Path.{◌≡◌}
use mathlib.Core.Bool.{Bool, true, false, ◌||◌}
use mathlib.Core.List.{List, [], ◌∷◌, ◌++◌}
use native.Mathlib.Omega.{arith}
use srad.Prelude.Maps.{Eq}

module _ {ℓ} {A : Type ℓ} ⦃e : Eq A⦄ where
  unfoldable pub contains : A → List A → Bool
  contains a [] = false
  contains a (x ∷ xs) = e.beq x a || contains a xs

  -- No element occurs twice.
  abbrev pub Unique : List A → Type 0
  Unique [] = Unit
  Unique (x ∷ xs) = (contains x xs ≡ false) × Unique xs

  -- `HashSet::remove`
  unfoldable pub remove : A → List A → List A
  remove a [] = []
  remove a (x ∷ xs) = let rest = remove a xs in elim (e.beq x a) [ true ↦ rest | false ↦ x ∷ rest ]

  pub contains-append :
      (a b : A) (xs : List A) → contains a (xs ++ b ∷ []) ≡ (contains a xs || e.beq b a)
  unfolding contains
  contains-append a b [] = ground arith
  contains-append a b (x ∷ xs) = ground (arith, contains-append a b xs)

  pub Unique-append :
      (b : A) (xs : List A) → contains b xs ≡ false → Unique xs → Unique (xs ++ b ∷ [])
  unfolding contains
  Unique-append b [] c u = (c, tt)
  Unique-append b (x ∷ xs) c u = (
    ground (arith, contains-append x b xs, e.beq_iff b x, e.beq_iff x b, c, u.0),
    Unique-append b xs (ground (arith, c)) u.1,
  )
