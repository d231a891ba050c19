-- ===== src/Types/Arrays/Slices.antt =====
-- Slices of an array.
use srad.Prelude.{ℕ, zero, suc, ◌+◌, ◌-◌, ◌≤◌, ◌≡◌, refl, ap, List, [], ◌∷◌, ◌++◌, length, arith}
use srad.Types.Arrays.{take, drop}

module _ {ℓ} {A : Type ℓ} where
  pub take-append : (n : ℕ) (a b : List A) → length a ≡ n → take n (a ++ b) ≡ a
  take-append zero [] b h = refl
  take-append zero (x ∷ a) b h = absurd (omega (arith, h))
  take-append (suc n) [] b h = absurd (omega (arith, h))
  take-append (suc n) (x ∷ a) b h = ap (◌∷◌ x) (take-append n a b (omega (arith, h)))

  pub drop-append : (n : ℕ) (a b : List A) → length a ≡ n → drop n (a ++ b) ≡ b
  drop-append zero [] b h = refl
  drop-append zero (x ∷ a) b h = absurd (omega (arith, h))
  drop-append (suc n) [] b h = absurd (omega (arith, h))
  drop-append (suc n) (x ∷ a) b h = drop-append n a b (omega (arith, h))

  pub take-length : (n : ℕ) (xs : List A) → length xs ≤ n → take n xs ≡ xs
  take-length zero [] l = refl
  take-length (suc n) [] l = refl
  take-length zero (x ∷ xs) l = absurd (omega (arith, l))
  take-length (suc n) (x ∷ xs) l = ap (◌∷◌ x) (take-length n xs (omega (arith, l)))

  pub length-take : (n : ℕ) (xs : List A) → n ≤ length xs → length (take n xs) ≡ n
  length-take zero xs l = refl
  length-take (suc n) [] l = absurd (omega (arith, l))
  length-take (suc n) (x ∷ xs) l = ap suc (length-take n xs (omega (arith, l)))

  pub length-drop : (n : ℕ) (xs : List A) → length (drop n xs) ≡ length xs - n
  length-drop zero xs = omega arith
  length-drop (suc n) [] = omega arith
  length-drop (suc n) (x ∷ xs) = omega (arith, length-drop n xs)

  pub take-drop : (n : ℕ) (xs : List A) → take n xs ++ drop n xs ≡ xs
  take-drop zero xs = refl
  take-drop (suc n) [] = refl
  take-drop (suc n) (x ∷ xs) = ap (◌∷◌ x) (take-drop n xs)

  -- Two slices that are next to each other.
  pub take-take :
      (n m k : ℕ) (xs : List A) → k ≡ n + m → take n xs ++ take m (drop n xs) ≡ take k xs
  take-take zero m k xs e = let e' : m ≡ k = omega (arith, e) in ap (λ i. take i xs) e'
  take-take (suc n) m zero xs e = absurd (omega (arith, e))
  take-take (suc n) zero (suc k) [] e = refl
  take-take (suc n) (suc m) (suc k) [] e = refl
  take-take (suc n) m (suc k) (x ∷ xs) e = ap (◌∷◌ x) (take-take n m k xs (omega (arith, e)))
