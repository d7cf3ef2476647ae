-- ===== src/Base/Sums.antt =====
-- Sums of a measure over a list.
use mathlib.Core.Path.{◌≡◌}
use mathlib.Core.List.{List, [], ◌∷◌, ◌++◌}
use openmatch.Base.Int.{ℤ, pos, ◌+ℤ◌, ◌≤ℤ◌, int_laws, parts}
use openmatch.Base.Lists.{All}

abbrev pub sum_of {ℓ} : {A : Type ℓ} → (A → ℤ) → List A → ℤ
sum_of f [] = pos 0
sum_of f (x ∷ xs) = f x +ℤ sum_of f xs

pub sum_of-append {ℓ} :
    {A : Type ℓ} (f : A → ℤ) (xs ys : List A) → sum_of f (xs ++ ys) ≡ sum_of f xs +ℤ sum_of f ys
sum_of-append f [] ys = omega int_laws
sum_of-append f (x ∷ xs) ys = omega (int_laws, parts (sum_of-append f xs ys))

pub sum_of-nonneg {ℓ} :
    {A : Type ℓ} (f : A → ℤ) (xs : List A) → All (λ x. pos 0 ≤ℤ f x) xs → pos 0 ≤ℤ sum_of f xs
sum_of-nonneg f [] h = omega int_laws
sum_of-nonneg f (x ∷ xs) (here, later) = omega (int_laws, sum_of-nonneg f xs later)

-- What a change of one item does to the sum.
pub sum_of-change {ℓ} :
    {A : Type ℓ} (f : A → ℤ) (xs ys : List A) (x y : A) (a : ℤ)
    → f y +ℤ a ≤ℤ f x
    → sum_of f (xs ++ y ∷ ys) +ℤ a ≤ℤ sum_of f (xs ++ x ∷ ys)
sum_of-change f xs ys x y a h =
    omega (int_laws, parts (sum_of-append f xs (x ∷ ys)), parts (sum_of-append f xs (y ∷ ys)))
