-- ===== src/Base/Sets.antt =====
-- `std::collections::HashSet` of numbers, as a list without repetition.
use Prim.Native.Nat.{ℕ, suc}
use mathlib.Core.Path.{◌≡◌, refl}
use mathlib.Core.Logic.{◌↔◌}
use mathlib.Core.Bool.{Bool, true, false, ◌||◌, ◌&&◌}
use mathlib.Core.List.{List, [], ◌∷◌, ◌++◌}
use native.Mathlib.Omega.{arith}
use openmatch.Base.Tests.{◌==◌, if◌then◌else◌}
use openmatch.Base.Lists.{length}
use openmatch.Base.Keys.{Eq}

abbrev pub contains : ℕ → List ℕ → Bool
contains a [] = false
contains a (x ∷ xs) = x == a || contains a xs

abbrev pub set_insert : ℕ → List ℕ → List ℕ
set_insert a xs = if contains a xs then xs else a ∷ xs

abbrev pub set_remove : ℕ → List ℕ → List ℕ
set_remove a [] = []
set_remove a (x ∷ xs) = let rest = set_remove a xs in if x == a then rest else x ∷ rest

abbrev pub HasNoRepeats : List ℕ → Type 0
HasNoRepeats [] = Unit
HasNoRepeats (x ∷ xs) = (contains x xs ≡ false) × HasNoRepeats xs

pub contains-append :
    (a : ℕ) (xs ys : List ℕ) → contains a (xs ++ ys) ≡ (contains a xs || contains a ys)
contains-append a [] ys = refl
contains-append a (x ∷ xs) ys = ground (arith, contains-append a xs ys)

pub contains-set_remove :
    (a b : ℕ) (xs : List ℕ)
    → contains b (set_remove a xs) ≡ (if a == b then false else contains b xs)
contains-set_remove a b [] = ground arith
contains-set_remove a b (x ∷ xs) = ground (arith, contains-set_remove a b xs)

set_remove-absent : (a : ℕ) (xs : List ℕ) → contains a xs ≡ false → set_remove a xs ≡ xs
set_remove-absent a [] h = refl
set_remove-absent a (x ∷ xs) h = ground (arith, set_remove-absent a xs)

pub set_remove-HasNoRepeats :
    (a : ℕ) (xs : List ℕ) → HasNoRepeats xs → HasNoRepeats (set_remove a xs)
set_remove-HasNoRepeats a [] h = tt
set_remove-HasNoRepeats a (x ∷ xs) h =
    ground (arith, set_remove-HasNoRepeats a xs h.1, contains-set_remove a x xs)

pub length-set_remove :
    (a : ℕ) (xs : List ℕ)
    → HasNoRepeats xs
    → contains a xs ≡ true
    → suc (length (set_remove a xs)) ≡ length xs
length-set_remove a [] h c = cc
length-set_remove a (x ∷ xs) h c =
    ground (arith, length-set_remove a xs h.1, set_remove-absent a xs)

pub HasNoRepeats-append_one :
    (a : ℕ) (xs : List ℕ) → HasNoRepeats xs → contains a xs ≡ false → HasNoRepeats (xs ++ a ∷ [])
HasNoRepeats-append_one a [] h c = (refl, tt)
HasNoRepeats-append_one a (x ∷ xs) h c =
    ground (arith, HasNoRepeats-append_one a xs h.1, contains-append x xs (a ∷ []))

-- Equality of byte strings.
abbrev pub bytes_eq : List ℕ → List ℕ → Bool
bytes_eq [] [] = true
bytes_eq [] (y ∷ ys) = false
bytes_eq (x ∷ xs) [] = false
bytes_eq (x ∷ xs) (y ∷ ys) = x == y && bytes_eq xs ys

pub bytes_eq_refl : (xs : List ℕ) → bytes_eq xs xs ≡ true
bytes_eq_refl [] = refl
bytes_eq_refl (x ∷ xs) = ground (arith, bytes_eq_refl xs)

eq_of_bytes_eq : (xs ys : List ℕ) → bytes_eq xs ys ≡ true → xs ≡ ys
eq_of_bytes_eq [] [] h = refl
eq_of_bytes_eq [] (y ∷ ys) h = cc
eq_of_bytes_eq (x ∷ xs) [] h = cc
eq_of_bytes_eq (x ∷ xs) (y ∷ ys) h = ground (arith, eq_of_bytes_eq xs ys)

pub bytes_eq_iff : (xs ys : List ℕ) → (bytes_eq xs ys ≡ true) ↔ (xs ≡ ys)
bytes_eq_iff xs ys = (eq_of_bytes_eq xs ys, λ h. rw h (bytes_eq_refl ys))

instance abbrev pub bytes_key_eq : Eq (List ℕ)
bytes_key_eq = record { beq = bytes_eq; beq_iff = bytes_eq_iff }
