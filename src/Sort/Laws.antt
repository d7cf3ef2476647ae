-- ===== src/Sort/Laws.antt =====
-- A sort returns the same items in order, and does not depend on the order of its input where no two
-- items tie.
use openmatch.Base.{
  ◌≡◌, refl, ◌∙◌, ap, List, [], ◌∷◌, ◌⊎◌, inl, inr, Bool, true, false, All, All-imp, arith,
  Bool-cases, subst,
}
use mathlib.Core.List.{Permᴰ}
use mathlib.Core.List.Permᴰ
use openmatch.Sort.{insert_sorted, sort_by}

module _ {A : Type 0} (before : A → A → Bool) where
  -- No later item comes strictly before an earlier one.
  abbrev pub IsSorted : List A → Type 0
  IsSorted [] = Unit
  IsSorted (x ∷ xs) = All (λ y. before y x ≡ false) xs × IsSorted xs

  -- A strict order in which only one of two items comes before the other.
  pub record IsOrder : Type 0 where
    pub asym : (x y : A) → before x y ≡ true → before y x ≡ false
    pub co_trans : (x y z : A) → before x y ≡ false → before y z ≡ false → before x z ≡ false

  insert_sorted-perm : (x : A) (xs : List A) → Permᴰ (insert_sorted before x xs) (x ∷ xs)
  insert_sorted-perm x [] = Permᴰ.cons refl Permᴰ.nil
  insert_sorted-perm x (y ∷ ys) = elim (Bool-cases (before y x)) [
    | inl up ↦
        rw up (Permᴰ.trans (Permᴰ.cons refl (insert_sorted-perm x ys)) (Permᴰ.swap refl refl))
    | inr stay ↦ rw stay (Permᴰ.refl (x ∷ y ∷ ys))
  ]

  pub sort_by-perm : (xs : List A) → Permᴰ (sort_by before xs) xs
  unfolding sort_by
  sort_by-perm [] = Permᴰ.nil
  sort_by-perm (x ∷ xs) =
      Permᴰ.trans (insert_sorted-perm x (sort_by before xs)) (Permᴰ.cons refl (sort_by-perm xs))

  All-insert_sorted :
      (P : A → Type 0) (x : A) (xs : List A) → P x → All P xs → All P (insert_sorted before x xs)
  All-insert_sorted P x [] p h = (p, tt)
  All-insert_sorted P x (y ∷ ys) p h = elim (Bool-cases (before y x)) [
    | inl up ↦ rw up (h.0, All-insert_sorted P x ys p h.1)
    | inr stay ↦ rw stay (p, h)
  ]

  insert_sorted-IsSorted :
      IsOrder → (x : A) (xs : List A) → IsSorted xs → IsSorted (insert_sorted before x xs)
  insert_sorted-IsSorted o x [] s = (tt, tt)
  insert_sorted-IsSorted o x (y ∷ ys) s = elim (Bool-cases (before y x)) [
    | inl up ↦ rw up (
      All-insert_sorted (λ z. before z y ≡ false) x ys (o.asym y x up) s.0,
      insert_sorted-IsSorted o x ys s.1,
    )
    | inr stay ↦ rw stay ((stay, All-imp (λ z h. o.co_trans z y x h stay) ys s.0), s)
  ]

  pub sort_by-IsSorted : IsOrder → (xs : List A) → IsSorted (sort_by before xs)
  unfolding sort_by
  sort_by-IsSorted o [] = tt
  sort_by-IsSorted o (x ∷ xs) =
      insert_sorted-IsSorted o x (sort_by before xs) (sort_by-IsSorted o xs)

  -- Two items of which one comes strictly before the other.
  abbrev Differ : A → A → Type 0
  Differ x y = (before x y ≡ true) ⊎ (before y x ≡ true)

  abbrev pub AllDiffer : List A → Type 0
  AllDiffer [] = Unit
  AllDiffer (x ∷ xs) = All (Differ x) xs × AllDiffer xs

  All-perm : (P : A → Type 0) {xs ys : List A} → Permᴰ xs ys → All P xs → All P ys
  All-perm P Permᴰ.nil h = tt
  All-perm P (Permᴰ.cons e p) h = (subst P e h.0, All-perm P p h.1)
  All-perm P (Permᴰ.swap e f) h = (subst P f h.1.0, (subst P e h.0, h.1.1))
  All-perm P (Permᴰ.trans p q) h = All-perm P q (All-perm P p h)

  Differ-sym : (x y : A) → Differ x y → Differ y x
  Differ-sym x y (inl h) = inr h
  Differ-sym x y (inr h) = inl h

  AllDiffer-perm : {xs ys : List A} → Permᴰ xs ys → AllDiffer xs → AllDiffer ys
  AllDiffer-perm Permᴰ.nil h = tt
  AllDiffer-perm (Permᴰ.cons {a = a} {l₂ = ys} e p) h =
      (subst (λ c. All (Differ c) ys) e (All-perm (Differ a) p h.0), AllDiffer-perm p h.1)
  AllDiffer-perm (Permᴰ.swap {a = a} {b = b} {a' = c} {l = l} e f) h = (
    (
      subst (λ x. Differ c x) e (subst (λ x. Differ x a) f (Differ-sym a b h.0.0)),
      subst (λ x. All (Differ x) l) f h.1.0,
    ),
    (subst (λ x. All (Differ x) l) e h.0.1, h.1.1),
  )
  AllDiffer-perm (Permᴰ.trans p q) h = AllDiffer-perm q (AllDiffer-perm p h)

  -- Two items that do not tie go to the same places in either order.
  insert_sorted_comm :
      IsOrder
      → (x y : A) → Differ x y
      → (l : List A)
      → insert_sorted before x (insert_sorted before y l)
        ≡ insert_sorted before y (insert_sorted before x l)
  insert_sorted_comm o x y d [] = ground (arith, o.asym x y, o.asym y x)
  insert_sorted_comm o x y d (z ∷ l) = ground (
    arith,
    o.asym x y,
    o.asym y x,
    insert_sorted_comm o x y d l,
    o.co_trans x z y,
    o.co_trans y z x,
    o.co_trans z x y,
    o.co_trans z y x,
    o.asym x z,
    o.asym y z,
  )

  -- The result of a sort does not depend on the order of its input, if no two items tie.
  pub sort_by_unique :
      IsOrder
      → {xs ys : List A} → Permᴰ xs ys
      → AllDiffer xs
      → sort_by before xs ≡ sort_by before ys
  unfolding sort_by
  sort_by_unique o Permᴰ.nil h = refl
  sort_by_unique o (Permᴰ.cons {a = a} {l₂ = ys} e p) h =
      ap (insert_sorted before a) (sort_by_unique o p h.1)
      ∙ ap (λ x. insert_sorted before x (sort_by before ys)) e
  sort_by_unique o (Permᴰ.swap {a = a} {b = b} {a' = c} {l = l} e f) h =
      insert_sorted_comm o a b h.0.0 (sort_by before l)
      ∙ ap (λ x. insert_sorted before x (insert_sorted before a (sort_by before l))) f
      ∙ ap (λ x. insert_sorted before c (insert_sorted before x (sort_by before l))) e
  sort_by_unique o (Permᴰ.trans p q) h =
      sort_by_unique o p h ∙ sort_by_unique o q (AllDiffer-perm p h)

module _ {A : Type 0} (before : A → A → Bool) (P : A → Type 0) where
  insert_sorted-All : (x : A) (xs : List A) → P x → All P xs → All P (insert_sorted before x xs)
  insert_sorted-All x [] h hs = (h, tt)
  insert_sorted-All x (y ∷ ys) h (here, later) = elim (Bool-cases (before y x)) [
    | inl on ↦ rw on (here, insert_sorted-All x ys h later)
    | inr stop ↦ rw stop (h, (here, later))
  ]

  pub sort_by-All : (xs : List A) → All P xs → All P (sort_by before xs)
  unfolding sort_by
  sort_by-All [] h = tt
  sort_by-All (x ∷ xs) (here, later) =
      insert_sorted-All x (sort_by before xs) here (sort_by-All xs later)
