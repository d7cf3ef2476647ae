-- ===== src/MatchCore/OrderBook/Fresh.antt =====
-- The levels of crates/openmatch-matchcore/src/orderbook.rs that have no order of an id.
use openmatch.Base.{
  ◌≡◌, refl, sym, List, [], ◌∷◌, Option, none, some, Bool, false, All, All-append, arith,
  Bool-cases, inl, inr, nat_eq, ◌==◌,
}
use openmatch.Types.{Order, OrderId}
use openmatch.MatchCore.PriceLevel.{PriceLevel, new_level, push_back, is_empty}
use openmatch.MatchCore.OrderBook.{Levels, level_at, put_level, push_at}

module _ {D : Type 0} where
  -- No order of the id.
  abbrev pub IsFresh : OrderId → List (Order D) → Type 0
  IsFresh i os = All (λ o. (o.id == i) ≡ false) os

  -- No order of the id in the levels, and no level without an order.
  abbrev pub HasNo : OrderId → Levels D → Type 0
  HasNo i [] = Unit
  HasNo i ((p, l) ∷ m) = (IsFresh i l.orders × (is_empty l ≡ false)) × HasNo i m

module _ {D : Type 0} (before : D → D → Bool) where
  pub level_at-HasNo :
      (i : OrderId) (p : D) (l : PriceLevel D) (m : Levels D)
      → HasNo i m
      → level_at before p m ≡ some l
      → IsFresh i l.orders × (is_empty l ≡ false)
  unfolding level_at
  level_at-HasNo i p l [] h e = cc
  level_at-HasNo i p l ((q, k) ∷ m) (here, later) e = elim (Bool-cases (before q p)) [
    | inl on ↦ level_at-HasNo i p l m later (rw on at e)
    | inr not_after ↦ elim (Bool-cases (before p q)) [
      | inl gone ↦ absurd (ground arith)
      | inr not_before ↦
          let same : some k ≡ some l = rw (not_after, not_before) at e in
          let kl : k ≡ l = cc same in rw (sym kl) here
    ]
  ]

  put_level-HasNo :
      (i : OrderId) (p : D) (l : PriceLevel D) (m : Levels D)
      → IsFresh i l.orders × (is_empty l ≡ false)
      → HasNo i m
      → HasNo i (put_level before p l m)
  unfolding put_level
  put_level-HasNo i p l [] k h = (k, tt)
  put_level-HasNo i p l ((q, j) ∷ m) k (here, later) = elim (Bool-cases (before q p)) [
    | inl on ↦ rw on (here, put_level-HasNo i p l m k later)
    | inr not_after ↦ elim (Bool-cases (before p q)) [
      | inl first ↦ rw (not_after, first) (k, (here, later))
      | inr tied ↦ rw (not_after, tied) (k, later)
    ]
  ]

  push_back-HasNo :
      (i : OrderId) (o : Order D) (l : PriceLevel D)
      → (o.id == i) ≡ false
      → IsFresh i l.orders
      → IsFresh i (push_back o l).orders × (is_empty (push_back o l) ≡ false)
  push_back-HasNo i o l other fresh = (
    All-append (λ (x : Order D). (x.id == i) ≡ false) l.orders (o ∷ []) fresh (other, tt),
    full l.orders,
  )
    where
      full : (os : List (Order D)) → is_empty (push_back o (record l { orders = os })) ≡ false
      full [] = refl
      full (x ∷ os) = refl

  pub push_at-HasNo :
      (i : OrderId) (p : D) (o : Order D) (m : Levels D)
      → (o.id == i) ≡ false
      → HasNo i m
      → HasNo i (push_at before p o m)
  unfolding push_at
  push_at-HasNo i p o m other h = go (level_at before p m) refl
    where
      go :
          (found : Option (PriceLevel D))
          → level_at before p m ≡ found
          → HasNo i (elim found [
            | none ↦ put_level before p (push_back o (new_level p)) m
            | some l ↦ put_level before p (push_back o l) m
          ])
      go none e =
          put_level-HasNo i p (push_back o (new_level p)) m
            (push_back-HasNo i o (new_level p) other tt) h
      go (some l) e =
          put_level-HasNo i p (push_back o l) m
            (push_back-HasNo i o l other (level_at-HasNo i p l m h e).0) h
