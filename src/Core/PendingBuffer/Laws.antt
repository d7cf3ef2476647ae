-- ===== src/Core/PendingBuffer/Laws.antt =====
-- The order and the hash of a sealed buffer (crates/openmatch-core/src/pending_buffer.rs).
use openmatch.Base.{
  ℕ, suc, ◌+◌, ◌%◌, ◌^◌, ◌≤◌, ◌<◌, ◌≡◌, ◌≢◌, ◌⊎◌, refl, List, [], ◌∷◌, ◌++◌, some, Bool, true,
  false, All, All-imp, All-append, length, length-append, leb, if◌then◌else◌, arith, inl, inr,
}
use mathlib.Core.List.{Permᴰ}
use openmatch.Decimal.{Decimal}
use openmatch.Sort.Laws.{IsOrder, IsSorted, AllDiffer, sort_by_unique, sort_by-IsSorted}
use openmatch.Types.{EpochId, Order, OrderSide, max_orders_per_batch}
use openmatch.Core.PendingBuffer.{PendingBuffer, new_buffer, push, seal, comes_before, on_sides}

module _ {D : Type 0} ⦃d : Decimal D⦄ where
  on_sides-asym :
      (s t : OrderSide) (a b : Order D) → on_sides s t a b ≡ true → on_sides t s b a ≡ false
  on_sides-asym OrderSide.buy OrderSide.buy a b h = ground arith
  on_sides-asym OrderSide.buy OrderSide.sell a b h = refl
  on_sides-asym OrderSide.sell OrderSide.buy a b h = cc
  on_sides-asym OrderSide.sell OrderSide.sell a b h = ground arith

  on_sides_co_trans :
      (s t u : OrderSide) (a b c : Order D)
      → on_sides s t a b ≡ false
      → on_sides t u b c ≡ false
      → on_sides s u a c ≡ false
  on_sides_co_trans OrderSide.buy OrderSide.buy OrderSide.buy a b c h k = ground arith
  on_sides_co_trans OrderSide.buy OrderSide.buy OrderSide.sell a b c h k = cc
  on_sides_co_trans OrderSide.buy OrderSide.sell u a b c h k = cc
  on_sides_co_trans OrderSide.sell t OrderSide.buy a b c h k = refl
  on_sides_co_trans OrderSide.sell OrderSide.buy OrderSide.sell a b c h k = cc
  on_sides_co_trans OrderSide.sell OrderSide.sell OrderSide.sell a b c h k = ground arith

  comes_before-IsOrder : IsOrder (comes_before {D = D})
  comes_before-IsOrder = record {
    asym = λ a b h. on_sides-asym a.side b.side a b h;
    co_trans = λ a b c h k. on_sides_co_trans a.side b.side c.side a b c h k;
  }

  -- Two orders of different sequences come one before the other.
  differ_on_sides :
      (s t : OrderSide) (a b : Order D)
      → a.sequence ≢ b.sequence
      → (on_sides s t a b ≡ true) ⊎ (on_sides t s b a ≡ true)
  differ_on_sides OrderSide.buy OrderSide.buy a b h = ground arith
  differ_on_sides OrderSide.buy OrderSide.sell a b h = inl refl
  differ_on_sides OrderSide.sell OrderSide.buy a b h = inr refl
  differ_on_sides OrderSide.sell OrderSide.sell a b h = ground arith

  -- All orders have different sequences.
  abbrev HaveOwnSequences : List (Order D) → Type 0
  HaveOwnSequences [] = Unit
  HaveOwnSequences (o ∷ os) = All (λ x. o.sequence ≢ x.sequence) os × HaveOwnSequences os

  own_sequences-AllDiffer : (os : List (Order D)) → HaveOwnSequences os → AllDiffer comes_before os
  own_sequences-AllDiffer [] h = tt
  own_sequences-AllDiffer (o ∷ os) (here, later) = (
    All-imp (λ (x : Order D) ne. differ_on_sides o.side x.side o x ne) os here,
    own_sequences-AllDiffer os later,
  )

  -- Two buffers of one batch, neither sealed, whose orders are the same in whatever order, each with a
  -- sequence of its own, are sealed with the same hash, and then hold the same list of orders, in
  -- which no order comes before an earlier one: buys first, the higher price first among buys and the
  -- lower among sells, and the lower sequence first at one price.
  pub seal_same :
      (sha256 : List ℕ → List ℕ) (a b : PendingBuffer D)
      → a.sealed ≡ false
      → b.sealed ≡ false
      → a.batch_id ≡ b.batch_id
      → HaveOwnSequences a.orders
      → Permᴰ a.orders b.orders
      → ((seal sha256 a).0 ≡ (seal sha256 b).0)
        × ((seal sha256 a).1.orders ≡ (seal sha256 b).1.orders)
        × IsSorted comes_before (seal sha256 a).1.orders
  unfolding seal
  seal_same sha256 a b fresh_a fresh_b same own p =
      let sorted =
        sort_by_unique comes_before comes_before-IsOrder p (own_sequences-AllDiffer a.orders own) in
      rw (seal, fresh_a, fresh_b)
        (
          rw (same, sorted) refl,
          sorted,
          sort_by-IsSorted comes_before comes_before-IsOrder a.orders,
        )

  -- The counter is the number of orders, and every order has its own sequence below it.
  pub record InSequence (b : PendingBuffer D) : Type 0 where
    pub counted : b.sequence_counter ≡ length b.orders
    pub few : length b.orders ≤ max_orders_per_batch
    pub below : All (λ o. o.sequence < b.sequence_counter) b.orders
    pub own : HaveOwnSequences b.orders

  new_buffer-InSequence : (batch_id : EpochId) → InSequence (new_buffer batch_id)
  new_buffer-InSequence batch_id = record {
    counted = refl;
    few = omega arith;
    below = tt;
    own = tt;
  }

  append_own :
      (o : Order D) (os : List (Order D)) (n : ℕ)
      → All (λ x. x.sequence < n) os
      → o.sequence ≡ n
      → HaveOwnSequences os
      → HaveOwnSequences (os ++ o ∷ [])
  append_own o [] n below e own = (tt, tt)
  append_own o (x ∷ os) n (here, later) e (differ, own) = (
    All-append (λ (y : Order D). x.sequence ≢ y.sequence) os (o ∷ []) differ (ground arith, tt),
    append_own o os n later e own,
  )

  if_keeps :
      {A : Type 0} (c : Bool) (x y : A × PendingBuffer D)
      → InSequence x.1
      → (c ≡ false → InSequence y.1)
      → InSequence (if c then x else y).1
  if_keeps true x y h k = h
  if_keeps false x y h k = k refl

  -- Pushing an order keeps the sequences of a buffer in step, accepted or not: the counter is the
  -- number of orders, at most the greatest batch, so it does not wrap; every order has a sequence
  -- of its own below it.
  push-InSequence : (o : Order D) (b : PendingBuffer D) → InSequence b → InSequence (push o b).1
  unfolding push
  push-InSequence o b v = if_keeps b.sealed _ _ v λ unsealed.
      if_keeps (leb max_orders_per_batch (length b.orders)) _ _ v λ room.
        (let next : (b.sequence_counter + 1) % 2 ^ 64 ≡ suc b.sequence_counter =
            ground (arith, v.counted) in
          let placed : Order D = record o {
            sequence = b.sequence_counter;
            epoch_id = some b.batch_id;
          } in
          record {
            counted = omega (arith, next, v.counted, length-append b.orders (placed ∷ []));
            few = ground (arith, length-append b.orders (placed ∷ []));
            below =
                All-append (λ (x : Order D). x.sequence < (b.sequence_counter + 1) % 2 ^ 64)
                  b.orders (placed ∷ [])
                  (All-imp (λ (x : Order D) h. omega (arith, next)) b.orders v.below)
                  (omega (arith, next), tt);
            own = append_own placed b.orders b.sequence_counter v.below refl v.own;
          })
