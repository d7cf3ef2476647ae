-- ===== src/Ingress/BatchSealer/Laws.antt =====
-- The sealed batch and its hash (crates/openmatch-ingress/src/batch_sealer.rs).
use openmatch.Base.{ℕ, ◌≡◌, refl, List, [], ◌∷◌, ◌++◌, some, length-append, arith}
use mathlib.Core.List.{Permᴰ, append_assoc}
use openmatch.Decimal.{Decimal}
use openmatch.Sort.Laws.{IsOrder, AllDiffer, sort_by_unique}
use openmatch.Types.{EpochId, Order}
use openmatch.Ingress.BatchSealer.{
  BatchSealer, comes_before, order_bytes, orders_bytes, compute_batch_hash, seal,
}

comes_before-IsOrder : (D : Type 0) → IsOrder {A = Order D} comes_before
comes_before-IsOrder D = record {
  asym = λ x y h. ground arith;
  co_trans = λ x y z h k. ground arith;
}

module _ {D : Type 0} ⦃d : Decimal D⦄ (sha256 : List ℕ → List ℕ) (now : ℕ) (e : EpochId)
    (s : BatchSealer) where
  -- Two nodes that hold the same orders in any arrival order seal the same batch, orders and hash, at
  -- one time and for one node id, if no two orders agree in both sequence and id.
  pub seal_unique :
      {os os' : List (Order D)}
      → Permᴰ os os'
      → AllDiffer comes_before os
      → seal sha256 now e os s ≡ seal sha256 now e os' s
  unfolding seal
  seal_unique p differ = rw (sort_by_unique comes_before (comes_before-IsOrder D) p differ)

module _ {D : Type 0} ⦃d : Decimal D⦄ (sha256 : List ℕ → List ℕ) where
  orders_bytes-append :
      (xs ys : List (Order D)) → orders_bytes (xs ++ ys) ≡ orders_bytes xs ++ orders_bytes ys
  orders_bytes-append [] ys = refl
  orders_bytes-append (x ∷ xs) ys = simp (orders_bytes-append xs ys, append_assoc)

  order_bytes_ambiguous :
      (o : Order D) (p q p' q' : D)
      → d.to_bytes p ++ d.to_bytes q ≡ d.to_bytes p' ++ d.to_bytes q'
      → order_bytes (record o { price = some p; quantity = q })
        ≡ order_bytes (record o { price = some p'; quantity = q' })
  unfolding order_bytes
  order_bytes_ambiguous o p q p' q' h = rw h

  -- The batch hash does not fix the price and the quantity of an order: if the texts of `p` and `q`,
  -- one after the other, read the same as those of `p'` and `q'`, a batch in which one order changes
  -- from price `p` and quantity `q` to `p'` and `q'` has the same hash, for every hash function.
  pub batch_hash_ambiguous :
      (e : EpochId) (xs ys : List (Order D)) (o : Order D) (p q p' q' : D)
      → d.to_bytes p ++ d.to_bytes q ≡ d.to_bytes p' ++ d.to_bytes q'
      → compute_batch_hash sha256 e (xs ++ record o { price = some p; quantity = q } ∷ ys)
        ≡ compute_batch_hash sha256 e (xs ++ record o { price = some p'; quantity = q' } ∷ ys)
  unfolding compute_batch_hash
  batch_hash_ambiguous e xs ys o p q p' q' h = rw (
    length-append xs (record o { price = some p; quantity = q } ∷ ys),
    length-append xs (record o { price = some p'; quantity = q' } ∷ ys),
    orders_bytes-append xs (record o { price = some p; quantity = q } ∷ ys),
    orders_bytes-append xs (record o { price = some p'; quantity = q' } ∷ ys),
    order_bytes_ambiguous o p q p' q' h,
  )
