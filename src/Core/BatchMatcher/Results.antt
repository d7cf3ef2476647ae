-- ===== src/Core/BatchMatcher/Results.antt =====
-- What matching a sealed buffer returns (crates/openmatch-core/src/batch_matcher.rs).
use openmatch.Base.{
  Returns, Returns-bind, ℕ, ◌≡◌, refl, sym, List, [], ◌∷◌, ◌++◌, Option, none, some, Result, ok,
  err, true, false, All, All-imp, Exists, inl, inr, arith, nat_eq, Bool-cases, ◌==◌, pos, ◌≤ℤ◌,
  ◌<ℤ◌, int_laws, parts,
}
use openmatch.Decimal.{Decimal}
use openmatch.Sort.{sort_by}
use openmatch.Sort.Laws.{sort_by-All}
use openmatch.Types.{Order, OrderId, EpochId, OpenmatchError}
use openmatch.Pairing.{Fills, start_fills}
use openmatch.Pairing.Steps.{Reaches, standing}
use openmatch.Pairing.Sound.{Reaches-AreSound}
use openmatch.Base.{sum_of}
use openmatch.Pairing.Volume.{left_for, taken_by, made_by, IsOfFill, Reaches-volume, Reaches-Filled}
use openmatch.Core.PendingBuffer.{PendingBuffer, take_orders, buy_before, sell_before}
use openmatch.Core.Clearing.{ClearingResult, compute_clearing_price}
use openmatch.Core.Clearing.Sums.{NoneNegative}
use openmatch.Core.BatchMatcher.{
  BatchMatcher, BatchResult, Round, trade_of, fill_buys, live_buys, live_sells, batch_result,
  run_round, match_orders, match_batch,
}
use openmatch.Core.BatchMatcher.Steps.{May, fill_buys-Returns}
use openmatch.Core.BatchMatcher.Legal.{
  IsFrom, IsLegal, trade_of-Makes, live-IsFrom, live-All, sum_of-sort_by,
}

module _ {D : Type 0} ⦃d : Decimal D⦄ where
  trade_of-IsOfFill : (r : Round D) → IsOfFill (trade_of r)
  trade_of-IsOfFill r = record {
    of_bid = λ n bid ask. refl;
    of_ask = λ n bid ask. refl;
    for_quantity = λ n bid ask. refl;
  }

  left_for-nonneg :
      (i : OrderId) (os : List (Order D)) → NoneNegative os → pos 0 ≤ℤ sum_of (left_for i) os
  left_for-nonneg i [] h = omega arith
  left_for-nonneg i (o ∷ os) (here, later) = elim (Bool-cases (o.id == i)) [
    | inl own ↦ rw own (omega (int_laws, left_for-nonneg i os later, here))
    | inr other ↦ rw other (omega (int_laws, left_for-nonneg i os later))
  ]

  -- The result of a batch: legal trades of positive quantities, by which no order of either side
  -- trades more than it has left.
  pub record IsRight (orders : List (Order D)) (r : BatchResult D) : Type 0 where
    pub legal : All (IsLegal orders r.batch_id r.clearing_price) r.trades
    pub positive : All (λ t. pos 0 <ℤ d.units t.quantity) r.trades
    pub bought :
        (i : OrderId) → sum_of (taken_by i) r.trades ≤ℤ sum_of (left_for i) (live_buys orders)
    pub sold :
        (i : OrderId) → sum_of (made_by i) r.trades ≤ℤ sum_of (left_for i) (live_sells orders)

  -- The buys and the sells, in the order in which they are walked.
  abbrev buys_of : List (Order D) → List (Order D)
  buys_of orders = sort_by buy_before (live_buys orders)

  abbrev sells_of : List (Order D) → List (Order D)
  sells_of orders = sort_by sell_before (live_sells orders)

module _ {D : Type 0} ⦃d : Decimal D⦄ (orders : List (Order D)) (nonneg : NoneNegative orders)
    (batch_id : EpochId) (sha256 : List ℕ → List ℕ) (input_hash : List ℕ) where
  walked-IsRight :
      (r : Round D) (q : List (Order D) × Fills D)
      → r.batch_id ≡ batch_id
      → Reaches
          (trade_of r)
          (May r)
          (standing (buys_of orders) (start_fills (sells_of orders)))
          (standing q.0 q.1)
      → IsRight orders (batch_result sha256 batch_id input_hash (some r.price) q.0 q.1)
  unfolding batch_result
  walked-IsRight r (bids, f) same k =
      let given = live-IsFrom orders orders (all_given orders) in
      let live = live-All (λ (o : Order D). pos 0 ≤ℤ d.units o.remaining_qty) orders nonneg in
      let buys = sort_by-All buy_before (IsFrom orders true) (live_buys orders) given.0 in
      let sells = sort_by-All sell_before (IsFrom orders false) (live_sells orders) given.1 in
      let sound =
        Reaches-AreSound (trade_of r) (May r) (IsFrom orders true) (IsFrom orders false)
          (IsLegal orders r.batch_id (some r.price)) (trade_of-Makes orders r) k
          (buys, sells, tt) in
      let (bids_left, asks_left, positive) = Reaches-Filled (trade_of-IsOfFill r) k (
        sort_by-All buy_before (λ (o : Order D). pos 0 ≤ℤ d.units o.remaining_qty)
            (live_buys orders) live.0,
        sort_by-All sell_before (λ (o : Order D). pos 0 ≤ℤ d.units o.remaining_qty)
            (live_sells orders) live.1,
        tt,
      ) in
      record {
        legal = rw (sym same) sound.2;
        positive = positive;
        bought = λ i. omega (
          int_laws,
          parts (Reaches-volume i (trade_of-IsOfFill r) k).0,
          left_for-nonneg i bids bids_left,
          parts (sum_of-sort_by (left_for i) buy_before (live_buys orders)),
        );
        sold = λ i. omega (
          int_laws,
          parts (Reaches-volume i (trade_of-IsOfFill r) k).1,
          left_for-nonneg i (f.passed ++ f.rest) asks_left,
          parts (sum_of-sort_by (left_for i) sell_before (live_sells orders)),
        );
      }
    where
      all_given : (os : List (Order D)) → All (λ o. Exists (λ x. x ≡ o) os) os
      all_given [] = tt
      all_given (o ∷ os) = (inl refl, All-imp (λ (x : Order D) h. inr h) os (all_given os))

  run_round-IsRight :
      (clock : ℕ → ℕ) (node_id : List ℕ) (c : Option (ClearingResult D))
      → Returns
          (λ r. IsRight orders r × (r.batch_id ≡ batch_id) × (r.input_hash ≡ input_hash))
          (run_round sha256 clock node_id batch_id input_hash (buys_of orders) (sells_of orders) c)
  unfolding run_round batch_result
  run_round-IsRight clock node_id none =
      let live = live-All (λ (o : Order D). pos 0 ≤ℤ d.units o.remaining_qty) orders nonneg in
      (
        record {
          legal = tt;
          positive = tt;
          bought = λ i. left_for-nonneg i (live_buys orders) live.0;
          sold = λ i. left_for-nonneg i (live_sells orders) live.1;
        },
        refl,
        refl,
      )
  run_round-IsRight clock node_id (some c) =
      let r : Round D = record {
        batch_id = batch_id;
        price = c.price;
        node_id = node_id;
        sha256 = sha256;
        clock = clock;
      } in
      Returns-bind _ (fill_buys r [] (buys_of orders) (start_fills (sells_of orders)))
        (λ (q : List (Order D) × Fills D).
          some (batch_result sha256 batch_id input_hash (some c.price) q.0 q.1))
        (fill_buys-Returns r [] (buys_of orders) (start_fills (sells_of orders)))
        (λ (q : List (Order D) × Fills D) k. (walked-IsRight r q refl k, refl, refl))

module _ {D : Type 0} ⦃d : Decimal D⦄ where
  -- The result is no error, and satisfies `P`.
  abbrev pub Succeeds :
      (BatchResult D → Type 0) → Result (OpenmatchError D) (BatchResult D) → Type 0
  Succeeds P (ok r) = P r
  Succeeds P (err e) = ⊥

  -- Matching a sealed buffer that has its hash, and no order with a negative quantity left, returns a
  -- result for that batch and hash. Each of its trades is at the clearing price, in the batch's epoch,
  -- for the price times the quantity or the greatest decimal where that product overflows, between two
  -- different users, for the id of a buy of the buffer whose limit is at least the price and the id of
  -- a sell of the buffer whose limit is at most the price, neither of them a cancellation, and of
  -- positive quantity; and the trades of no id, on either side, add up to more than the orders of
  -- that id had left.
  pub match_batch-Returns :
      (sha256 : List ℕ → List ℕ) (clock : ℕ → ℕ) (buffer : PendingBuffer D) (m : BatchMatcher)
      (hash : List ℕ)
      → buffer.sealed ≡ true
      → buffer.batch_hash ≡ some hash
      → NoneNegative buffer.orders
      → Returns
          (Succeeds
            (λ r. IsRight buffer.orders r × (r.batch_id ≡ buffer.batch_id) × (r.input_hash ≡ hash)))
          (match_batch sha256 clock buffer m)
  unfolding match_batch match_orders take_orders
  match_batch-Returns sha256 clock buffer m hash sealed hashed nonneg =
      rw (match_batch, take_orders, sealed, hashed)
        (Returns-bind _ (match_orders sha256 clock m buffer.batch_id buffer.orders hash)
          (λ (r : BatchResult D). some (ok r))
          (run_round-IsRight buffer.orders nonneg buffer.batch_id sha256 hash clock m.node_id
            (compute_clearing_price (buys_of buffer.orders) (sells_of buffer.orders)))
          (λ (r : BatchResult D) h. h))
