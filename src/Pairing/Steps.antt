-- ===== src/Pairing/Steps.antt =====
-- The inner loop of the matchers (crates/openmatch-matchcore/src/matcher.rs and
-- crates/openmatch-core/src/batch_matcher.rs) and a relation of single fills that specifies it.
use openmatch.Base.{
  Returns, Returns-imp, ℕ, zero, suc, ◌+◌, ◌%◌, ◌^◌, ◌≤◌, ◌<◌, ◌≡◌, ◌≢◌, refl, List, [], ◌∷◌, ◌++◌,
  some, true, false, length, ◌==◌, ◌&&◌, not, Bool, if◌then◌else◌, nat_eq, Bool-cases, ◌⊎◌, inl,
  inr, arith, sym,
}
use mathlib.Core.List.{append_assoc}
use openmatch.Decimal.{Decimal, lt, is_zero, sub_parts, zero_parts, min}
use openmatch.Types.{Order, Trade}
use openmatch.Pairing.{Fills, Making, fill_qty, reduce, put_ask, turn, fill_bid}

-- All the crossing orders, the trades so far and the number of the next.
pub record Standing (D : Type 0) : Type 0 where
  pub bids : List (Order D)
  pub asks : List (Order D)
  pub trades : List (Trade D)
  pub fill_seq : ℕ

module _ {D : Type 0} ⦃d : Decimal D⦄ where
  -- A fill pairs any bid that is left with any ask that is left, if `may` allows it, for the smaller
  -- of the two quantities.
  pub data Reaches (trade : Making D) (may : Order D → Order D → Type 0)
      : Standing D → Standing D → Type 0 where
    stop : (s : Standing D) → Reaches trade may s s
    fill :
        (before : List (Order D)) (bid : Order D) (after pre : List (Order D)) (ask : Order D)
        (post : List (Order D)) (ts : List (Trade D)) (n : ℕ) (s : Standing D)
        → may bid ask
        → lt d.zero bid.remaining_qty ≡ true
        → is_zero ask.remaining_qty ≡ false
        → Reaches trade may
            (record {
              bids = before ++ reduce (fill_qty bid ask) bid ∷ after;
              asks = pre ++ reduce (fill_qty bid ask) ask ∷ post;
              trades = ts ++ trade n bid ask ∷ [];
              fill_seq = (n + 1) % 2 ^ 64;
            })
            s
        → Reaches trade may
            (record {
              bids = before ++ bid ∷ after;
              asks = pre ++ ask ∷ post;
              trades = ts;
              fill_seq = n;
            })
            s

  abbrev pub standing : List (Order D) → Fills D → Standing D
  standing bids f = record {
    bids = bids;
    asks = f.passed ++ f.rest;
    trades = f.trades;
    fill_seq = f.fill_seq;
  }

  pub Reaches-trans :
      {trade : Making D} {may : Order D → Order D → Type 0} {s t u : Standing D}
      → Reaches trade may s t
      → Reaches trade may t u
      → Reaches trade may s u
  Reaches-trans (stop s) k = k
  Reaches-trans (fill before bid after pre ask post ts n s' ne live left h) k =
      fill before bid after pre ask post ts n _ ne live left (Reaches-trans h k)

  -- A fill uses up the ask or the bid.
  used_up : (b c : D) → is_zero (d.sub c (min b c)) ≡ false → lt d.zero (d.sub b (min b c)) ≡ false
  used_up b c h = ground (arith, zero_parts D, sub_parts c c, sub_parts b b)

  abbrev fills : List (Order D) → List (Order D) → List (Trade D) → ℕ → Fills D
  fills passed rest ts k = record { passed = passed; rest = rest; trades = ts; fill_seq = k }

  turn_cases :
      (trade : Making D) (bid ask : Order D) (rest passed : List (Order D)) (ts : List (Trade D))
      (k : ℕ)
      → (turn trade bid ask rest (fills passed (ask ∷ rest) ts k)
          ≡ (bid, fills (passed ++ ask ∷ []) rest ts k))
        ⊎ ((bid.user_id ≢ ask.user_id)
            × (is_zero ask.remaining_qty ≡ false)
            × (turn trade bid ask rest (fills passed (ask ∷ rest) ts k) ≡ (
              reduce (fill_qty bid ask) bid,
              put_ask
                  (reduce (fill_qty bid ask) ask)
                  passed
                  rest
                  (ts ++ trade k bid ask ∷ [])
                  ((k + 1) % 2 ^ 64),
            )))
  unfolding turn
  turn_cases trade bid ask rest passed ts k = elim (Bool-cases (is_zero ask.remaining_qty)) [
    | inl gone ↦ inl (rw gone)
    | inr left ↦ elim (Bool-cases (bid.user_id == ask.user_id)) [
      | inl same ↦ inl (rw (left, same))
      | inr other ↦ inr (ground arith, left, rw (left, other))
    ]
  ]

  abbrev left_of : Order D → ℕ
  left_of o = if lt d.zero o.remaining_qty then 1 else 0

  left_live : (o : Order D) → lt d.zero o.remaining_qty ≡ true → left_of o ≡ 1
  left_live o h = rw h

  left_over : (o : Order D) → lt d.zero o.remaining_qty ≡ false → left_of o ≡ 0
  left_over o h = rw h

  pub left_of_le : (o : Order D) → left_of o ≤ 1
  left_of_le o = ground arith

  -- The part of the asks that a turn leaves at the cursor.
  pub pass :
      (passed rest : List (Order D)) (ask : Order D)
      → (passed ++ ask ∷ []) ++ rest ≡ passed ++ ask ∷ rest
  pass passed rest ask = append_assoc passed (ask ∷ []) rest

-- The loop allows a fill with each ask of another user that does not stop it, and goes on allowing
-- it when the bid is filled in part.
module _ {D : Type 0} ⦃d : Decimal D⦄ (trade : Making D) (stops : Order D → Bool)
    (may : Order D → Order D → Type 0) where
  abbrev pub Allows : Order D → Type 0
  Allows bid = (ask : Order D) → bid.user_id ≢ ask.user_id → stops ask ≡ false → may bid ask

  abbrev pub GoesOn : Type 0
  GoesOn = (bid : Order D) (x : D) → Allows bid → Allows (reduce x bid)

  abbrev go_on : Order D → Order D → Bool
  go_on bid ask = lt d.zero bid.remaining_qty && not (stops ask)

  fill_bid_over :
      (n : ℕ) (bid ask : Order D) (passed rest : List (Order D)) (ts : List (Trade D)) (k : ℕ)
      → go_on bid ask ≡ false
      → fill_bid trade stops (suc n) bid (fills passed (ask ∷ rest) ts k)
        ≡ some (bid, fills passed (ask ∷ rest) ts k)
  unfolding fill_bid
  fill_bid_over n bid ask passed rest ts k h = rw (go_on, h, fill_bid) refl

  fill_bid_live :
      (n : ℕ) (bid ask : Order D) (passed rest : List (Order D)) (ts : List (Trade D)) (k : ℕ)
      (bid' : Order D) (f' : Fills D)
      → go_on bid ask ≡ true
      → turn trade bid ask rest (fills passed (ask ∷ rest) ts k) ≡ (bid', f')
      → fill_bid trade stops (suc n) bid (fills passed (ask ∷ rest) ts k)
        ≡ fill_bid trade stops n bid' f'
  unfolding fill_bid
  fill_bid_live n bid ask passed rest ts k bid' f' h e = rw (go_on, h, e, fill_bid) refl

  pub fill_bid-Returns :
      (n : ℕ) (bid : Order D) (passed rest : List (Order D)) (ts : List (Trade D)) (k : ℕ)
      (done after : List (Order D))
      → GoesOn
      → Allows bid
      → 0 < n
      → length rest + left_of bid ≤ n
      → Returns
          (λ (r : Order D × Fills D).
            Reaches trade may
              (standing (done ++ bid ∷ after) (fills passed rest ts k))
              (standing (done ++ r.0 ∷ after) r.1))
          (fill_bid trade stops n bid (fills passed rest ts k))
  unfolding fill_bid
  fill_bid-Returns zero bid passed rest ts k done after keeps allows some_fuel fuel =
      absurd (omega arith)
  fill_bid-Returns (suc n) bid passed [] ts k done after keeps allows some_fuel fuel = stop _
  fill_bid-Returns (suc n) bid passed (ask ∷ rest) ts k done after keeps allows some_fuel fuel =
      elim (Bool-cases (go_on bid ask)) [
        | inr over ↦ rw (fill_bid_over n bid ask passed rest ts k over) (stop _)
        | inl on ↦
            let live : lt d.zero bid.remaining_qty ≡ true = ground arith in
            elim (turn_cases trade bid ask rest passed ts k) [
              | inl skipped ↦
                  rw
                    (
                      fill_bid_live n bid ask passed rest ts k _ _ on skipped,
                      sym (pass passed rest ask),
                    )
                    (fill_bid-Returns n bid (passed ++ ask ∷ []) rest ts k done after keeps allows
                      (omega (arith, left_live bid live)) (omega (arith, left_live bid live)))
              | inr (ne, left, filled) ↦
                  let again = keeps bid (fill_qty bid ask) allows in
                  rw (fill_bid_live n bid ask passed rest ts k _ _ on filled) (
                    Returns-imp
                      (λ (r : Order D × Fills D) h.
                        fill done bid after passed ask rest ts k _ (allows ask ne (ground arith))
                          live left h)
                      (fill_bid trade stops n (reduce (fill_qty bid ask) bid) (
                        put_ask (reduce (fill_qty bid ask) ask) passed rest
                          (ts ++ trade k bid ask ∷ []) ((k + 1) % 2 ^ 64)))
                      (elim (Bool-cases (is_zero (d.sub ask.remaining_qty (fill_qty bid ask)))) [
                        | inl gone ↦
                            rw (gone, sym (pass passed rest (reduce (fill_qty bid ask) ask)))
                              (fill_bid-Returns n (reduce (fill_qty bid ask) bid)
                                (passed ++ reduce (fill_qty bid ask) ask ∷ []) rest
                                (ts ++ trade k bid ask ∷ []) ((k + 1) % 2 ^ 64) done after keeps
                                again (omega (arith, left_live bid live))
                                (omega (
                                  arith,
                                  left_live bid live,
                                  left_of_le (reduce (fill_qty bid ask) bid),
                                )))
                        | inr more ↦ rw more (
                            fill_bid-Returns n (reduce (fill_qty bid ask) bid) passed
                              (reduce (fill_qty bid ask) ask ∷ rest) (ts ++ trade k bid ask ∷ [])
                              ((k + 1) % 2 ^ 64) done after keeps again
                              (omega (arith, left_live bid live))
                              (omega (
                                arith,
                                left_live bid live,
                                left_over (reduce (fill_qty bid ask) bid)
                                    (used_up bid.remaining_qty ask.remaining_qty more),
                              )))
                      ]))
            ]
      ]
