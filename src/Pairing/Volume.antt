-- ===== src/Pairing/Volume.antt =====
-- Quantities over the fills of the matchers (crates/openmatch-matchcore/src/matcher.rs and
-- crates/openmatch-core/src/batch_matcher.rs), order by order.
use openmatch.Base.{
  ℕ, ◌≡◌, ◌∙◌, refl, true, false, nat_eq, List, [], ◌∷◌, ◌++◌, All, All-append, All-split, ℤ, pos,
  sum_of, sum_of-append, ◌+ℤ◌, ◌≤ℤ◌, ◌<ℤ◌, if◌then◌else◌, ◌==◌, int_laws, parts, arith, Bool-cases,
  inl, inr,
}
use openmatch.Decimal.{Decimal, lt, is_zero, min, sub_parts, zero_parts}
use openmatch.Types.{Order, OrderId, Trade}
use openmatch.Pairing.{Making, fill_qty, reduce}
use openmatch.Pairing.Steps.{Standing, Reaches, stop, fill}

module _ {D : Type 0} ⦃d : Decimal D⦄ where
  -- The quantity that orders of the id `i` have left.
  abbrev pub left_for : OrderId → Order D → ℤ
  left_for i o = if o.id == i then d.units o.remaining_qty else pos 0

  -- The quantity that a trade takes from, or makes for, the order `i`.
  abbrev pub taken_by : OrderId → Trade D → ℤ
  taken_by i t = if t.taker_order_id == i then d.units t.quantity else pos 0

  abbrev pub made_by : OrderId → Trade D → ℤ
  made_by i t = if t.maker_order_id == i then d.units t.quantity else pos 0

  -- What is left and what is traded, together.
  abbrev bid_volume : OrderId → Standing D → ℤ
  bid_volume i s = sum_of (left_for i) s.bids +ℤ sum_of (taken_by i) s.trades

  abbrev ask_volume : OrderId → Standing D → ℤ
  ask_volume i s = sum_of (left_for i) s.asks +ℤ sum_of (made_by i) s.trades

  left_for-reduce :
      (i : OrderId) (o : Order D) (x : D)
      → left_for i (reduce x o) +ℤ (if o.id == i then d.units x else pos 0) ≡ left_for i o
  left_for-reduce i o x = elim (Bool-cases (o.id == i)) [
    | inl same ↦ rw same (omega (int_laws, parts (d.units-sub o.remaining_qty x)))
    | inr other ↦ rw other (omega int_laws)
  ]

  -- One reduced order against one measure more of the trades.
  traded :
      (i : OrderId) (g : Trade D → ℤ) (xs ys : List (Order D)) (o : Order D) (x : D)
      (ts : List (Trade D)) (t : Trade D)
      → g t ≡ (if o.id == i then d.units x else pos 0)
      → sum_of (left_for i) (xs ++ reduce x o ∷ ys) +ℤ sum_of g (ts ++ t ∷ [])
        ≡ sum_of (left_for i) (xs ++ o ∷ ys) +ℤ sum_of g ts
  traded i g xs ys o x ts t h = omega (
    int_laws,
    parts (sum_of-append (left_for i) xs (reduce x o ∷ ys)),
    parts (sum_of-append (left_for i) xs (o ∷ ys)),
    parts (sum_of-append g ts (t ∷ [])),
    parts h,
    parts (left_for-reduce i o x),
  )

  -- A trade names the two orders of its fill, and has its quantity.
  pub record IsOfFill (trade : Making D) : Type 0 where
    pub of_bid : (n : ℕ) (bid ask : Order D) → (trade n bid ask).taker_order_id ≡ bid.id
    pub of_ask : (n : ℕ) (bid ask : Order D) → (trade n bid ask).maker_order_id ≡ ask.id
    pub for_quantity : (n : ℕ) (bid ask : Order D) → (trade n bid ask).quantity ≡ fill_qty bid ask

  pub Reaches-volume :
      (i : OrderId) {trade : Making D} {may : Order D → Order D → Type 0} {s t : Standing D}
      → IsOfFill trade
      → Reaches trade may s t
      → (bid_volume i t ≡ bid_volume i s) × (ask_volume i t ≡ ask_volume i s)
  Reaches-volume i m (stop s) = (refl, refl)
  Reaches-volume i {trade} m (fill before bid after pre ask post ts n t ne live left k) =
      let (b, c) = Reaches-volume i m k in
      (
        b
            ∙ traded i (taken_by i) before after bid (fill_qty bid ask) ts (trade n bid ask)
                (rw (m.of_bid n bid ask, m.for_quantity n bid ask) refl),
        c
            ∙ traded i (made_by i) pre post ask (fill_qty bid ask) ts (trade n bid ask)
                (rw (m.of_ask n bid ask, m.for_quantity n bid ask) refl),
      )

  -- Nothing left is negative, and every trade has a positive quantity.
  abbrev Filled : Standing D → Type 0
  Filled s =
      All (λ o. pos 0 ≤ℤ d.units o.remaining_qty) s.bids
      × All (λ o. pos 0 ≤ℤ d.units o.remaining_qty) s.asks
      × All (λ t. pos 0 <ℤ d.units t.quantity) s.trades

  reduced :
      (xs ys : List (Order D)) (o : Order D) (x : D)
      → pos 0 ≤ℤ d.units (d.sub o.remaining_qty x)
      → All (λ (o : Order D). pos 0 ≤ℤ d.units o.remaining_qty) (xs ++ o ∷ ys)
      → All (λ (o : Order D). pos 0 ≤ℤ d.units o.remaining_qty) (xs ++ reduce x o ∷ ys)
  reduced xs ys o x h all =
      let (hx, (here, hy)) =
        All-split (λ (o : Order D). pos 0 ≤ℤ d.units o.remaining_qty) xs (o ∷ ys) all in
      All-append (λ (o : Order D). pos 0 ≤ℤ d.units o.remaining_qty) xs (reduce x o ∷ ys) hx (h, hy)

  -- The smaller of two quantities that are left is positive, and either covers it.
  pub min_covered :
      (b c : D)
      → lt d.zero b ≡ true
      → is_zero c ≡ false
      → pos 0 ≤ℤ d.units c
      → (pos 0 <ℤ d.units (min b c))
        × (pos 0 ≤ℤ d.units (d.sub b (min b c)))
        × (pos 0 ≤ℤ d.units (d.sub c (min b c)))
  min_covered b c live left h =
      ground (arith, zero_parts D, sub_parts b c, sub_parts c b, sub_parts b b, sub_parts c c)

  pub Reaches-Filled :
      {trade : Making D} {may : Order D → Order D → Type 0} {s t : Standing D}
      → IsOfFill trade
      → Reaches trade may s t
      → Filled s
      → Filled t
  Reaches-Filled m (stop s) h = h
  Reaches-Filled {trade} m (fill before bid after pre ask post ts n t ne live left k) (hb, ha, ht) =
      let covered =
        min_covered bid.remaining_qty ask.remaining_qty live left
          (All-split (λ (o : Order D). pos 0 ≤ℤ d.units o.remaining_qty) pre (ask ∷ post) ha).1.0 in
      Reaches-Filled m k (
        reduced before after bid (fill_qty bid ask) covered.1 hb,
        reduced pre post ask (fill_qty bid ask) covered.2 ha,
        All-append (λ (t : Trade D). pos 0 <ℤ d.units t.quantity) ts (trade n bid ask ∷ []) ht
            (rw (m.for_quantity n bid ask) covered.0, tt),
      )
