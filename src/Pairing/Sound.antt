-- ===== src/Pairing/Sound.antt =====
-- The trades that a run of fills makes, in the matchers (crates/openmatch-matchcore/src/matcher.rs and
-- crates/openmatch-core/src/batch_matcher.rs).
use openmatch.Base.{ℕ, List, [], ◌∷◌, ◌++◌, All, All-append, All-split}
use openmatch.Decimal.{Decimal}
use openmatch.Types.{Order, Trade}
use openmatch.Pairing.{Making, fill_qty, reduce}
use openmatch.Pairing.Steps.{Standing, Reaches, stop, fill}

-- `P` of the bids, `Q` of the asks, both whatever they have left, and `T` of the trades that they make.
module _ {D : Type 0} ⦃d : Decimal D⦄ (trade : Making D) (may : Order D → Order D → Type 0)
    (P Q : Order D → Type 0) (T : Trade D → Type 0) where
  abbrev AreSound : Standing D → Type 0
  AreSound s = All P s.bids × All Q s.asks × All T s.trades

  pub record Makes : Type 0 where
    pub bid_kept : (o : Order D) (x : D) → P o → P (reduce x o)
    pub ask_kept : (o : Order D) (x : D) → Q o → Q (reduce x o)
    pub made : (n : ℕ) (bid ask : Order D) → may bid ask → P bid → Q ask → T (trade n bid ask)

  replaced :
      (R : Order D → Type 0)
      → ((o : Order D) (x : D) → R o → R (reduce x o))
      → (xs ys : List (Order D)) (o : Order D) (x : D) → All R (xs ++ o ∷ ys)
      → R o × All R (xs ++ reduce x o ∷ ys)
  replaced R kept xs ys o x h =
      let (hx, (here, hy)) = All-split R xs (o ∷ ys) h in
      (here, All-append R xs (reduce x o ∷ ys) hx (kept o x here, hy))

  pub Reaches-AreSound :
      {s t : Standing D} → Makes → Reaches trade may s t → AreSound s → AreSound t
  Reaches-AreSound m (stop s) h = h
  Reaches-AreSound m (fill before bid after pre ask post ts n t allowed live left k) (hb, ha, ht) =
      let (p, hb') = replaced P m.bid_kept before after bid (fill_qty bid ask) hb in
      let (q, ha') = replaced Q m.ask_kept pre post ask (fill_qty bid ask) ha in
      Reaches-AreSound m k
        (hb', ha', All-append T ts (trade n bid ask ∷ []) ht (m.made n bid ask allowed p q, tt))
