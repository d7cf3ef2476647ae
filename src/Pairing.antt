-- ===== src/Pairing.antt =====
-- The inner loop of the two matchers, crates/openmatch-matchcore/src/matcher.rs and
-- crates/openmatch-core/src/batch_matcher.rs: one bid against the asks from a cursor on. They differ
-- in the trade that they make of a fill, the parameter `trade`, and in that the second ends the loop
-- at an ask above the price, the parameter `stops`. A vector with a cursor is the items before the
-- cursor and those from it on. The loop runs on fuel: each turn passes an ask or uses up the bid, so
-- one turn more than there are asks is enough (`Pairing.Steps`).
pub mod Steps
pub mod Volume
pub mod Sound
pub mod Mapped
use openmatch.Base.{
  ℕ, zero, suc, ◌+◌, ◌%◌, ◌^◌, List, [], ◌∷◌, ◌++◌, Option, none, some, Bool, true, false, ◌==◌,
  ◌||◌, ◌&&◌, not, length, if◌then◌else◌,
}
use openmatch.Decimal.{Decimal, lt, is_zero, min}
use openmatch.Types.{Order, Trade}

-- What the loops write: `asks[..ask_idx]`, `asks[ask_idx..]`, the trades, `fill_seq`.
pub record Fills (D : Type 0) : Type 0 where
  pub passed : List (Order D)
  pub rest : List (Order D)
  pub trades : List (Trade D)
  pub fill_seq : ℕ

-- The trade of a fill, from the number of the fill, the bid and the ask.
abbrev pub Making : Type 0 → Type 0
Making D = ℕ → Order D → Order D → Trade D

module _ {D : Type 0} ⦃d : Decimal D⦄ where
  abbrev pub fill_qty : Order D → Order D → D
  fill_qty bid ask = min bid.remaining_qty ask.remaining_qty

  -- `order.remaining_qty -= amount`
  abbrev pub reduce : D → Order D → Order D
  reduce amount o = record o { remaining_qty = d.sub o.remaining_qty amount }

  -- The cursor moves on if the ask is used up.
  abbrev pub put_ask : Order D → List (Order D) → List (Order D) → List (Trade D) → ℕ → Fills D
  put_ask ask passed rest trades n =
      if is_zero ask.remaining_qty
      then record { passed = passed ++ ask ∷ []; rest = rest; trades = trades; fill_seq = n }
      else record { passed = passed; rest = ask ∷ rest; trades = trades; fill_seq = n }

  -- The body of the inner loop, on the ask at the cursor and those behind it.
  unfoldable pub turn : Making D → Order D → Order D → List (Order D) → Fills D → Order D × Fills D
  turn trade bid ask rest f =
      if is_zero ask.remaining_qty || bid.user_id == ask.user_id
      then (bid, record f { passed = f.passed ++ ask ∷ []; rest = rest })
      else (
        reduce (fill_qty bid ask) bid,
        put_ask (reduce (fill_qty bid ask) ask) f.passed rest
            (f.trades ++ trade f.fill_seq bid ask ∷ []) ((f.fill_seq + 1) % 2 ^ 64),
      )

  -- The inner loop: `none` where the fuel ends before the loop does.
  unfoldable pub fill_bid :
      Making D → (Order D → Bool) → ℕ → Order D → Fills D → Option (Order D × Fills D)
  fill_bid trade stops zero bid f = none
  fill_bid trade stops (suc n) bid f = elim f.rest [
    | [] ↦ some (bid, f)
    | ask ∷ rest ↦ elim (lt d.zero bid.remaining_qty && not (stops ask)) [
      | true ↦ let (bid', f') = turn trade bid ask rest f in fill_bid trade stops n bid' f'
      | false ↦ some (bid, f)
    ]
  ]

  abbrev pub enough_fuel : Fills D → ℕ
  enough_fuel f = suc (length f.rest)

  abbrev pub start_fills : List (Order D) → Fills D
  start_fills asks = record { passed = []; rest = asks; trades = []; fill_seq = 0 }
