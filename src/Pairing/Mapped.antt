-- ===== src/Pairing/Mapped.antt =====
-- The inner loop of the matchers (crates/openmatch-matchcore/src/matcher.rs and
-- crates/openmatch-core/src/batch_matcher.rs) does not read the trades that it makes: it commutes with
-- a change of each trade.
use openmatch.Base.{
  ℕ, zero, suc, ◌+◌, ◌%◌, ◌^◌, ◌≡◌, refl, ap, List, [], ◌∷◌, ◌++◌, Option, none, some, Bool, true,
  false, ◌==◌, ◌||◌, ◌&&◌, not, Bool-cases, inl, inr, nat_eq,
}
use openmatch.Decimal.{Decimal, lt, is_zero}
use openmatch.Types.{Order, Trade}
use openmatch.Pairing.{Fills, Making, fill_qty, reduce, put_ask, turn, fill_bid}

-- Every trade, changed.
abbrev pub map_trades : {D : Type 0} → (Trade D → Trade D) → List (Trade D) → List (Trade D)
map_trades g [] = []
map_trades g (t ∷ ts) = g t ∷ map_trades g ts

map_trades-append :
    {D : Type 0} (g : Trade D → Trade D) (xs ys : List (Trade D))
    → map_trades g (xs ++ ys) ≡ map_trades g xs ++ map_trades g ys
map_trades-append g [] ys = refl
map_trades-append g (x ∷ xs) ys = rw (map_trades-append g xs ys)

abbrev pub mapped : {D : Type 0} → (Trade D → Trade D) → Fills D → Fills D
mapped g f = record f { trades = map_trades g f.trades }

abbrev pub mapped_result :
    {A D : Type 0} → (Trade D → Trade D) → Option (A × Fills D) → Option (A × Fills D)
mapped_result g none = none
mapped_result g (some (a, f)) = some (a, mapped g f)

module _ {D : Type 0} ⦃d : Decimal D⦄ (g : Trade D → Trade D) (trade : Making D)
    (stops : Order D → Bool) where
  abbrev changed : Making D
  changed n bid ask = g (trade n bid ask)

  put_ask-mapped :
      (ask : Order D) (passed rest : List (Order D)) (ts : List (Trade D)) (n : ℕ)
      → put_ask ask passed rest (map_trades g ts) n ≡ mapped g (put_ask ask passed rest ts n)
  put_ask-mapped ask passed rest ts n = elim (Bool-cases (is_zero ask.remaining_qty)) [
    | inl gone ↦ rw gone refl
    | inr left ↦ rw left refl
  ]

  turn-mapped :
      (bid ask : Order D) (rest : List (Order D)) (f : Fills D)
      → turn changed bid ask rest (mapped g f)
        ≡ ((turn trade bid ask rest f).0, mapped g (turn trade bid ask rest f).1)
  unfolding turn
  turn-mapped bid ask rest f =
      elim (Bool-cases (is_zero ask.remaining_qty || bid.user_id == ask.user_id)) [
        | inl skip ↦ rw skip refl
        | inr go ↦
            let t = trade f.fill_seq bid ask in
            let more = map_trades-append g f.trades (t ∷ []) in
            let put =
              put_ask-mapped (reduce (fill_qty bid ask) ask) f.passed rest (f.trades ++ t ∷ [])
                ((f.fill_seq + 1) % 2 ^ 64) in
            rw go (ap (λ (x : Fills D). (reduce (fill_qty bid ask) bid, x)) (rw more at put))
      ]

  branch_mapped :
      (n : ℕ) (bid ask : Order D) (rest : List (Order D)) (f : Fills D) (on : Bool)
      → ((bid' : Order D) (f' : Fills D)
          → fill_bid changed stops n bid' (mapped g f')
            ≡ mapped_result g (fill_bid trade stops n bid' f'))
      → (elim on [
        | true ↦
            let (bid', f') = turn changed bid ask rest (mapped g f) in
            fill_bid changed stops n bid' f'
        | false ↦ some (bid, mapped g f)
      ])
        ≡ mapped_result g (elim on [
          | true ↦ let (bid', f') = turn trade bid ask rest f in fill_bid trade stops n bid' f'
          | false ↦ some (bid, f)
        ])
  branch_mapped n bid ask rest f true again = rw (turn-mapped bid ask rest f) (again _ _)
  branch_mapped n bid ask rest f false again = refl

  pub fill_bid-mapped :
      (n : ℕ) (bid : Order D) (passed rest : List (Order D)) (ts : List (Trade D)) (k : ℕ)
      → let f : Fills D = record { passed = passed; rest = rest; trades = ts; fill_seq = k } in
        fill_bid changed stops n bid (mapped g f) ≡ mapped_result g (fill_bid trade stops n bid f)
  unfolding fill_bid
  fill_bid-mapped zero bid passed rest ts k = refl
  fill_bid-mapped (suc n) bid passed [] ts k = refl
  fill_bid-mapped (suc n) bid passed (ask ∷ rest) ts k =
      branch_mapped n bid ask rest
        (record { passed = passed; rest = ask ∷ rest; trades = ts; fill_seq = k })
        (lt d.zero bid.remaining_qty && not (stops ask))
        (λ bid' f'. fill_bid-mapped n bid' f'.passed f'.rest f'.trades f'.fill_seq)
