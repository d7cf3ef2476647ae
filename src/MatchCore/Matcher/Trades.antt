-- ===== src/MatchCore/Matcher/Trades.antt =====
-- The trades of crates/openmatch-matchcore/src/matcher.rs.
use openmatch.Base.{◌≡◌, ◌≢◌, refl}
use openmatch.Decimal.{Decimal}
use openmatch.Types.{OrderId, Trade, OrderSide}
use openmatch.Pairing.Sound.{Makes}
use openmatch.MatchCore.Matcher.{Auction, trade_of}
use openmatch.MatchCore.Matcher.Steps.{TwoUsers}

module _ {D : Type 0} ⦃d : Decimal D⦄ where
  -- A trade of the auction between two users, a buyer taking from a seller, at the one price.
  pub record IsFair (a : Auction D) (t : Trade D) : Type 0 where
    pub one_epoch : t.epoch_id ≡ a.epoch_id
    pub one_price : t.price ≡ a.price
    pub quoted : t.quote_amount ≡ d.mul t.price t.quantity
    pub buyer_takes : t.taker_side ≡ OrderSide.buy
    pub two_users : t.taker_user_id ≢ t.maker_user_id

  -- `P` of the bid's id and `Q` of the ask's id.
  abbrev pub Sound : Auction D → (OrderId → Type 0) → (OrderId → Type 0) → Trade D → Type 0
  Sound a P Q t = IsFair a t × P t.taker_order_id × Q t.maker_order_id

  pub trade_of-Makes :
      (a : Auction D) (P Q : OrderId → Type 0)
      → Makes (trade_of a) TwoUsers (λ o. P o.id) (λ o. Q o.id) (Sound a P Q)
  trade_of-Makes a P Q = record {
    bid_kept = λ o x p. p;
    ask_kept = λ o x q. q;
    made = λ n bid ask ne p q. (
      record {
        one_epoch = refl;
        one_price = refl;
        quoted = refl;
        buyer_takes = refl;
        two_users = ne;
      },
      p,
      q,
    );
  }
