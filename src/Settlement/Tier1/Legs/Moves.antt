-- ===== src/Settlement/Tier1/Legs/Moves.antt =====
-- What one settlement of crates/openmatch-settlement/src/tier1.rs moves.
use openmatch.Base.{
  ℕ, ◌≡◌, ◌≢◌, refl, sym, ap, ◌∙◌, some, arith, true, false, ◌=?◌, nat_eq, string_eq, pair_eq, ok,
  err, contains, Bool-cases, inl, inr, beq_refl, List, set_insert,
}
use openmatch.Decimal.{Decimal, lt}
use openmatch.Map.{lookup}
use openmatch.Types.{UserId, Asset, Trade, BalanceEntry, insufficient_frozen, trade_already_settled}
use openmatch.Accounts
use openmatch.Accounts.{Accounts, Key, key_eq, consume_entry, credit_entry}
use openmatch.Settlement.Idempotency.{record_settled, make_room}
use openmatch.Settlement.Tier1.{Tier1Settler, transfer, settle_legs, settle_trade, buyer, seller}
use openmatch.Settlement.Tier1.Legs.{
  moved, transfer-ok, transfer-short, balance-moved, lookup-moved_ne, settle_accepted,
  settled_again,
}

other_asset :
    (u v : UserId) (a b : Asset)
    → (a =? b) ≡ false
    → (key_eq (u, a) (v, b) ≡ false) × (key_eq (u, b) (v, a) ≡ false)
other_asset u v a b h = elim (Bool-cases (b =? a)) [
  | inl same ↦ absurd (cc (h, beq_refl a, (string_eq.beq_iff b a).0 same))
  | inr other ↦ (ground arith, ground arith)
]

other_user :
    (u v : UserId) (a : Asset)
    → u ≢ v
    → (key_eq (u, a) (v, a) ≡ false) × (key_eq (v, a) (u, a) ≡ false)
other_user u v a h = (ground arith, ground arith)

same_key : (k : Key) → key_eq k k ≡ true
same_key k = beq_refl k

contains-set_insert : (t : ℕ) (xs : List ℕ) → contains t (set_insert t xs) ≡ true
contains-set_insert t xs = ground arith

module _ {D : Type 0} ⦃d : Decimal D⦄ where
  abbrev pub at : UserId → Asset → Accounts D → BalanceEntry D
  at u a m = Accounts.balance (u, a) m

  leg_moves :
      (a : Asset) (amount : D) (from to : UserId) (m : Accounts D)
      → to ≢ from
      → (at from a (moved a amount from to m) ≡ consume_entry amount (at from a m))
        × (at to a (moved a amount from to m) ≡ credit_entry amount (at to a m))
  leg_moves a amount from to m ne =
      let here = λ (u : UserId). balance-moved (u, a) a amount from to m (λ e. ne (sym e)) in
      (
        here from ∙ rw ((other_user to from a ne).0, same_key (from, a)),
        here to ∙ rw (same_key (to, a)),
      )

  leg_keeps :
      (a b : Asset) (amount : D) (from to u : UserId) (m : Accounts D)
      → to ≢ from
      → ((w : UserId) → key_eq (w, a) (u, b) ≡ false)
      → at u b (moved a amount from to m) ≡ at u b m
  leg_keeps a b amount from to u m ne other =
      balance-moved (u, b) a amount from to m (λ e. ne (sym e)) ∙ rw (other to, other from)

-- A trade between two users in two assets, whose seller has the base asset frozen.
pub record IsCovered {D : Type 0} ⦃d : Decimal D⦄ (t : Trade D) (s : Tier1Settler D)
    (base quote : BalanceEntry D) : Type 0 where
  pub unseen : contains t.id s.idempotency.settled ≡ false
  pub two_users : buyer t ≢ seller t
  pub two_assets : (t.market.base =? t.market.quote) ≡ false
  pub seller_base : lookup (seller t, t.market.base) s.balances ≡ some base
  pub buyer_quote : lookup (buyer t, t.market.quote) s.balances ≡ some quote
  pub base_frozen : lt base.frozen t.quantity ≡ false

module _ {D : Type 0} ⦃d : Decimal D⦄ (t : Trade D) (s : Tier1Settler D) {b q : BalanceEntry D}
    (c : IsCovered t s b q) where
  after_base : Accounts D
  after_base = moved t.market.base t.quantity (seller t) (buyer t) s.balances

  base_leg : transfer t.market.base t.quantity (seller t) (buyer t) s.balances ≡ (ok tt, after_base)
  unfolding after_base
  base_leg =
      transfer-ok t.market.base t.quantity (seller t) (buyer t) s.balances c.seller_base
        c.base_frozen

  quote_kept : lookup (buyer t, t.market.quote) after_base ≡ some q
  unfolding after_base
  quote_kept =
      lookup-moved_ne (buyer t, t.market.quote) t.market.base t.quantity (seller t) (buyer t)
        s.balances (other_asset (buyer t) (buyer t) t.market.base t.market.quote c.two_assets).0
        (other_asset (seller t) (buyer t) t.market.base t.market.quote c.two_assets).0
      ∙ c.buyer_quote

  after_quote : Accounts D
  after_quote = moved t.market.quote t.quote_amount (buyer t) (seller t) after_base

  both_legs : lt q.frozen t.quote_amount ≡ false → settle_legs t s.balances ≡ (ok tt, after_quote)
  unfolding settle_legs after_quote
  both_legs enough =
      rw (base_leg) (
        transfer-ok t.market.quote t.quote_amount (buyer t) (seller t) after_base quote_kept enough)

  one_leg :
      lt q.frozen t.quote_amount ≡ true
      → settle_legs t s.balances ≡ (err insufficient_frozen, after_base)
  unfolding settle_legs
  one_leg short = rw (base_leg) (
      transfer-short t.market.quote t.quote_amount (buyer t) (seller t) after_base quote_kept short)

  base_of : (w u : UserId) → key_eq (w, t.market.quote) (u, t.market.base) ≡ false
  base_of w u = (other_asset w u t.market.base t.market.quote c.two_assets).1

  -- (keys in the other order)
  quote_of : (w u : UserId) → key_eq (w, t.market.base) (u, t.market.quote) ≡ false
  quote_of w u = (other_asset w u t.market.base t.market.quote c.two_assets).0

  -- A covered trade whose buyer has the quote amount frozen settles: the seller's frozen base and the
  -- buyer's frozen quote fall by the traded amounts, and the buyer's available base and the seller's
  -- available quote rise by them.
  pub settle_trade-moves :
      lt q.frozen t.quote_amount ≡ false
      → let (r, s') = settle_trade t s in
        (r ≡ ok tt)
        × (at (seller t) t.market.base s'.balances
            ≡ consume_entry t.quantity (at (seller t) t.market.base s.balances))
        × (at (buyer t) t.market.base s'.balances
            ≡ credit_entry t.quantity (at (buyer t) t.market.base s.balances))
        × (at (buyer t) t.market.quote s'.balances
            ≡ consume_entry t.quote_amount (at (buyer t) t.market.quote s.balances))
        × (at (seller t) t.market.quote s'.balances
            ≡ credit_entry t.quote_amount (at (seller t) t.market.quote s.balances))
  unfolding after_base after_quote
  settle_trade-moves enough =
      let m = s.balances in
      let base = leg_moves t.market.base t.quantity (seller t) (buyer t) m c.two_users in
      let ne = λ (e : seller t ≡ buyer t). c.two_users (sym e) in
      let quote = leg_moves t.market.quote t.quote_amount (buyer t) (seller t) after_base ne in
      let keep_base = λ (u : UserId).
        leg_keeps t.market.quote t.market.base t.quote_amount (buyer t) (seller t) u after_base ne
          (λ w. base_of w u) in
      let keep_quote = λ (u : UserId).
        leg_keeps t.market.base t.market.quote t.quantity (seller t) (buyer t) u m c.two_users
          (λ w. quote_of w u) in
      rw (settle_accepted t s c.unseen (both_legs enough)) (
        refl,
        keep_base (seller t) ∙ base.0,
        keep_base (buyer t) ∙ base.1,
        quote.0 ∙ ap (consume_entry t.quote_amount) (keep_quote (buyer t)),
        quote.1 ∙ ap (credit_entry t.quote_amount) (keep_quote (seller t)),
      )

  -- A covered trade whose buyer has too little of the quote asset frozen fails with
  -- `insufficient_frozen`, but the base asset has changed hands already: the seller's frozen base has
  -- fallen, the buyer's available base has risen, and the buyer's quote is as before. The trade counts
  -- as settled: a second attempt is refused with `trade_already_settled` and changes nothing.
  pub settle_trade_half :
      lt q.frozen t.quote_amount ≡ true
      → let (r, s') = settle_trade t s in
        (r ≡ err insufficient_frozen)
        × (at (seller t) t.market.base s'.balances
            ≡ consume_entry t.quantity (at (seller t) t.market.base s.balances))
        × (at (buyer t) t.market.base s'.balances
            ≡ credit_entry t.quantity (at (buyer t) t.market.base s.balances))
        × (at (buyer t) t.market.quote s'.balances ≡ at (buyer t) t.market.quote s.balances)
        × (settle_trade t s' ≡ (err (trade_already_settled t.id), s'))
  unfolding after_base
  settle_trade_half short =
      let m = s.balances in
      let base = leg_moves t.market.base t.quantity (seller t) (buyer t) m c.two_users in
      rw (settle_accepted t s c.unseen (one_leg short)) (
        refl,
        base.0,
        base.1,
        leg_keeps t.market.base t.market.quote t.quantity (seller t) (buyer t) (buyer t) m
            c.two_users (λ w. quote_of w (buyer t)),
        settled_again t
            (record s {
              idempotency = record_settled t.id (make_room s.idempotency);
              balances = after_base;
            })
            (contains-set_insert t.id (make_room s.idempotency).settled),
      )
