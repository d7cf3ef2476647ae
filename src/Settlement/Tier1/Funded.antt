-- ===== src/Settlement/Tier1/Funded.antt =====
-- Settlements of crates/openmatch-settlement/src/tier1.rs that have the frozen funds which they need.
use openmatch.Base.{
  ◌≡◌, refl, sym, subst, ap, List, [], ◌∷◌, pos, ℤ, ◌+ℤ◌, ◌≤ℤ◌, int_laws, parts, ok, true, false,
  ◌=?◌, arith, nat_eq, string_eq, pair_eq, Eq, inl, inr, All, All-imp, contains, Option-cases,
  sum_of, sum_of-nonneg,
}
use openmatch.Decimal.{Decimal}
use openmatch.Types.{UserId, Asset, Trade, TradeId}
use openmatch.Map.{Map, insert, lookup, lookup-insert, contains_key}
use openmatch.Accounts.{Key, Accounts, balance, credit, credit_entry, consume_entry}
use openmatch.Accounts.Frozen.{
  entry_of, other_asset, frozen, due, frozen-consumed, frozen-credit, due-nonneg, due_own,
}
use openmatch.Settlement.Idempotency.{make_room, record_settled}
use openmatch.Settlement.Idempotency.Valid.{make_room_forgets}
use openmatch.Settlement.Tier1.{
  Tier1Settler, Outcome, transfer, settle_legs, settle_trade, buyer, seller, Call, settle_call,
  apply, run,
}
use openmatch.Settlement.Tier1.Legs.{moved, transfer-ok, settle_accepted}

-- A write keeps every key.
contains_key-insert {ℓ κ} :
    {K : Type ℓ} {V : Type κ} ⦃e : Eq K⦄ (j k : K) (v : V) (m : Map K V)
    → contains_key j m ≡ true
    → contains_key j (insert k v m) ≡ true
contains_key-insert j k v m h = ground (arith, lookup-insert j k v m)

module _ {D : Type 0} ⦃d : Decimal D⦄ where
  -- A trade that takes nothing negative, of two assets, from accounts that exist.
  pub record IsSound (m : Accounts D) (t : Trade D) : Type 0 where
    pub quantity_nonneg : pos 0 ≤ℤ d.units t.quantity
    pub quote_nonneg : pos 0 ≤ℤ d.units t.quote_amount
    pub two_assets : (t.market.base =? t.market.quote) ≡ false
    pub seller_account : contains_key (seller t, t.market.base) m ≡ true
    pub buyer_account : contains_key (buyer t, t.market.quote) m ≡ true

  -- What a trade takes from the frozen part of an account.
  abbrev pub owed : Key → Trade D → ℤ
  owed j t =
      due j (seller t, t.market.base) t.quantity +ℤ due j (buyer t, t.market.quote) t.quote_amount

  -- No key of the first accounts is missing in the second.
  abbrev KeepsKeys : Accounts D → Accounts D → Type 0
  KeepsKeys m n = (j : Key) → contains_key j m ≡ true → contains_key j n ≡ true

  IsSound-keys : (t : Trade D) (m n : Accounts D) → KeepsKeys m n → IsSound m t → IsSound n t
  IsSound-keys t m n keys s = record {
    quantity_nonneg = s.quantity_nonneg;
    quote_nonneg = s.quote_nonneg;
    two_assets = s.two_assets;
    seller_account = keys (seller t, t.market.base) s.seller_account;
    buyer_account = keys (buyer t, t.market.quote) s.buyer_account;
  }

  moved-KeepsKeys :
      (asset : Asset) (a : D) (from to : UserId) (m : Accounts D)
      → KeepsKeys m (moved asset a from to m)
  unfolding credit balance
  moved-KeepsKeys asset a from to m j h =
      let e = consume_entry a (entry_of (from, asset) m) in
      contains_key-insert j (to, asset)
        (credit_entry a (entry_of (to, asset) (insert (from, asset) e m)))
        (insert (from, asset) e m) (contains_key-insert j (from, asset) e m h)

  transfer-funded :
      (asset : Asset) (a : D) (from to : UserId) (m : Accounts D)
      → contains_key (from, asset) m ≡ true
      → d.units a ≤ℤ frozen (from, asset) m
      → let n = moved asset a from to m in
        (transfer asset a from to m ≡ (ok tt, n))
        × ((j : Key) → frozen j n +ℤ due j (from, asset) a ≡ frozen j m)
  unfolding balance
  transfer-funded asset a from to m here enough = elim (Option-cases (lookup (from, asset) m)) [
    | inl missing ↦ absurd (ground arith)
    | inr (e, found) ↦
        let k : Key = (from, asset) in
        let left = insert k (consume_entry a (entry_of k m)) m in
        (
          transfer-ok asset a from to m found (ground arith),
          λ j. omega (
            int_laws,
            parts (ap d.units (frozen-credit j (to, asset) a left)),
            parts (frozen-consumed j k a m),
          ),
        )
  ]

  -- Both legs of a sound trade that is covered.
  legs-funded :
      (t : Trade D) (m : Accounts D)
      → IsSound m t
      → ((j : Key) → owed j t ≤ℤ frozen j m)
      → (n : Accounts D) × (settle_legs t m ≡ (ok tt, n))
        × ((j : Key) → frozen j n +ℤ owed j t ≡ frozen j m)
        × KeepsKeys m n
  unfolding settle_legs
  legs-funded t m s covered =
      let k : Key = (seller t, t.market.base) in
      let l : Key = (buyer t, t.market.quote) in
      let (paid, taken) =
        transfer-funded t.market.base t.quantity (seller t) (buyer t) m s.seller_account (
          omega (
            int_laws,
            covered k,
            parts (due_own k t.quantity),
            due-nonneg k l t.quote_amount s.quote_nonneg,
          )) in
      let m1 = moved t.market.base t.quantity (seller t) (buyer t) m in
      let apart : due l k t.quantity ≡ pos 0 = rw (other_asset k l s.two_assets) refl in
      let keys1 = moved-KeepsKeys t.market.base t.quantity (seller t) (buyer t) m in
      let (paid2, taken2) =
        transfer-funded t.market.quote t.quote_amount (buyer t) (seller t) m1
          (keys1 l s.buyer_account)
          (omega (
            int_laws,
            covered l,
            parts (taken l),
            parts apart,
            parts (due_own l t.quote_amount),
          )) in
      (
        moved t.market.quote t.quote_amount (buyer t) (seller t) m1,
        rw (paid, settle_legs) paid2,
        λ j. omega (int_laws, parts (taken j), parts (taken2 j)),
        λ j h. moved-KeepsKeys t.market.quote t.quote_amount (buyer t) (seller t) m1 j (keys1 j h),
      )

  -- No trade has the id of an earlier one, or one of the given ids.
  abbrev pub AreNew : List TradeId → List (Trade D) → Type 0
  AreNew seen [] = Unit
  AreNew seen (t ∷ ts) = (contains t.id seen ≡ false) × AreNew (t.id ∷ seen) ts

  AreNew-anti :
      (seen old : List TradeId) (ts : List (Trade D))
      → ((i : TradeId) → contains i old ≡ false → contains i seen ≡ false)
      → AreNew old ts
      → AreNew seen ts
  AreNew-anti seen old [] fewer h = tt
  AreNew-anti seen old (t ∷ ts) fewer (here, later) = (
    fewer t.id here,
    AreNew-anti (t.id ∷ seen) (t.id ∷ old) ts (λ i k. ground (arith, fewer i)) later,
  )

  -- Every settlement of the trades, one after the other, succeeds.
  abbrev pub AllSettle : List (Trade D) → Tier1Settler D → Type 0
  AllSettle [] s = Unit
  AllSettle (t ∷ ts) s = ((settle_trade t s).0 ≡ ok tt) × AllSettle ts (settle_trade t s).1

  abbrev pub settlements : List (Trade D) → List (Call D)
  settlements [] = []
  settlements (t ∷ ts) = settle_call t ∷ settlements ts

  settled_ids :
      (i : TradeId) (t : Trade D) (s : Tier1Settler D)
      → contains i (t.id ∷ s.idempotency.settled) ≡ false
      → contains i (record_settled t.id (make_room s.idempotency)).settled ≡ false
  settled_ids i t s h = ground (arith, make_room_forgets i s.idempotency)

  owed-nonneg :
      (j : Key) (ts : List (Trade D)) (m : Accounts D)
      → All (IsSound m) ts
      → pos 0 ≤ℤ sum_of (owed j) ts
  owed-nonneg j ts m h = sum_of-nonneg (owed j) ts (
      All-imp
        (λ (t : Trade D) s. omega (
          int_laws,
          due-nonneg j (seller t, t.market.base) t.quantity s.quantity_nonneg,
          due-nonneg j (buyer t, t.market.quote) t.quote_amount s.quote_nonneg,
        ))
        ts h)

  -- If every account has at least as much frozen as the trades together take from it, no trade takes
  -- anything negative or is of one asset only, the accounts that they take from exist, and none of
  -- them has the id of a settled trade or of another, then all the trades settle, one after the other,
  -- and take just that from what is frozen.
  pub settle_each :
      (ts : List (Trade D)) (s : Tier1Settler D)
      → All (IsSound s.balances) ts
      → AreNew s.idempotency.settled ts
      → ((j : Key) → sum_of (owed j) ts ≤ℤ frozen j s.balances)
      → AllSettle ts s
        × ((j : Key)
            → frozen j (run (settlements ts) s).balances +ℤ sum_of (owed j) ts
              ≡ frozen j s.balances)
  unfolding run apply
  settle_each [] s sound new covered = (tt, λ j. omega int_laws)
  settle_each (t ∷ ts) s (here, later) (fresh, new) covered =
      let (n, done, taken, keys) =
        legs-funded t s.balances here
          (λ j. omega (int_laws, covered j, owed-nonneg j ts s.balances later)) in
      let s' : Tier1Settler D = record s {
        idempotency = record_settled t.id (make_room s.idempotency);
        balances = n;
      } in
      let (all_done, all_taken) =
        settle_each ts s' (All-imp (λ (u : Trade D) k. IsSound-keys u s.balances n keys k) ts later)
          (AreNew-anti s'.idempotency.settled (t.id ∷ s.idempotency.settled) ts
            (λ i h. settled_ids i t s h) new)
          (λ j. omega (int_laws, covered j, parts (taken j))) in
      subst
        (λ (p : Outcome D).
          ((p.0 ≡ ok tt) × AllSettle ts p.1)
          × ((j : Key)
              → frozen j (run (settlements ts) p.1).balances +ℤ sum_of (owed j) (t ∷ ts)
                ≡ frozen j s.balances))
        (sym (settle_accepted t s fresh done))
        ((refl, all_done), λ j. omega (int_laws, parts (taken j), parts (all_taken j)))
