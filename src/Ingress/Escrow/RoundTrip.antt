-- ===== src/Ingress/Escrow/RoundTrip.antt =====
-- A mint and the release of its right in crates/openmatch-ingress/src/escrow.rs.
use openmatch.Base.{
  ℕ, ◌+◌, ◌%◌, ◌^◌, ◌≡◌, refl, some, false, true, nat_eq, string_eq, pair_eq, ok, pos, ◌≤ℤ◌, arith,
  int_laws, parts,
}
use openmatch.Decimal.{Decimal, lt, add_parts}
use openmatch.Map.{lookup, insert, lookup-insert_self}
use openmatch.Types.{
  OrderId, UserId, SpendRightId, EpochId, Asset, SpendRight, BalanceEntry, released,
  is_active_state,
}
use openmatch.Accounts
use openmatch.Accounts.{Accounts, Key, freeze_entry, unfreeze_entry}
use openmatch.Ingress.Escrow.{EscrowManager, mint, minted, release}
use openmatch.Accounts.Cases.{balance_found}
use openmatch.Ingress.Escrow.Cases.{mark_released-ok}

module _ {D : Type 0} ⦃d : Decimal D⦄ where
  freeze-ok :
      (k : Key) (a : D) (e : BalanceEntry D) (m : Accounts D)
      → lookup k m ≡ some e
      → lt e.available a ≡ false
      → Accounts.freeze k a m ≡ (ok tt, insert k (freeze_entry a e) m)
  unfolding Accounts.freeze
  freeze-ok k a e m h enough = ground arith

  unfreeze-ok :
      (k : Key) (a : D) (e : BalanceEntry D) (m : Accounts D)
      → lookup k m ≡ some e
      → lt e.frozen a ≡ false
      → Accounts.unfreeze k a m ≡ (ok tt, insert k (unfreeze_entry a e) m)
  unfolding Accounts.unfreeze
  unfreeze-ok k a e m h enough = ground arith

  covers :
      (e : BalanceEntry D) (a : D)
      → pos 0 ≤ℤ d.units e.frozen
      → lt (freeze_entry a e).frozen a ≡ false
  covers e a h = ground (arith, add_parts e.frozen a)

  abbrev after_mint :
      SpendRightId → SpendRight D → Key → D → BalanceEntry D → EscrowManager D → EscrowManager D
  after_mint i sr k a e s = record s {
    accounts = insert k (freeze_entry a e) s.accounts;
    spend_rights = insert i sr s.spend_rights;
    nonce_counter = (s.nonce_counter + 1) % 2 ^ 64;
  }

  mint-ok :
      (i : SpendRightId) (now : ℕ) (order : OrderId) (user : UserId) (asset : Asset) (a : D)
      (epoch : EpochId) (s : EscrowManager D) (e : BalanceEntry D)
      → lookup (user, asset) s.accounts ≡ some e
      → lt e.available a ≡ false
      → mint i now order user asset a epoch s
        ≡ (ok i, after_mint i (minted i now order user asset a epoch s) (user, asset) a e s)
  unfolding mint
  mint-ok i now order user asset a epoch s e found enough =
      rw (freeze-ok (user, asset) a e s.accounts found enough) refl

  pub release-ok :
      (i : SpendRightId) (sr : SpendRight D) (s : EscrowManager D) (e : BalanceEntry D)
      → lookup i s.spend_rights ≡ some sr
      → is_active_state sr.state ≡ true
      → lookup (sr.user_id, sr.asset) s.accounts ≡ some e
      → lt e.frozen sr.amount ≡ false
      → release i s ≡ (
        ok tt,
        record s {
          accounts = insert (sr.user_id, sr.asset) (unfreeze_entry sr.amount e) s.accounts;
          spend_rights = insert i (record sr { state = released }) s.spend_rights;
        },
      )
  unfolding release
  release-ok i sr s e right live found enough = rw (
    right,
    release,
    live,
    unfreeze-ok (sr.user_id, sr.asset) sr.amount e s.accounts found enough,
    mark_released-ok sr live,
  )

  -- A mint from an account whose available funds cover the amount and whose frozen funds are not
  -- negative succeeds, and a release of its right then succeeds too: the right is released, and the
  -- account's available and frozen funds have the values that they had before the mint.
  pub mint-release :
      (i : SpendRightId) (now : ℕ) (order : OrderId) (user : UserId) (asset : Asset) (a : D)
      (epoch : EpochId) (s : EscrowManager D) (e : BalanceEntry D)
      → lookup (user, asset) s.accounts ≡ some e
      → lt e.available a ≡ false
      → pos 0 ≤ℤ d.units e.frozen
      → let (r, s') = mint i now order user asset a epoch s in
        let (r', s'') = release i s' in
        (r ≡ ok i)
        × (r' ≡ ok tt)
        × (lookup i s''.spend_rights
            ≡ some (record (minted i now order user asset a epoch s) { state = released }))
        × (d.units (Accounts.balance (user, asset) s''.accounts).available ≡ d.units e.available)
        × (d.units (Accounts.balance (user, asset) s''.accounts).frozen ≡ d.units e.frozen)
  mint-release i now order user asset a epoch s e found enough nonneg =
      let sr = minted i now order user asset a epoch s in
      let s' = after_mint i sr (user, asset) a e s in
      let m = s'.accounts in
      rw
        (
          mint-ok i now order user asset a epoch s e found enough,
          release-ok i sr s' (freeze_entry a e) (lookup-insert_self i sr s.spend_rights) refl
              (lookup-insert_self (user, asset) (freeze_entry a e) s.accounts) (covers e a nonneg),
          balance_found (user, asset) (insert (user, asset) (unfreeze_entry a (freeze_entry a e)) m)
              (lookup-insert_self (user, asset) (unfreeze_entry a (freeze_entry a e)) m),
        )
        (
          refl,
          refl,
          lookup-insert_self i (record sr { state = released }) s'.spend_rights,
          omega (
            int_laws,
            parts (d.units-add (d.sub e.available a) a),
            parts (d.units-sub e.available a),
          ),
          omega
              (int_laws, parts (d.units-sub (d.add e.frozen a) a), parts (d.units-add e.frozen a)),
        )
