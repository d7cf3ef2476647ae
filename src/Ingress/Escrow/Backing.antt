-- ===== src/Ingress/Escrow/Backing.antt =====
-- Spend rights against frozen funds in crates/openmatch-ingress/src/escrow.rs.
use openmatch.Base.{
  ℕ, ◌≡◌, refl, Bool, true, false, none, some, ◌&&◌, nat_eq, string_eq, pair_eq, ℤ, pos, ◌+ℤ◌,
  int_laws, parts, if◌then◌else◌, Bool-cases, inl, inr, sym, [],
}
use openmatch.Decimal.{Decimal}
use openmatch.Map.{Map, lookup, insert}
use openmatch.Map.Sum.{total, total-insert}
use openmatch.Types.{
  active, SpendRightState, OrderId, UserId, SpendRightId, EpochId, NodeId, Asset, SpendRight,
  is_active_state, BalanceEntry, released,
}
use openmatch.Accounts
use openmatch.Accounts.{Accounts, Key, key_eq, freeze_entry, unfreeze_entry}
use openmatch.Accounts.Cases.{freeze-Writes, balance-insert, balance_same, balance_found}
use openmatch.Ingress.Escrow.Cases.{release_cases, is_active_state-active}
use openmatch.Ingress.Escrow.{EscrowManager, new_escrow, minted, mint, release}

module _ {D : Type 0} ⦃d : Decimal D⦄ where
  -- What a spend right in a state that `counts` locks of an account: its amount.
  abbrev pub locked : (SpendRightState → Bool) → Key → SpendRightId → SpendRight D → ℤ
  locked counts k i sr =
      if counts sr.state && key_eq (sr.user_id, sr.asset) k then d.units sr.amount else pos 0

  -- In every account, the frozen funds are the sum of its spend rights whose state `counts`.
  abbrev pub IsBackedBy : (SpendRightState → Bool) → EscrowManager D → Type 0
  IsBackedBy counts s =
      (k : Key)
      → total (locked counts k) s.spend_rights ≡ d.units (Accounts.balance k s.accounts).frozen

  -- In every account, the frozen funds are the sum of its active spend rights.
  abbrev IsBacked : EscrowManager D → Type 0
  IsBacked = IsBackedBy is_active_state

  -- A write of one entry moves the frozen funds of its own key only.
  frozen-insert :
      (j k : Key) (e : BalanceEntry D) (m : Accounts D)
      → d.units (Accounts.balance j (insert k e m)).frozen
          +ℤ (if key_eq k j then d.units (Accounts.balance k m).frozen else pos 0)
        ≡ d.units (Accounts.balance j m).frozen +ℤ (if key_eq k j then d.units e.frozen else pos 0)
  frozen-insert j k e m = elim (Bool-cases (key_eq k j)) [
    | inl same ↦ rw (balance-insert j k e m, same, balance_same j k m same) (omega int_laws)
    | inr other ↦ rw (balance-insert j k e m, other) (omega int_laws)
  ]

  -- What a write of `amount` for the key `k` adds at the key `j`.
  abbrev at_key : Key → Key → D → ℤ
  at_key k j a = if key_eq k j then d.units a else pos 0

  -- A new active right against the same amount newly frozen.
  back_freeze :
      (w : SpendRightId → SpendRight D → ℤ) (j k : Key) (a : D) (e : BalanceEntry D)
      (m : Accounts D) (i : SpendRightId) (sr : SpendRight D)
      (rights : Map SpendRightId (SpendRight D))
      → lookup k m ≡ some e
      → lookup i rights ≡ none
      → w i sr ≡ at_key k j a
      → total (w) rights ≡ d.units (Accounts.balance j m).frozen
      → total (w) (insert i sr rights)
        ≡ d.units (Accounts.balance j (insert k (freeze_entry a e) m)).frozen
  back_freeze w j k a e m i sr rights old new lk h =
      let t = rw new at (total-insert (w) i sr rights) in
      let f = rw (balance_found k m old) at (frozen-insert j k (freeze_entry a e) m) in
      elim (Bool-cases (key_eq k j)) [
        | inl same ↦ omega (
          int_laws,
          parts t,
          parts (rw same at f),
          parts (rw same at lk),
          parts h,
          parts (d.units-add e.frozen a),
        )
        | inr other ↦
            omega (int_laws, parts t, parts (rw other at f), parts (rw other at lk), parts h)
      ]

  -- A right that is closed against the same amount unfrozen.
  back_unfreeze :
      (w : SpendRightId → SpendRight D → ℤ) (j k : Key) (a : D) (e : BalanceEntry D)
      (m : Accounts D) (i : SpendRightId) (sr sr' : SpendRight D)
      (rights : Map SpendRightId (SpendRight D))
      → lookup k m ≡ some e
      → lookup i rights ≡ some sr
      → w i sr ≡ at_key k j a
      → w i sr' ≡ pos 0
      → total (w) rights ≡ d.units (Accounts.balance j m).frozen
      → total (w) (insert i sr' rights)
        ≡ d.units (Accounts.balance j (insert k (unfreeze_entry a e) m)).frozen
  back_unfreeze w j k a e m i sr sr' rights old found lk lk' h =
      let t = rw found at (total-insert (w) i sr' rights) in
      let f = rw (balance_found k m old) at (frozen-insert j k (unfreeze_entry a e) m) in
      elim (Bool-cases (key_eq k j)) [
        | inl same ↦ omega (
          int_laws,
          parts t,
          parts (rw same at f),
          parts (rw same at lk),
          parts lk',
          parts h,
          parts (d.units-sub e.frozen a),
        )
        | inr other ↦
            omega
              (int_laws, parts t, parts (rw other at f), parts (rw other at lk), parts lk', parts h)
      ]

  module _ (counts : SpendRightState → Bool) (when_active : counts active ≡ true)
      (when_released : counts released ≡ false) where
    pub mint-IsBackedBy :
        (sr_id : SpendRightId) (now : ℕ) (order_id : OrderId) (user : UserId) (asset : Asset)
        (a : D) (epoch : EpochId) (s : EscrowManager D)
        → lookup sr_id s.spend_rights ≡ none
        → IsBackedBy counts s
        → IsBackedBy counts (mint sr_id now order_id user asset a epoch s).1
    unfolding mint
    mint-IsBackedBy sr_id now order_id user asset a epoch s fresh h j =
        elim (freeze-Writes (user, asset) a s.accounts) [
          | inl (x, failed) ↦ rw failed (h j)
          | inr (e, old, enough, done) ↦ rw done (
              back_freeze (locked counts j) j (user, asset) a e s.accounts sr_id
                (minted sr_id now order_id user asset a epoch s) s.spend_rights old fresh
                (rw when_active) (h j))
        ]

    pub release-IsBackedBy :
        (i : SpendRightId) (s : EscrowManager D)
        → IsBackedBy counts s
        → IsBackedBy counts (release i s).1
    release-IsBackedBy i s h j = elim (release_cases i s) [
      | inl (x, failed) ↦ rw failed (h j)
      | inr (sr, e, found, live, old, enough, done) ↦ rw done (
          back_unfreeze (locked counts j) j (sr.user_id, sr.asset) sr.amount e s.accounts i sr
            (record sr { state = released }) s.spend_rights old found
            (rw (is_active_state-active sr.state live, when_active)) (rw when_released) (h j))
    ]

  -- If in every account the frozen funds are the sum of its active spend rights, so they are after a
  -- mint under an id that no right has, whether it succeeds or fails.
  mint-IsBacked :
      (sr_id : SpendRightId) (now : ℕ) (order_id : OrderId) (user : UserId) (asset : Asset) (a : D)
      (epoch : EpochId) (s : EscrowManager D)
      → lookup sr_id s.spend_rights ≡ none
      → IsBacked s
      → IsBacked (mint sr_id now order_id user asset a epoch s).1
  mint-IsBacked = mint-IsBackedBy is_active_state refl refl

  -- If in every account the frozen funds are the sum of its active spend rights, so they are after a
  -- release, whether it succeeds or fails.
  release-IsBacked :
      (i : SpendRightId) (s : EscrowManager D) → IsBacked s → IsBacked (release i s).1
  release-IsBacked = release-IsBackedBy is_active_state refl refl

new_escrow-IsBacked :
    (D : Type 0) ⦃d : Decimal D⦄ (node : NodeId) (n : ℕ) → IsBacked (new_escrow {D = D} node [] n)
unfolding Accounts.balance
new_escrow-IsBacked D ⦃d⦄ node n k = sym d.units-zero
