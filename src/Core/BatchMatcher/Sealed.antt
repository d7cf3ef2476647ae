-- ===== src/Core/BatchMatcher/Sealed.antt =====
-- From the buffer to the trades (crates/openmatch-core/src/pending_buffer.rs and
-- crates/openmatch-core/src/batch_matcher.rs).
use openmatch.Base.{Returns, ℕ, ◌≡◌, refl, List, some, ok, err, true, false, pos, ◌≤ℤ◌}
use openmatch.Decimal.{Decimal}
use openmatch.Sort.{sort_by}
use openmatch.Sort.Laws.{sort_by-All}
use openmatch.Types.{Order, Reason, matching_failed}
use openmatch.Core.PendingBuffer.{PendingBuffer, seal, take_orders, comes_before, hash_of}
use openmatch.Core.Clearing.Sums.{NoneNegative}
use openmatch.Core.BatchMatcher.{BatchMatcher, match_batch}
use openmatch.Core.BatchMatcher.Results.{IsRight, Succeeds, match_batch-Returns}

module _ {D : Type 0} ⦃d : Decimal D⦄ (sha256 : List ℕ → List ℕ) (clock : ℕ → ℕ)
    (m : BatchMatcher) where
  -- A buffer that is not sealed is not matched. Sealing it succeeds with the hash of its sorted orders,
  -- and if no order has a negative quantity left, matching the sealed buffer then returns a result for
  -- the batch and that hash, right for the sorted orders: its trades are legal, of positive
  -- quantities, and do not overfill an order.
  pub seal-match_batch :
      (b : PendingBuffer D)
      → b.sealed ≡ false
      → NoneNegative b.orders
      → let sorted = sort_by comes_before b.orders in
        let hash = hash_of sha256 b.batch_id sorted in
        let (r, s) = seal sha256 b in
        (match_batch sha256 clock b m
          ≡ some (err (matching_failed (Reason.text "Cannot take orders from unsealed buffer"))))
        × (r ≡ ok hash)
        × Returns
            (Succeeds (λ q. IsRight sorted q × (q.batch_id ≡ b.batch_id) × (q.input_hash ≡ hash)))
            (match_batch sha256 clock s m)
  unfolding seal match_batch take_orders
  seal-match_batch b unsealed nonneg =
      let sorted = sort_by comes_before b.orders in
      let hash = hash_of sha256 b.batch_id sorted in
      let s : PendingBuffer D = record b {
        orders = sorted;
        sealed = true;
        batch_hash = some hash;
      } in
      (
        rw (match_batch, take_orders, unsealed),
        rw (seal, unsealed),
        rw (seal, unsealed)
            (match_batch-Returns sha256 clock s m hash refl refl (
              sort_by-All comes_before (λ (o : Order D). pos 0 ≤ℤ d.units o.remaining_qty) b.orders
                nonneg)),
      )
