-- ===== src/Ingress/PendingBuffer/Laws.antt =====
-- Sequences of pushes to the buffer of crates/openmatch-ingress/src/pending_buffer.rs.
use openmatch.Base.{
  ℕ, ◌+◌, ◌≤◌, ◌<◌, ◌≡◌, refl, sym, ◌∙◌, ap, List, [], ◌∷◌, ◌++◌, true, false, ok, err, length,
  length-append, arith,
}
use mathlib.Core.List.{append-nil, append_assoc}
use openmatch.Types.{Order, buffer_already_sealed}
use openmatch.Ingress.PendingBuffer.{PendingBuffer, with_capacity, push, seal, drain}

module _ {D : Type 0} where
  -- The buffer after a sequence of pushes, each accepted or refused.
  abbrev pub push_all : List (Order D) → PendingBuffer D → PendingBuffer D
  push_all [] b = b
  push_all (o ∷ os) b = push_all os (push o b).1

  push-ok :
      (o : Order D) (b : PendingBuffer D)
      → b.sealed ≡ false
      → length b.orders < b.max_orders
      → push o b ≡ (ok tt, record b { orders = b.orders ++ o ∷ [] })
  unfolding push
  push-ok o b open_buffer room = ground arith

  push_all-ok :
      (os : List (Order D)) (b : PendingBuffer D)
      → b.sealed ≡ false
      → length b.orders + length os ≤ b.max_orders
      → push_all os b ≡ record b { orders = b.orders ++ os }
  push_all-ok [] b h room = ap (λ os. record b { orders = os }) (sym (append-nil b.orders))
  push_all-ok (o ∷ os) b h room = rw (push-ok o b h (omega arith)) (
      push_all-ok os (record b { orders = b.orders ++ o ∷ [] }) h
        (omega (arith, length-append b.orders (o ∷ [])))
      ∙ ap (λ os'. record b { orders = os' }) (append_assoc b.orders (o ∷ []) os))

  -- Orders pushed into an empty open buffer that has room for them come out of the sealed buffer all
  -- and in arrival order; the buffer is then empty and still sealed.
  pub push_all-drain :
      (os : List (Order D)) (n : ℕ)
      → length os ≤ n
      → drain (seal (push_all os (with_capacity n))).1
        ≡ (ok os, record { orders = []; sealed = true; max_orders = n })
  unfolding seal drain
  push_all-drain os n room = rw (push_all-ok os (with_capacity n) refl (omega arith))

  push-IsBounded :
      (o : Order D) (b : PendingBuffer D)
      → length b.orders ≤ b.max_orders
      → length (push o b).1.orders ≤ (push o b).1.max_orders
  unfolding push
  push-IsBounded o b h = ground (arith, length-append b.orders (o ∷ []))

  push-sealed :
      (o : Order D) (b : PendingBuffer D)
      → b.sealed ≡ true
      → push o b ≡ (err buffer_already_sealed, b)
  unfolding push
  push-sealed o b h = ground arith

  -- A sealed buffer is unchanged by any sequence of pushes.
  pub push_all-sealed :
      (os : List (Order D)) (b : PendingBuffer D) → b.sealed ≡ true → push_all os b ≡ b
  push_all-sealed [] b h = refl
  push_all-sealed (o ∷ os) b h = rw (push-sealed o b h) (push_all-sealed os b h)

  -- A buffer within its capacity stays within it, whatever is pushed.
  pub push_all-IsBounded :
      (os : List (Order D)) (b : PendingBuffer D)
      → length b.orders ≤ b.max_orders
      → length (push_all os b).orders ≤ (push_all os b).max_orders
  push_all-IsBounded [] b h = h
  push_all-IsBounded (o ∷ os) b h = push_all-IsBounded os (push o b).1 (push-IsBounded o b h)
