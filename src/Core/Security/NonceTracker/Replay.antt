-- ===== src/Core/Security/NonceTracker/Replay.antt =====
-- Replays and quotas of the tracker of crates/openmatch-core/src/security.rs.
use openmatch.Base.{
  ℕ, ◌≤◌, ◌≡◌, ◌≢◌, ◌⊎◌, refl, String, List, [], ◌∷◌, All, true, false, ok, err, arith, contains,
  set_insert, length, leb, Bool-cases, inl, inr, bytes_key_eq, ◌=?◌, if◌then◌else◌, beq_refl,
}
use openmatch.Map.{lookup-insert, lookup-remove}
use openmatch.Types.{NodeId, nonce_replay}
use openmatch.Core.Security.NonceTracker.{
  NonceTracker, nonces_of, set_nonces, check_and_record, clear_node, clear_all, Call, check_call,
  clear_node_call, clear_all_call, apply, run,
}

nonces_of-set_nonces :
    (a b : NodeId) (ns : List ℕ) (t : NonceTracker)
    → nonces_of a (set_nonces b ns t) ≡ (if b =? a then ns else nonces_of a t)
nonces_of-set_nonces a b ns t = ground (arith, lookup-insert a b ns t.used_nonces)

nonces_of-set_nonces_self :
    (a b : NodeId) (t : NonceTracker) → nonces_of a (set_nonces b (nonces_of b t) t) ≡ nonces_of a t
nonces_of-set_nonces_self a b t =
    ground (arith, nonces_of-set_nonces a b (nonces_of b t) t, bytes_key_eq.beq_iff b a)

nonces_of-clear_node :
    (a b : NodeId) (t : NonceTracker)
    → nonces_of a (clear_node b t) ≡ (if b =? a then [] else nonces_of a t)
unfolding clear_node
nonces_of-clear_node a b t = ground (arith, lookup-remove a b t.used_nonces)

module _ (D : Type 0) (hex : NodeId → String) where
  -- A check refuses and leaves every set as it was, or it adds the nonce to a set with room.
  check_cases :
      (node : NodeId) (nonce : ℕ) (t : NonceTracker)
      → (((check_and_record {D = D} hex node nonce t).0 ≢ ok tt)
          × ((check_and_record {D = D} hex node nonce t).1 ≡ set_nonces node (nonces_of node t) t))
        ⊎ ((contains nonce (nonces_of node t) ≡ false)
            × (leb t.max_per_node (length (nonces_of node t)) ≡ false)
            × ((check_and_record {D = D} hex node nonce t).1
                ≡ set_nonces node (set_insert nonce (nonces_of node t)) t))
  unfolding check_and_record
  check_cases node nonce t = elim (Bool-cases (contains nonce (nonces_of node t))) [
    | inl used ↦ inl (rw (used, check_and_record) (λ h. cc, refl))
    | inr fresh ↦ elim (Bool-cases (leb t.max_per_node (length (nonces_of node t)))) [
      | inl full ↦ inl (rw (fresh, full, check_and_record) (λ h. cc, refl))
      | inr room ↦ inr (fresh, room, rw (fresh, room, check_and_record))
    ]
  ]

  check-max_per_node :
      (node : NodeId) (nonce : ℕ) (t : NonceTracker)
      → (check_and_record {D = D} hex node nonce t).1.max_per_node ≡ t.max_per_node
  check-max_per_node node nonce t = elim (check_cases node nonce t) [
    | inl (refused, same) ↦ rw same
    | inr (fresh, room, recorded) ↦ rw recorded
  ]

  -- A nonce that a node has used stays used whatever is checked.
  check_keeps :
      (a node : NodeId) (n nonce : ℕ) (t : NonceTracker)
      → contains n (nonces_of a t) ≡ true
      → contains n (nonces_of a (check_and_record {D = D} hex node nonce t).1) ≡ true
  check_keeps a node n nonce t used = elim (check_cases node nonce t) [
    | inl (refused, same) ↦ rw same (rw (nonces_of-set_nonces_self a node t) used)
    | inr (fresh, room, recorded) ↦ rw recorded (
        ground (
          arith,
          nonces_of-set_nonces a node (set_insert nonce (nonces_of node t)) t,
          bytes_key_eq.beq_iff node a,
        ))
  ]

  -- An accepted nonce is in the set of its node.
  check_records :
      (node : NodeId) (nonce : ℕ) (t : NonceTracker)
      → (check_and_record {D = D} hex node nonce t).0 ≡ ok tt
      → contains nonce (nonces_of node (check_and_record {D = D} hex node nonce t).1) ≡ true
  check_records node nonce t accepted = elim (check_cases node nonce t) [
    | inl (refused, same) ↦ absurd (refused accepted)
    | inr (fresh, room, recorded) ↦ rw recorded (
        ground (
          arith,
          nonces_of-set_nonces node node (set_insert nonce (nonces_of node t)) t,
          beq_refl node,
        ))
  ]

  check_refuses :
      (node : NodeId) (nonce : ℕ) (t : NonceTracker)
      → contains nonce (nonces_of node t) ≡ true
      → (check_and_record {D = D} hex node nonce t).0 ≡ err (nonce_replay (hex node) nonce)
  unfolding check_and_record
  check_refuses node nonce t used = rw (check_and_record, used)

-- Calls that leave the nonces of a node alone or add to them.
abbrev Spares : NodeId → Call → Type 0
Spares a (check_call node nonce) = Unit
Spares a (clear_node_call node) = (node =? a) ≡ false
Spares a clear_all_call = ⊥

module _ (hex : NodeId → String) where
  run_keeps :
      (a : NodeId) (n : ℕ) (cs : List Call) (t : NonceTracker)
      → All (Spares a) cs
      → contains n (nonces_of a t) ≡ true
      → contains n (nonces_of a (run hex cs t)) ≡ true
  unfolding run apply
  run_keeps a n [] t spared used = used
  run_keeps a n (check_call node nonce ∷ cs) t (u, spared) used =
      run_keeps a n cs (check_and_record {D = Unit {0}} hex node nonce t).1 spared
        (check_keeps (Unit {0}) hex a node n nonce t used)
  run_keeps a n (clear_node_call node ∷ cs) t (other, spared) used =
      run_keeps a n cs (clear_node node t) spared
        (rw (nonces_of-clear_node a node t) (ground arith))
  run_keeps a n (clear_all_call ∷ cs) t (never, spared) used = elim never [ ]

  -- A nonce of a node that was accepted once is refused as a replay, whatever is checked or cleared
  -- in between, as long as the nonces of that node are not cleared.
  pub no_replay :
      {D : Type 0} (node : NodeId) (nonce : ℕ) (cs : List Call) (t : NonceTracker)
      → (check_and_record {D = D} hex node nonce t).0 ≡ ok tt
      → All (Spares node) cs
      → let t2 = run hex cs (check_and_record {D = D} hex node nonce t).1 in
        (check_and_record {D = D} hex node nonce t2).0 ≡ err (nonce_replay (hex node) nonce)
  no_replay {D} node nonce cs t accepted spared =
      let t1 = (check_and_record {D = D} hex node nonce t).1 in
      check_refuses D hex node nonce (run hex cs t1)
        (run_keeps node nonce cs t1 spared (check_records D hex node nonce t accepted))

  -- No node has more nonces than the quota.
  abbrev IsBounded : NonceTracker → Type 0
  IsBounded t = (a : NodeId) → length (nonces_of a t) ≤ t.max_per_node

  check-IsBounded :
      (node : NodeId) (nonce : ℕ) (t : NonceTracker)
      → IsBounded t
      → IsBounded (check_and_record {D = Unit {0}} hex node nonce t).1
  check-IsBounded node nonce t b a = elim (check_cases (Unit {0}) hex node nonce t) [
    | inl (refused, same) ↦ rw same (rw (nonces_of-set_nonces_self a node t) (b a))
    | inr (fresh, room, recorded) ↦
        rw recorded
          (ground (arith, nonces_of-set_nonces a node (set_insert nonce (nonces_of node t)) t, b a))
  ]

  clear_node-IsBounded :
      (node : NodeId) (t : NonceTracker) → IsBounded t → IsBounded (clear_node node t)
  unfolding clear_node
  clear_node-IsBounded node t b a = ground (arith, nonces_of-clear_node a node t, b a)

  -- If no node has more nonces than the quota, none has after any checks and clears.
  run-IsBounded : (cs : List Call) (t : NonceTracker) → IsBounded t → IsBounded (run hex cs t)
  unfolding run apply clear_all
  run-IsBounded [] t b = b
  run-IsBounded (check_call node nonce ∷ cs) t b =
      run-IsBounded cs (check_and_record {D = Unit {0}} hex node nonce t).1
        (check-IsBounded node nonce t b)
  run-IsBounded (clear_node_call node ∷ cs) t b =
      run-IsBounded cs (clear_node node t) (clear_node-IsBounded node t b)
  run-IsBounded (clear_all_call ∷ cs) t b = run-IsBounded cs (clear_all t) λ a. omega arith
