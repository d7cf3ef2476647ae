-- ===== src/Core/Security/NonceTracker.antt =====
-- `NonceTracker` of crates/openmatch-core/src/security.rs: the nonces that each node has used.
-- `entry(..).or_default()` creates the node's set even if the nonce is then refused. `hex::encode`
-- is a parameter.
pub mod Replay
use openmatch.Base.{
  ℕ, ◌+◌, String, List, [], ◌∷◌, Result, ok, err, contains, set_insert, length, leb, bytes_key_eq,
  if◌then◌else◌,
}
use openmatch.Map.{Map, lookup_or, insert, remove}
use openmatch.Types.{NodeId, OpenmatchError, Reason, nonce_replay, rate_limit_exceeded}

pub record NonceTracker : Type 0 where
  pub used_nonces : Map NodeId (List ℕ)
  pub max_per_node : ℕ

abbrev pub new_tracker : ℕ → NonceTracker
new_tracker n = record { used_nonces = []; max_per_node = n }

abbrev pub nonces_of : NodeId → NonceTracker → List ℕ
nonces_of node t = lookup_or [] node t.used_nonces

abbrev pub set_nonces : NodeId → List ℕ → NonceTracker → NonceTracker
set_nonces node nonces t = record t { used_nonces = insert node nonces t.used_nonces }

unfoldable pub check_and_record :
    {D : Type 0}
    → (NodeId → String)
    → NodeId
    → ℕ
    → NonceTracker
    → Result (OpenmatchError D) (Unit {0}) × NonceTracker
check_and_record hex node nonce t =
    let nonces = nonces_of node t in
    if contains nonce nonces
    then (err (nonce_replay (hex node) nonce), set_nonces node nonces t)
    else if leb t.max_per_node (length nonces)
    then (
      err (rate_limit_exceeded (Reason.nonce_quota_exceeded (hex node) t.max_per_node)),
      set_nonces node nonces t,
    )
    else (ok tt, set_nonces node (set_insert nonce nonces) t)

unfoldable pub clear_node : NodeId → NonceTracker → NonceTracker
clear_node node t = record t { used_nonces = remove node t.used_nonces }

unfoldable pub clear_all : NonceTracker → NonceTracker
clear_all t = record t { used_nonces = [] }

-- `values().map(HashSet::len).sum()`
abbrev sum_lengths : Map NodeId (List ℕ) → ℕ
sum_lengths [] = 0
sum_lengths ((node, nonces) ∷ m) = length nonces + sum_lengths m

unfoldable total_nonces : NonceTracker → ℕ
total_nonces t = sum_lengths t.used_nonces

-- A call that changes the tracker.
pub data Call : Type 0 where
  check_call : NodeId → ℕ → Call
  clear_node_call : NodeId → Call
  clear_all_call : Call

unfoldable pub apply : (NodeId → String) → Call → NonceTracker → NonceTracker
apply hex (check_call node nonce) t = (check_and_record {D = Unit {0}} hex node nonce t).1
apply hex (clear_node_call node) t = clear_node node t
apply hex clear_all_call t = clear_all t

unfoldable pub run : (NodeId → String) → List Call → NonceTracker → NonceTracker
run hex [] t = t
run hex (c ∷ cs) t = run hex cs (apply hex c t)
