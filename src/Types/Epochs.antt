-- ===== src/Types/Epochs.antt =====
-- crates/openmatch-types/src/epoch.rs: the phases, the matcher's input and output, the timing.
use openmatch.Base.{ℕ, ◌+◌, Option, List}
use openmatch.Types.Ids.{NodeId, EpochId}
use openmatch.Types.Orders.{Order}
use openmatch.Types.Trades.{Trade}
use openmatch.Types.States.{EpochPhase, collect, seal, match, finalize}
use openmatch.Types.Constants.{
  default_collect_ms, default_seal_ms, default_match_timeout_ms, default_finalize_timeout_ms,
  default_seal_grace_ms,
}

unfoldable pub next_phase : EpochPhase → EpochPhase
next_phase collect = seal
next_phase seal = match
next_phase match = finalize
next_phase finalize = collect

pub record SealedBatch (D : Type 0) : Type 0 where
  pub epoch_id : EpochId
  pub orders : List (Order D)
  pub batch_hash : List ℕ
  pub sealed_at : ℕ
  pub sealer_node : NodeId

pub record TradeBundle (D : Type 0) : Type 0 where
  pub epoch_id : EpochId
  pub trades : List (Trade D)
  pub trade_root : List ℕ
  pub input_hash : List ℕ
  pub clearing_price : Option D
  pub remaining_orders : List (Order D)

pub record BatchDigest : Type 0 where
  pub epoch_id : EpochId
  pub batch_hash : List ℕ
  pub order_count : ℕ
  pub signer_node : NodeId
  pub signature : List ℕ

-- Durations are in milliseconds.
pub record EpochConfig : Type 0 where
  pub collect_duration : ℕ
  pub seal_duration : ℕ
  pub match_timeout : ℕ
  pub finalize_timeout : ℕ
  pub seal_grace : ℕ

abbrev default_epoch_config : EpochConfig
default_epoch_config = record {
  collect_duration = default_collect_ms;
  seal_duration = default_seal_ms;
  match_timeout = default_match_timeout_ms;
  finalize_timeout = default_finalize_timeout_ms;
  seal_grace = default_seal_grace_ms;
}

unfoldable total_duration : EpochConfig → ℕ
total_duration c = c.collect_duration + c.seal_duration + c.match_timeout + c.finalize_timeout
