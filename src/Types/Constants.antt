-- ===== src/Types/Constants.antt =====
-- crates/openmatch-types/src/constants.rs: the limits of the system.
use openmatch.Base.{ℕ, String}

abbrev pub max_orders_per_batch : ℕ
max_orders_per_batch = 100_000

abbrev pub default_collect_ms : ℕ
default_collect_ms = 1000

abbrev pub default_seal_ms : ℕ
default_seal_ms = 200

abbrev pub default_match_timeout_ms : ℕ
default_match_timeout_ms = 500

abbrev pub default_finalize_timeout_ms : ℕ
default_finalize_timeout_ms = 2000

abbrev pub default_seal_grace_ms : ℕ
default_seal_grace_ms = 50

abbrev price_precision : ℕ
price_precision = 8

abbrev qty_precision : ℕ
qty_precision = 8

abbrev default_settle_timeout_ms : ℕ
default_settle_timeout_ms = default_finalize_timeout_ms

abbrev pub default_max_orders_per_user : ℕ
default_max_orders_per_user = 200

abbrev pub default_max_peers : ℕ
default_max_peers = 50

abbrev pub default_gossip_port : ℕ
default_gossip_port = 9944

abbrev default_api_port : ℕ
default_api_port = 8080

abbrev pub max_orders_per_user_per_epoch : ℕ
max_orders_per_user_per_epoch = 50

abbrev order_rate_limit_window_ms : ℕ
order_rate_limit_window_ms = 1000

abbrev order_rate_limit_count : ℕ
order_rate_limit_count = 20

abbrev max_price_deviation_multiplier : ℕ
max_price_deviation_multiplier = 10

abbrev max_nonce_entries_per_node : ℕ
max_nonce_entries_per_node = 100_000

abbrev settlement_idempotency_cache_size : ℕ
settlement_idempotency_cache_size = 500_000

abbrev engine_name : String
engine_name = "OpenMatch"
