-- ===== src/Types/Config.antt =====
-- crates/openmatch-types/src/config.rs: the settings of a node and of its markets. The type
-- `A` is that of the socket addresses of the standard library.
use openmatch.Base.{ℕ, List, [], String}
use openmatch.Types.Ids.{NodeId}
use openmatch.Types.Epochs.{EpochConfig}
use openmatch.Types.Constants.{default_gossip_port, default_max_peers, default_max_orders_per_user}
use Prim.Native.String.{◌++◌ as append}

pub record NetworkConfig : Type 0 where
  pub bootstrap_peers : List String
  pub gossip_port : ℕ
  pub max_peers : ℕ

abbrev default_network_config : NetworkConfig
default_network_config = record {
  bootstrap_peers = [];
  gossip_port = default_gossip_port;
  max_peers = default_max_peers;
}

pub record MarketConfig (D : Type 0) : Type 0 where
  pub base : String
  pub quote : String
  pub min_order_size : D
  pub tick_size : D
  pub lot_size : D
  pub max_orders_per_user : ℕ

pub record NodeConfig (A D : Type 0) : Type 0 where
  pub node_id : NodeId
  pub listen_addr : A
  pub data_dir : String
  pub epoch : EpochConfig
  pub network : NetworkConfig
  pub markets : List (MarketConfig D)

-- `MarketConfig::symbol`
unfoldable config_symbol : {D : Type 0} → MarketConfig D → String
config_symbol c = append c.base (append "/" c.quote)

-- `Decimal::new(1, scale)`, an argument of the presets: the decimal 10 ^ -scale
module _ {D : Type 0} (unit_at : ℕ → D) where
  unfoldable btc_usdt : MarketConfig D
  btc_usdt = record {
    base = "BTC";
    quote = "USDT";
    min_order_size = unit_at 5;
    tick_size = unit_at 2;
    lot_size = unit_at 5;
    max_orders_per_user = default_max_orders_per_user;
  }

  unfoldable eth_usdt : MarketConfig D
  eth_usdt = record {
    base = "ETH";
    quote = "USDT";
    min_order_size = unit_at 4;
    tick_size = unit_at 2;
    lot_size = unit_at 4;
    max_orders_per_user = default_max_orders_per_user;
  }
