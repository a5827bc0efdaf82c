-- ===== src/Config.antt =====
-- The configuration (fusion-config/src/lib.rs). Reading a file and parsing TOML are parameters, which
-- fail by `none`.
use Prim.Native.String.{String}
use fusion_zksnark_circle.Base.{ℕ, Option, ◌>>=◌, unwrap}

pub record Config : Type 0 where
  pub circuit_path : String
  pub circuit_abi_path : String
  pub proving_key_path : String
  pub database_path : String
  pub eth_rpc_url : String
  pub eth_private_key : String
  pub min_tx_block : ℕ
  pub socket_address : String
  pub socket_port : ℕ
  pub fusion_l1_contract : ℕ

-- `impl Default for Config`
abbrev pub default_config : Config
default_config = record {
  circuit_path = "../circuits/out";
  circuit_abi_path = "../circuits/abi.json";
  proving_key_path = "../circuits/proving.key";
  database_path = "./db";
  eth_rpc_url = "http://localhost:8545";
  eth_private_key = "";
  min_tx_block = 1;
  socket_address = "127.0.0.1";
  socket_port = 38171;
  fusion_l1_contract = 0;
}

module _ (read_to_string : String → Option String) (from_str : String → Option Config) where
  unfoldable pub from_file : String → Option Config
  from_file path = do
    config_file_str ← unwrap (read_to_string path)
    unwrap (from_str config_file_str)
