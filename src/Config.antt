-- ===== src/Config.antt =====
-- config/config.go: what the configuration holds, and the mode. Viper, which fills it from the files
-- of config/dev and config/prod, is a library.
pub mod Load
use zhibo.Prelude.{ℕ, ℤ, Bytes, codes, str_eq, is_empty, Bool, if◌then◌else◌}

pub record CommonEtcd : Type 0 where
  pub host : Bytes
  pub base_path : Bytes
  pub server_path_logic : Bytes
  pub server_path_connect : Bytes

pub record CommonRedis : Type 0 where
  pub redis_address : Bytes
  pub redis_password : Bytes
  pub db : ℤ

pub record Common : Type 0 where
  pub common_etcd : CommonEtcd
  pub common_redis : CommonRedis

pub record ConnectBase : Type 0 where
  pub cert_path : Bytes
  pub key_path : Bytes

pub record ConnectRpcAddressWebsockts : Type 0 where
  pub address : Bytes

pub record ConnectRpcAddressTcp : Type 0 where
  pub address : Bytes

-- RoutineAmount is a uint64.
pub record ConnectBucket : Type 0 where
  pub cpu_num : ℤ
  pub channel : ℤ
  pub room : ℤ
  pub srv_proto : ℤ
  pub routine_amount : ℕ
  pub routine_size : ℤ

pub record ConnectWebsocket : Type 0 where
  pub server_id : Bytes
  pub bind : Bytes

pub record ConnectTcp : Type 0 where
  pub server_id : Bytes
  pub bind : Bytes
  pub send_buf : ℤ
  pub receive_buf : ℤ
  pub keep_alive : Bool
  pub reader : ℤ
  pub read_buf : ℤ
  pub read_buf_size : ℤ
  pub writer : ℤ
  pub writer_buf : ℤ
  pub writer_buf_size : ℤ

pub record ConnectConfig : Type 0 where
  pub connect_base : ConnectBase
  pub connect_rpc_address_web_sockts : ConnectRpcAddressWebsockts
  pub connect_rpc_address_tcp : ConnectRpcAddressTcp
  pub connect_bucket : ConnectBucket
  pub connect_websocket : ConnectWebsocket
  pub connect_tcp : ConnectTcp

pub record LogicBase : Type 0 where
  pub server_id : Bytes
  pub cpu_num : ℤ
  pub rpc_address : Bytes
  pub cert_path : Bytes
  pub key_path : Bytes

pub record LogicConfig : Type 0 where
  pub logic_base : LogicBase

pub record TaskBase : Type 0 where
  pub cpu_num : ℤ
  pub redis_addr : Bytes
  pub redis_password : Bytes
  pub rpc_address : Bytes
  pub push_chan : ℤ
  pub push_chan_size : ℤ

pub record TaskConfig : Type 0 where
  pub task_base : TaskBase

pub record ApiBase : Type 0 where
  pub listen_port : ℤ

pub record ApiConfig : Type 0 where
  pub api_base : ApiBase

pub record SiteBase : Type 0 where
  pub listen_port : ℤ

pub record SiteConfig : Type 0 where
  pub site_base : SiteBase

pub record Config : Type 0 where
  pub common : Common
  pub connect : ConnectConfig
  pub logic : LogicConfig
  pub task : TaskConfig
  pub api : ApiConfig
  pub site : SiteConfig

-- GetMode; `env` is os.Getenv("RUN_MODE").
abbrev pub get_mode : Bytes → Bytes
get_mode env = if is_empty env then codes "dev" else env

-- GetGinRunMode
abbrev pub get_gin_run_mode : Bytes → Bytes
get_gin_run_mode env =
    if str_eq (get_mode env) (codes "dev")
    then codes "debug"
    else if str_eq (get_mode env) (codes "test")
    then codes "debug"
    else if str_eq (get_mode env) (codes "prod")
    then codes "release"
    else codes "release"
