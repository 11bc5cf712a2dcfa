-- ===== src/Logic/Start.antt =====
-- Run of logic/logic.go, with InitPublishRedisClient of logic/publish.go. A Redis client is a
-- parameter; an error of its Ping is logged, in a variable of its own, and not returned.
use zhibo.Prelude.{Bytes, codes, Option, none, some, List, ◌++◌}
use zhibo.Config.{Config}
use zhibo.Connect.Bucket.{Outcome, done, waits, panics}
use zhibo.RedisInstance.{RedisOption, Clients, get_redis_instance}
use zhibo.Registry.{Started, init_rpc_server}

abbrev pub redis_option : Config → RedisOption
redis_option conf = record {
  address = conf.common.common_redis.redis_address;
  password = conf.common.common_redis.redis_password;
  db = conf.common.common_redis.db;
}

-- Logic, with its clients and what it serves.
pub record Running (C : Type 0) : Type 0 where
  pub server_id : Bytes
  pub redis_client : C
  pub redis_sess_client : C
  pub clients : Clients C
  pub rpc_servers : List (Bytes × Bytes)

module _ {C : Type 0} (new_client : RedisOption → C) where
  -- The error returned, both clients, which are one, and the map of clients.
  abbrev pub both : Outcome (C × Clients C) → Outcome (Option Bytes × C × C × Clients C)
  both (done (c, s)) = done (none, c, c, s)
  both waits = waits
  both panics = panics

  unfoldable pub init_publish_redis_client :
      Config → Clients C → Outcome (Option Bytes × C × C × Clients C)
  unfolding get_redis_instance
  init_publish_redis_client conf s = both (get_redis_instance new_client (redis_option conf) s)

  abbrev pub with_servers : Bytes → C × C × Clients C → Started → Outcome (Running C)
  with_servers id (c, d, s) started = elim started.panicked [
    | none ↦ done (record {
      server_id = id;
      redis_client = c;
      redis_sess_client = d;
      clients = s;
      rpc_servers = started.servers;
    })
    | some e ↦ panics
  ]

  abbrev pub with_redis :
      Bytes → Outcome (Option Bytes × C × C × Clients C) → Started → Outcome (Running C)
  with_redis id waits started = waits
  with_redis id panics started = panics
  with_redis id (done (some e, c, d, s)) started = panics
  with_redis id (done (none, c, d, s)) started = with_servers id (c, d, s) started

  -- `uuid` is uuid.New().
  unfoldable pub run : Bytes → Config → Clients C → Outcome (Running C)
  unfolding init_publish_redis_client init_rpc_server
  run uuid conf s =
      with_redis (codes "logic-" ++ uuid) (init_publish_redis_client conf s) (init_rpc_server conf)
