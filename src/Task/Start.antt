-- ===== src/Task/Start.antt =====
-- Run of task/task.go, with the client of InitSubscribeRedisClient in task/subscribe.go and the init
-- of task/push.go, up to the last call. What the subscriber does meanwhile is in Task/Running; before
-- GoPush the push channels are nil, and a send to one of them does not return.
use zhibo.Prelude.{ℕ, ℤ, pos, negsuc, Bytes, List, []}
use zhibo.Config.{Config}
use zhibo.Connect.Bucket.{Outcome, done, waits, panics}
use zhibo.RedisInstance.{RedisOption, Clients, get_redis_instance}
use zhibo.Logic.Start.{redis_option}
use zhibo.Task.Queue.{Queues, go_push}
use zhibo.Task.Clients.{KvPair, init_connect_rpc_client}

-- `make([]chan *PushParams, PushChan)`: how many there are.
abbrev pub push_channels : ℤ → Outcome ℕ
push_channels (pos n) = done n
push_channels (negsuc n) = panics

-- GoPush makes each channel with the capacity, and starts its goroutine.
abbrev pub go_push_with : ℤ → ℕ → Outcome Queues
go_push_with (pos size) n = done (go_push n)
go_push_with (negsuc size) (ℕ.zero) = done []
go_push_with (negsuc size) (ℕ.suc n) = panics

pub record Running (R C : Type 0) : Type 0 where
  pub redis_client : R
  pub redis_clients : Clients R
  pub connect_clients : List (Bytes × C)
  pub queues : Queues

module _ {R C : Type 0} (new_redis : RedisOption → R) (new_client : Bytes → C) where
  -- An error of Ping is logged only, so no error is returned.
  unfoldable pub init_subscribe_redis_client : Config → Clients R → Outcome (R × Clients R)
  unfolding get_redis_instance
  init_subscribe_redis_client conf s = get_redis_instance new_redis (redis_option conf) s

  abbrev pub all_made : R × Clients R → List (Bytes × C) → Outcome Queues → Outcome (Running R C)
  all_made (r, s) cs panics = panics
  all_made (r, s) cs waits = waits
  all_made (r, s) cs (done qs) =
      done (record { redis_client = r; redis_clients = s; connect_clients = cs; queues = qs })

  abbrev pub with_clients :
      Config → ℕ → R × Clients R → Outcome (List (Bytes × C)) → Outcome (Running R C)
  with_clients conf n r panics = panics
  with_clients conf n r waits = waits
  with_clients conf n r (done cs) =
      all_made r cs (go_push_with conf.task.task_base.push_chan_size n)

  abbrev pub with_redis : Config → List KvPair → ℕ → Outcome (R × Clients R) → Outcome (Running R C)
  with_redis conf services n panics = panics
  with_redis conf services n waits = waits
  with_redis conf services n (done r) =
      with_clients conf n r (init_connect_rpc_client new_client services)

  abbrev pub with_channels : Config → List KvPair → Clients R → Outcome ℕ → Outcome (Running R C)
  with_channels conf services s panics = panics
  with_channels conf services s waits = waits
  with_channels conf services s (done n) =
      with_redis conf services n (init_subscribe_redis_client conf s)

  -- `services` is what etcd lists of the connect servers.
  unfoldable pub run : Config → List KvPair → Clients R → Outcome (Running R C)
  unfolding init_subscribe_redis_client init_connect_rpc_client go_push
  run conf services s = with_channels conf services s (push_channels conf.task.task_base.push_chan)
