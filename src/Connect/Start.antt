-- ===== src/Connect/Start.antt =====
-- Run and RunTcp of connect/connect.go from the configuration: up to the point where the server
-- begins to listen for connections. The goroutines that it starts are a list; that memory runs out is
-- not part of it. A logic client is what client.NewXClient gives, a parameter.
use zhibo.Prelude.{
  ℕ, zero, suc, Bool, false, ◌&&◌, ◌||◌, leb, ℤ, pos, negsuc, Bytes, codes, Option, none, some,
  List, ◌++◌, ◌==◌, if◌then◌else◌,
}
use zhibo.Config.{Config, ConnectBucket}
use zhibo.Connect.Bucket.{BucketOptions, Outcome, done, waits, panics}
use zhibo.Connect.Server.{State}
use zhibo.Connect.System.Start
use zhibo.Logic.Exec.{Result, ok, err}
use zhibo.Registry.{Started, init_connect_websocket_rpc_server, init_connect_tcp_rpc_server}

-- A size given to make for a map: a hint, which a negative number does not raise.
abbrev pub hint : ℤ → ℕ
hint (pos n) = n
hint (negsuc n) = 0

-- NewBucket's options, where the capacity of the channels is `size`.
abbrev pub options_of : ConnectBucket → ℕ → BucketOptions
options_of c size = record {
  channel_size = hint c.channel;
  room_size = hint c.room;
  routine_amount = c.routine_amount;
  routine_size = size;
}

-- The lengths of a slice of pointers and the capacities of a channel of pointers that make has
-- room for: it panics on those that are larger, and on negative ones.
pub record MakeLimits : Type 0 where
  pub slice : ℕ
  pub buffer : ℕ

abbrev pub has_room : ℕ → ℤ → Bool
has_room most (pos n) = leb n most
has_room most (negsuc n) = false

-- `make([]chan, RoutineAmount)` in NewBucket, and the channel that it makes for each routine.
abbrev pub routine_capacity : MakeLimits → ConnectBucket → Outcome BucketOptions
routine_capacity m c =
    if leb c.routine_amount m.slice && (c.routine_amount == 0 || has_room m.buffer c.routine_size)
    then done (options_of c (hint c.routine_size))
    else panics

-- `make([]*Bucket, CpuNum)` and the loop over it.
unfoldable pub make_buckets : MakeLimits → ConnectBucket → ℤ → Outcome (ℕ × BucketOptions)
make_buckets m c (negsuc n) = panics
make_buckets m c (pos zero) = done (0, options_of c (hint c.routine_size))
make_buckets m c (pos (suc n)) =
    let made : Outcome (ℕ × BucketOptions) = elim (routine_capacity m c) [
      | done o ↦ done (suc n, o)
      | waits ↦ waits
      | panics ↦ panics
    ] in
    if leb (suc n) m.slice then made else panics

-- ServerOptions; a duration is in seconds.
pub record ServerOptions : Type 0 where
  pub write_wait : ℕ
  pub pong_wait : ℕ
  pub ping_period : ℕ
  pub max_message_size : ℕ
  pub read_buffer_size : ℕ
  pub write_buffer_size : ℕ
  pub broadcast_size : ℕ

abbrev pub server_options : ServerOptions
server_options = record {
  write_wait = 10;
  pong_wait = 60;
  ping_period = 54;
  max_message_size = 512;
  read_buffer_size = 1024;
  write_buffer_size = 1024;
  broadcast_size = 512;
}

-- `rpc_servers` are the goroutines that Run started to create its RPC servers; whether these run, and
-- end the process where etcd refuses a plugin, is `create_all` of Registry.
pub record Running (C : Type 0) : Type 0 where
  pub logic_rpc_client : C
  pub state : State
  pub server_id : Bytes
  pub rpc_servers : List (Bytes × Bytes)

module _ {C : Type 0} (m : MakeLimits) where
  unfoldable pub init_logic_rpc_client : Option C → Result C
  init_logic_rpc_client none = err (codes "get rpc client nil")
  init_logic_rpc_client (some c) = ok c

  abbrev pub announce : C → Bytes → State → Started → Outcome (Running C)
  announce c id s started = elim started.panicked [
    | none ↦
        done (record {
          logic_rpc_client = c;
          state = s;
          server_id = id;
          rpc_servers = started.servers;
        })
    | some e ↦ panics
  ]

  abbrev pub start_server : C → Bytes → Outcome (ℕ × BucketOptions) → Started → Outcome (Running C)
  start_server c id panics started = panics
  start_server c id waits started = waits
  start_server c id (done (cpu_num, options)) started =
      announce c id (Start.run cpu_num options server_options.broadcast_size) started

  abbrev pub start_with : Bytes → Bytes → Config → Started → Result C → Outcome (Running C)
  start_with kind uuid conf started (err e) = panics
  start_with kind uuid conf started (ok c) =
      start_server c (kind ++ codes "-" ++ uuid)
        (make_buckets m conf.connect.connect_bucket conf.connect.connect_bucket.cpu_num) started

  -- Connect.Run; `uuid` is uuid.New().
  unfoldable pub run : Option C → Bytes → Config → Outcome (Running C)
  unfolding make_buckets init_logic_rpc_client init_connect_websocket_rpc_server
  run client uuid conf =
      start_with (codes "ws") uuid conf (init_connect_websocket_rpc_server conf)
        (init_logic_rpc_client client)

  -- Connect.RunTcp
  unfoldable pub run_tcp : Option C → Bytes → Config → Outcome (Running C)
  unfolding make_buckets init_logic_rpc_client init_connect_tcp_rpc_server
  run_tcp client uuid conf =
      start_with (codes "tcp") uuid conf (init_connect_tcp_rpc_server conf)
        (init_logic_rpc_client client)
