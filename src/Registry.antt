-- ===== src/Registry.antt =====
-- How a server of the logic or the connect layer announces where it is called: InitRpcServer,
-- createRpcServer and addRegistryPlugin of logic/publish.go, and the same functions for websockets
-- and for TCP in connect/rpc.go. The rpcx server and its etcd plugin are a library: a parameter.
pub mod Binds
use zhibo.Prelude.{
  ℕ, Bytes, codes, Option, none, some, List, [], ◌∷◌, ◌++◌, ◌==◌, if◌then◌else◌, ◌≡◌, refl, ap, ◌∙◌,
}
use zhibo.Config.{Config, CommonEtcd}
use zhibo.Connect.Bucket.{Outcome, done, panics}
use zhibo.Logic.Exec.{Result, ok, err}
use zhibo.Network.{parse_network}

-- strings.Split by a separator of one byte.
abbrev pub prepend : ℕ → List Bytes → List Bytes
prepend x [] = (x ∷ []) ∷ []
prepend x (f ∷ fs) = (x ∷ f) ∷ fs

unfoldable pub split_by : ℕ → Bytes → List Bytes
split_by c [] = [] ∷ []
split_by c (x ∷ xs) = if x == c then [] ∷ split_by c xs else prepend x (split_by c xs)

-- The goroutines `go createRpcServer(network, addr)` that a function started, and how it ended: with
-- the message of logrus.Panicf, where there is one.
pub record Started : Type 0 where
  pub servers : List (Bytes × Bytes)
  pub panicked : Option Bytes

abbrev pub also : Bytes × Bytes → Started → Started
also server s = record s { servers = server ∷ s.servers }

-- One address of the loop, when the rest of the loop starts `rest`.
abbrev pub bind_one : Bytes → Result (Bytes × Bytes) → Started → Started
bind_one where_ (ok server) rest = also server rest
bind_one where_ (err e) rest = record {
  servers = [];
  panicked = some (where_ ++ codes " ParseNetwork error : " ++ e);
}

-- The loops over the addresses; `where_` is the first word of the message.
unfoldable pub bind_each : Bytes → List Bytes → Started
bind_each where_ [] = record { servers = []; panicked = none }
bind_each where_ (bind ∷ binds) = bind_one where_ (parse_network bind) (bind_each where_ binds)

-- Logic.InitRpcServer
unfoldable pub init_rpc_server : Config → Started
unfolding bind_each split_by
init_rpc_server conf =
    bind_each (codes "InitLogicRpc") (split_by b',' conf.logic.logic_base.rpc_address)

-- Connect.InitConnectWebsocketRpcServer
unfoldable pub init_connect_websocket_rpc_server : Config → Started
unfolding bind_each split_by
init_connect_websocket_rpc_server conf =
    bind_each (codes "InitConnectWebsocketRpcServer")
      (split_by b',' conf.connect.connect_rpc_address_web_sockts.address)

-- Connect.InitConnectTcpRpcServer
unfoldable pub init_connect_tcp_rpc_server : Config → Started
unfolding bind_each split_by
init_connect_tcp_rpc_server conf =
    bind_each (codes "InitConnectTcpRpcServer")
      (split_by b',' conf.connect.connect_rpc_address_tcp.address)

-- What addRegistryPlugin sets of serverplugin.EtcdV3RegisterPlugin; the metrics and the interval
-- are the same everywhere.
pub record EtcdV3RegisterPlugin : Type 0 where
  pub service_address : Bytes
  pub etcd_servers : List Bytes
  pub base_path : Bytes

-- The rpcx library over a state `W`: the start of a plugin, RegisterName of a server with the plugin
-- for a service path with metadata, and Serve.
pub record Rpcx (W : Type 0) : Type 0 where
  pub start : EtcdV3RegisterPlugin → W → Option Bytes × W
  pub register_name : EtcdV3RegisterPlugin → Bytes → Bytes → W → Option Bytes × W
  pub serve : Bytes → Bytes → W → W

abbrev pub registry_plugin : CommonEtcd → Bytes → Bytes → EtcdV3RegisterPlugin
registry_plugin etcd network addr = record {
  service_address = network ++ b'@' ∷ addr;
  etcd_servers = etcd.host ∷ [];
  base_path = etcd.base_path;
}

module _ {W : Type 0} (x : Rpcx W) where
  -- addRegistryPlugin: logrus.Fatal ends the process.
  abbrev pub plugin_started :
      EtcdV3RegisterPlugin → Option Bytes × W → Outcome (EtcdV3RegisterPlugin × W)
  plugin_started p (none, w) = done (p, w)
  plugin_started p (some e, w) = panics

  unfoldable pub add_registry_plugin :
      CommonEtcd → Bytes → Bytes → W → Outcome (EtcdV3RegisterPlugin × W)
  add_registry_plugin etcd network addr w =
      plugin_started (registry_plugin etcd network addr)
        (x.start (registry_plugin etcd network addr) w)

  -- The name is registered, an error of that is logged, and the server serves.
  abbrev pub registered :
      Bytes → Bytes → Bytes → Bytes → Outcome (EtcdV3RegisterPlugin × W) → Outcome W
  registered path server_id network addr panics = panics
  registered path server_id network addr Outcome.waits = Outcome.waits
  registered path server_id network addr (done (p, w)) =
      done (x.serve network addr (x.register_name p path server_id w).1)

  -- Logic.createRpcServer
  unfoldable pub create_rpc_server : CommonEtcd → Bytes → Bytes × Bytes → W → Outcome W
  unfolding add_registry_plugin
  create_rpc_server etcd server_id (network, addr) w =
      registered etcd.server_path_logic server_id network addr
        (add_registry_plugin etcd network addr w)

  -- Connect.createConnectWebsocktsRpcServer; createConnectTcpRpcServer has the same text.
  unfoldable pub create_connect_rpc_server : CommonEtcd → Bytes → Bytes × Bytes → W → Outcome W
  unfolding add_registry_plugin
  create_connect_rpc_server etcd server_id (network, addr) w =
      registered etcd.server_path_connect server_id network addr
        (add_registry_plugin etcd network addr w)

  -- The goroutines of a start, in one order in which they may come to run.
  abbrev pub then_create : (W → Outcome W) → Outcome W → Outcome W
  then_create f (done w) = f w
  then_create f Outcome.waits = Outcome.waits
  then_create f panics = panics

  unfoldable pub create_all : CommonEtcd → Bytes → List (Bytes × Bytes) → W → Outcome W
  unfolding create_connect_rpc_server
  create_all etcd id [] w = done w
  create_all etcd id (s ∷ ss) w =
      then_create (create_all etcd id ss) (create_connect_rpc_server etcd id s w)

  -- Where every plugin starts, each goroutine comes to serve.
  plugin-done :
      (p : EtcdV3RegisterPlugin) (t : Option Bytes × W)
      → t.0 ≡ none
      → plugin_started p t ≡ done (p, t.1)
  plugin-done p (none, w) e = refl
  plugin-done p (some message, w) e = cc (e)

module _ {W : Type 0} (x : Rpcx W)
    (starts : (p : EtcdV3RegisterPlugin) (w : W) → (x.start p w).0 ≡ none) where
  pub create-done :
      (etcd : CommonEtcd) (id : Bytes) (s : Bytes × Bytes) (w : W)
      → let p = registry_plugin etcd s.0 s.1 in
        create_connect_rpc_server x etcd id s w
        ≡ done (x.serve s.0 s.1 (x.register_name p etcd.server_path_connect id (x.start p w).1).1)
  unfolding create_connect_rpc_server add_registry_plugin
  create-done etcd id (network, addr) w =
      let p = registry_plugin etcd network addr in
      ap (registered x etcd.server_path_connect id network addr)
        (plugin-done x p (x.start p w) (starts p w))

  pub create_all-done :
      (etcd : CommonEtcd) (id : Bytes) (ss : List (Bytes × Bytes)) (w : W)
      → (v : W) × (create_all x etcd id ss w ≡ done v)
  unfolding create_all
  create_all-done etcd id [] w = (w, refl)
  create_all-done etcd id (s ∷ ss) w =
      let p = registry_plugin etcd s.0 s.1 in
      let u = x.serve s.0 s.1 (x.register_name p etcd.server_path_connect id (x.start p w).1).1 in
      let (v, rest) = create_all-done etcd id ss u in
      (v, ap (then_create x (create_all x etcd id ss)) (create-done etcd id s w) ∙ rest)
