-- ===== src/Tests/Clients.antt =====
-- The addresses of config/dev, and the clients of two connect servers. A client is its address, and
-- a call notes whom it reaches.
use zhibo.Prelude.{Bytes, pos, codes, some, List, [], ◌∷◌, ◌++◌, map, ◌≡◌, refl, false, arith}
use zhibo.Proto.{PushMsgRequest, PushRoomMsgRequest}
use zhibo.Config.{Config}
use zhibo.Connect.Bucket.{done, panics}
use zhibo.Registry.{init_rpc_server}
use zhibo.Registry.Binds.{
  AllBind, join, bind_of, all_started, bind_error, with_rpc_address, init_rpc_server-binds,
}
use zhibo.Task.{Method, PushParams, push_single_to_connect}
use zhibo.Task.Clients.{KvPair, server_id_of, init_connect_rpc_client, clients_of}
use zhibo.Task.Clients.Loaded.{with_load, init_connect_rpc_client-loaded}

abbrev pub dev : Config
dev = record {
  common = record {
    common_etcd = record {
      host = codes "127.0.0.1:2379";
      base_path = codes "/gochat_srv";
      server_path_logic = codes "LogicRpc";
      server_path_connect = codes "ConnectRpc";
    };
    common_redis = record {
      redis_address = codes "127.0.0.1:6379";
      redis_password = [];
      db = pos 0;
    };
  };
  connect = record {
    connect_base = record { cert_path = []; key_path = [] };
    connect_rpc_address_web_sockts = record { address = codes "tcp@0.0.0.0:6912,tcp@0.0.0.0:6913" };
    connect_rpc_address_tcp = record { address = codes "tcp@0.0.0.0:6914,tcp@0.0.0.0:6915" };
    connect_bucket = record {
      cpu_num = pos 4;
      channel = pos 1024;
      room = pos 1024;
      srv_proto = pos 80;
      routine_amount = 32;
      routine_size = pos 20;
    };
    connect_websocket = record { server_id = []; bind = codes "0.0.0.0:7000" };
    connect_tcp = record {
      server_id = [];
      bind = codes "0.0.0.0:7001,0.0.0.0:7002";
      send_buf = pos 4096;
      receive_buf = pos 4096;
      keep_alive = false;
      reader = pos 32;
      read_buf = pos 1024;
      read_buf_size = pos 8192;
      writer = pos 32;
      writer_buf = pos 0;
      writer_buf_size = pos 8192;
    };
  };
  logic = record {
    logic_base = record {
      server_id = [];
      cpu_num = pos 4;
      rpc_address = codes "tcp@127.0.0.1:6900,tcp@127.0.0.1:6901";
      cert_path = [];
      key_path = [];
    };
  };
  task = record {
    task_base = record {
      cpu_num = pos 4;
      redis_addr = codes "localhost:6379";
      redis_password = [];
      rpc_address = codes "tcp@localhost:6923";
      push_chan = pos 2;
      push_chan_size = pos 50;
    };
  };
  api = record { api_base = record { listen_port = pos 7070 } };
  site = record { site_base = record { listen_port = pos 8080 } };
}

abbrev first : Bytes × Bytes
first = (codes "tcp", codes "127.0.0.1:6900")

abbrev second : Bytes × Bytes
second = (codes "tcp", codes "127.0.0.1:6901")

both-AllBind : AllBind (first ∷ second ∷ [])
both-AllBind = (record { network = refl; one = refl }, (record { network = refl; one = refl }, tt))

init_rpc_server-binds_example :
    (init_rpc_server (with_rpc_address dev (join b',' (map bind_of (first ∷ second ∷ []))))
      ≡ all_started (first ∷ second ∷ []))
    × (init_rpc_server (
          with_rpc_address dev (join b',' (map bind_of (first ∷ second ∷ []) ++ codes "6902" ∷ [])))
        ≡ record {
          servers = first ∷ second ∷ [];
          panicked = some (bind_error (codes "InitLogicRpc") (codes "6902"));
        })
init_rpc_server-binds_example =
    init_rpc_server-binds dev first (second ∷ []) (codes "6902") [] both-AllBind refl (refl, tt)

-- A call notes the client's address and the user's message.
abbrev pub noted : Bytes → PushMsgRequest → List (Bytes × Bytes) → List (Bytes × Bytes)
noted c req w = (c, req.msg.body) ∷ w

abbrev pub not_noted :
    Bytes → Method → PushRoomMsgRequest → List (Bytes × Bytes) → List (Bytes × Bytes)
not_noted c m req w = w

abbrev pub tcp_service : KvPair
tcp_service = record { key = codes "tcp@0.0.0.0:6914"; value = codes "tcp-1=&tps=0" }

abbrev pub to_ws : PushParams
to_ws = record { server_id = codes "ws-1"; user_id = pos 7; msg = codes "hi"; room_id = pos 0 }

init_connect_rpc_client-loaded_example :
    (cs : List (Bytes × Bytes)) × (init_connect_rpc_client
        (λ a. a)
        (record { key = codes "tcp@0.0.0.0:6912"; value = with_load (codes "ws-1") b'3' [] }
          ∷ tcp_service
          ∷ [])
      ≡ done cs)
    × (push_single_to_connect (clients_of noted not_noted cs) [] to_ws [] ≡ panics)
unfolding server_id_of
init_connect_rpc_client-loaded_example =
    init_connect_rpc_client-loaded noted not_noted (λ a. a) [] (tcp_service ∷ [])
      (codes "tcp@0.0.0.0:6912") b'3' [] [] to_ws [] refl (ground arith) (ground arith) refl tt
      (refl, tt)
