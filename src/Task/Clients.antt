-- ===== src/Task/Clients.antt =====
-- InitConnectRpcClient of task/rpc.go: the clients of the connect servers, from the services that
-- etcd lists. The discovery and the clients of rpcx are a library: parameters.
pub mod Found
pub mod Listed
pub mod Loaded
pub mod Announced
use zhibo.Prelude.{
  Bytes, codes, str_eq, str_eq_self, str_eq_sound, Bool, Bool-cases, inl, inr, true, false, Option,
  none, some, List, [], ◌∷◌, ◌++◌, map, is_empty, if◌then◌else◌, ◌==◌, ◌≡◌, refl, sym, ap, ◌∙◌,
  arith, ◌∉◌,
}
use mathlib.Core.List.{append-nil}
use zhibo.Proto.{PushMsgRequest, PushRoomMsgRequest}
use zhibo.Connect.Bucket.{Outcome, done, panics}
use zhibo.RedisInstance.{lookup}
use zhibo.Task.{Method, ConnectClients, member}

-- client.KVPair: the address of a service and the metadata under it.
pub record KvPair : Type 0 where
  pub key : Bytes
  pub value : Bytes

-- What follows `old`, where a text begins with it.
unfoldable pub after_prefix : Bytes → Bytes → Option Bytes
after_prefix [] s = some s
after_prefix (x ∷ old) [] = none
after_prefix (x ∷ old) (y ∷ s) = if x == y then after_prefix old s else none

abbrev pub or_keep : Bytes → Option Bytes → Bytes
or_keep rest none = rest
or_keep rest (some s) = s

-- strings.Replace(s, old, "", 1) for an `old` that is not empty.
unfoldable pub remove_first : Bytes → Bytes → Bytes
unfolding after_prefix
remove_first old [] = []
remove_first old (x ∷ s) =
    let rest = remove_first old s in or_keep (x ∷ rest) (after_prefix old (x ∷ s))

-- `serverId := connectConf.Value`, after the replacement.
abbrev pub no_load : Bytes
no_load = codes "=&tps=0"

unfoldable pub server_id_of : KvPair → Bytes
unfolding remove_first
server_id_of service = remove_first no_load service.value

module _ {C : Type 0} where
  -- `RpcConnectClientList[serverId] = c`; a server id that is there already keeps its place.
  unfoldable pub set_client : Bytes → C → List (Bytes × C) → List (Bytes × C)
  set_client id c [] = (id, c) ∷ []
  set_client id c ((k, d) ∷ cs) =
      let rest = set_client id c cs in if str_eq k id then (k, c) ∷ cs else (k, d) ∷ rest

  -- The loop; `new_client` is client.NewXClient over the Peer2PeerDiscovery of the address.
  unfoldable pub add_clients : (Bytes → C) → List KvPair → List (Bytes × C) → List (Bytes × C)
  unfolding set_client server_id_of
  add_clients new_client [] cs = cs
  add_clients new_client (s ∷ ss) cs =
      add_clients new_client ss (set_client (server_id_of s) (new_client s.key) cs)

  -- `services` is what the discovery of the connect servers lists.
  unfoldable pub init_connect_rpc_client : (Bytes → C) → List KvPair → Outcome (List (Bytes × C))
  unfolding add_clients
  init_connect_rpc_client new_client services =
      if is_empty services then panics else done (add_clients new_client services [])

module _ {C W : Type 0} where
  -- The clients as the calls of task/rpc.go use them.
  abbrev pub call_client : Option C → (C → W → W) → W → W
  call_client none call w = w
  call_client (some c) call w = call c w

  abbrev pub clients_of :
      (C → PushMsgRequest → W → W)
      → (C → Method → PushRoomMsgRequest → W → W)
      → List (Bytes × C)
      → ConnectClients W
  clients_of single room cs = record {
    ids = map (λ (c : Bytes × C). c.0) cs;
    push_single_msg = λ id req w. call_client (lookup id cs) (λ c. single c req) w;
    push_room = λ m id req w. call_client (lookup id cs) (λ c. room c m req) w;
  }
