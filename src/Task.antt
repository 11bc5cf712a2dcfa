-- ===== src/Task.antt =====
-- The task layer: Push of task/push.go on a message of the queue, and the calls of task/rpc.go to
-- the connect servers. The order in which Go ranges over the map of clients is that of the list.
pub mod Queue
pub mod Published
pub mod Clients
pub mod Running
pub mod Start
use zhibo.Prelude.{
  ℤ, pos, int_eq, Bytes, str_eq, Option, none, some, List, [], ◌∷◌, length, Bool, true, false,
  if◌then◌else◌, ◌≡◌, refl, ◌∙◌, ap,
}
use zhibo.Proto.{
  Msg, PushMsgRequest, PushRoomMsgRequest, RedisMsg, RedisRoomInfo, RedisRoomCountMsg, msg_version,
  op_single_send, op_room_send, op_room_count_send, op_room_info_send,
}
use zhibo.Connect.Bucket.{Outcome, done, panics}
use zhibo.Logic.Exec.{Result, ok, err}

-- PushParams, an entry of a channel of pushChannel
pub record PushParams : Type 0 where
  pub server_id : Bytes
  pub user_id : ℤ
  pub msg : Bytes
  pub room_id : ℤ

pub data Method : Type 0 where
  push_room_msg : Method
  push_room_count : Method
  push_room_info : Method

-- The connect servers, by server id, over a state `W` that is not the task's. An error of a call is
-- logged at most, and its reply is not used.
pub record ConnectClients (W : Type 0) : Type 0 where
  pub ids : List Bytes
  pub push_single_msg : Bytes → PushMsgRequest → W → W
  pub push_room : Method → Bytes → PushRoomMsgRequest → W → W

unfoldable pub member : Bytes → List Bytes → Bool
member k [] = false
member k (j ∷ js) = if str_eq j k then true else member k js

-- `seq` is tools.GetSnowflakeId.
unfoldable pub message : ℤ → Bytes → Bytes → Msg
message op seq body = record { ver = msg_version; operation = op; seq_id = seq; body = body }

module _ {W : Type 0} (clients : ConnectClients W) where
  -- A server id without a client is a nil client, which is dereferenced.
  unfoldable pub push_single_to_connect : Bytes → PushParams → W → Outcome W
  unfolding member message
  push_single_to_connect seq arg w =
      if member arg.server_id clients.ids
      then done (
          clients.push_single_msg arg.server_id
            (record { user_id = arg.user_id; msg = message op_single_send seq arg.msg }) w)
      else panics

  -- `for _, rpc := range RpcConnectClientList { rpc.Call(...) }`
  unfoldable pub call_each : Method → PushRoomMsgRequest → List Bytes → W → W
  call_each m req [] w = w
  call_each m req (k ∷ ks) w = call_each m req ks (clients.push_room m k req w)

  unfoldable pub broadcast_room_to_connect : Bytes → ℤ → Bytes → W → W
  unfolding call_each message
  broadcast_room_to_connect seq rid body =
      call_each push_room_msg (record { room_id = rid; msg = message op_room_send seq body })
        clients.ids

  unfoldable pub broadcast_body : Method → ℤ → Bytes → ℤ → Result Bytes → W → W
  unfolding call_each message
  broadcast_body m op seq rid (ok body) =
      call_each m (record { room_id = rid; msg = message op seq body }) clients.ids
  broadcast_body m op seq rid (err e) = λ w. w

  -- `marshal` is json.Marshal.
  unfoldable pub broadcast_room_count_to_connect :
      (RedisRoomCountMsg → Result Bytes) → Bytes → ℤ → ℤ → W → W
  unfolding broadcast_body
  broadcast_room_count_to_connect marshal seq rid count =
      broadcast_body push_room_count op_room_count_send seq rid
        (marshal (record { count = count; op = op_room_count_send }))

  unfoldable pub broadcast_room_info_to_connect :
      (RedisRoomInfo → Result Bytes) → Bytes → ℤ → List (Bytes × Bytes) → W → W
  unfolding broadcast_body
  broadcast_room_info_to_connect marshal seq rid info =
      broadcast_body push_room_info op_room_info_send seq rid (
        marshal (record {
          op = op_room_info_send;
          room_id = rid;
          count = pos (length info);
          room_user_info = info;
        }))

  -- Push: a single message goes into one of the push channels, whose reader calls
  -- push_single_to_connect; the others are broadcast at once. What an unreadable message leaves in
  -- `m` is a RedisMsg too.
  unfoldable pub push :
      (RedisRoomCountMsg → Result Bytes)
      → (RedisRoomInfo → Result Bytes)
      → Bytes
      → RedisMsg
      → W
      → Option PushParams × W
  unfolding broadcast_room_to_connect broadcast_room_count_to_connect broadcast_room_info_to_connect
  push marshal_count marshal_info seq m w =
      if int_eq m.op op_single_send
      then (
        some
            (record { server_id = m.server_id; user_id = m.user_id; msg = m.msg; room_id = pos 0 }),
        w,
      )
      else if int_eq m.op op_room_send
      then (none, broadcast_room_to_connect seq m.room_id m.msg w)
      else if int_eq m.op op_room_count_send
      then (none, broadcast_room_count_to_connect marshal_count seq m.room_id m.count w)
      else if int_eq m.op op_room_info_send
      then (none, broadcast_room_info_to_connect marshal_info seq m.room_id m.room_user_info w)
      else (none, w)
