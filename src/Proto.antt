-- ===== src/Proto.antt =====
-- The messages of proto/*.go and the constants of config/config.go. A Go `int` is an integer ℤ, a
-- `string` and a `[]byte` are byte lists, a `map[string]string` is a list of pairs. A record that
-- Go creates by `new(T)` or `&T{}` starts at its zero value, written out where it is used.
use zhibo.Prelude.{ℤ, pos, Bytes, codes, List}

-- config.go
abbrev pub success_reply_code : ℤ
success_reply_code = pos 0

abbrev pub fail_reply_code : ℤ
fail_reply_code = pos 1

abbrev pub success_reply_msg : Bytes
success_reply_msg = codes "success"

abbrev pub queue_name : Bytes
queue_name = codes "gochat_sub"

abbrev pub redis_base_valid_time : ℤ
redis_base_valid_time = pos 86400

abbrev pub redis_prefix : Bytes
redis_prefix = codes "gochat_"

abbrev pub redis_room_prefix : Bytes
redis_room_prefix = codes "gochat_room_"

abbrev pub redis_room_online_prefix : Bytes
redis_room_online_prefix = codes "gochat_room_online_count_"

abbrev pub msg_version : ℤ
msg_version = pos 1

abbrev pub op_single_send : ℤ
op_single_send = pos 2

abbrev pub op_room_send : ℤ
op_room_send = pos 3

abbrev pub op_room_count_send : ℤ
op_room_count_send = pos 4

abbrev pub op_room_info_send : ℤ
op_room_info_send = pos 5

abbrev pub op_build_tcp_conn : ℤ
op_build_tcp_conn = pos 6

-- proto/connect.go
pub record Msg : Type 0 where
  pub ver : ℤ
  pub operation : ℤ
  pub seq_id : Bytes
  pub body : Bytes

pub record PushMsgRequest : Type 0 where
  pub user_id : ℤ
  pub msg : Msg

pub record PushRoomMsgRequest : Type 0 where
  pub room_id : ℤ
  pub msg : Msg

-- proto/logic.go
pub record LoginRequest : Type 0 where
  pub name : Bytes
  pub password : Bytes

pub record LoginResponse : Type 0 where
  pub code : ℤ
  pub auth_token : Bytes

pub record GetUserInfoRequest : Type 0 where
  pub user_id : ℤ

pub record GetUserInfoResponse : Type 0 where
  pub code : ℤ
  pub user_id : ℤ
  pub user_name : Bytes

pub record RegisterRequest : Type 0 where
  pub name : Bytes
  pub password : Bytes

pub record RegisterReply : Type 0 where
  pub code : ℤ
  pub auth_token : Bytes

pub record LogoutRequest : Type 0 where
  pub auth_token : Bytes

pub record LogoutResponse : Type 0 where
  pub code : ℤ

pub record CheckAuthRequest : Type 0 where
  pub auth_token : Bytes

pub record CheckAuthResponse : Type 0 where
  pub code : ℤ
  pub user_id : ℤ
  pub user_name : Bytes

pub record ConnectRequest : Type 0 where
  pub auth_token : Bytes
  pub room_id : ℤ
  pub server_id : Bytes

pub record ConnectReply : Type 0 where
  pub user_id : ℤ

pub record DisConnectRequest : Type 0 where
  pub room_id : ℤ
  pub user_id : ℤ

pub record Send : Type 0 where
  pub code : ℤ
  pub msg : Bytes
  pub from_user_id : ℤ
  pub from_user_name : Bytes
  pub to_user_id : ℤ
  pub to_user_name : Bytes
  pub room_id : ℤ
  pub op : ℤ
  pub create_time : Bytes

pub record SendTcp : Type 0 where
  pub code : ℤ
  pub msg : Bytes
  pub from_user_id : ℤ
  pub from_user_name : Bytes
  pub to_user_id : ℤ
  pub to_user_name : Bytes
  pub room_id : ℤ
  pub op : ℤ
  pub create_time : Bytes
  pub auth_token : Bytes

-- proto/task.go
pub record RedisMsg : Type 0 where
  pub op : ℤ
  pub server_id : Bytes
  pub room_id : ℤ
  pub user_id : ℤ
  pub msg : Bytes
  pub count : ℤ
  pub room_user_info : List (Bytes × Bytes)

pub record RedisRoomInfo : Type 0 where
  pub op : ℤ
  pub room_id : ℤ
  pub count : ℤ
  pub room_user_info : List (Bytes × Bytes)

pub record RedisRoomCountMsg : Type 0 where
  pub count : ℤ
  pub op : ℤ

pub record SuccessReply : Type 0 where
  pub code : ℤ
  pub msg : Bytes
