-- ===== src/Logic/Room.antt =====
-- The room handlers of logic/rpc.go: Push, PushRoom, Count, GetRoomInfo, Connect and DisConnect.
-- `marshal` and `marshal_send` are json.Marshal of a RedisMsg and of a Send. A handler that returns
-- an error has left its reply at FailReplyCode and zero values, and keeps what it wrote before.

pub mod Online
pub mod Admitted
pub mod Counting
use zhibo.Prelude.{
  ℤ, pos, int_eq, is_nonpos, Bytes, codes, is_empty, itoa, List, [], ◌∷◌, length, if◌then◌else◌,
}
use zhibo.Prelude.Decimal.{atoi}
use zhibo.Proto.{
  Send, SuccessReply, RedisMsg, ConnectRequest, ConnectReply, DisConnectRequest, success_reply_code,
  op_room_send, redis_base_valid_time,
}
use zhibo.Logic.Exec.{Result, Exec, pure, raise, ◌>>=◌, ◌>>◌}
use zhibo.Logic.Redis.{
  Redis, Reply, get, set, hset, hget, hget_all, hdel, incr, decr, err_of, string_of, map_of, field,
}
use zhibo.Logic.Keys.{get_session_name, get_user_key, get_room_user_key, get_room_online_count_key}
use zhibo.Logic.World.{
  Users, World, call, check, redis_publish_channel, redis_publish_room_info, redis_push_room_count,
  redis_push_room_info,
}

-- `.Int()` of a reply, its error dropped.
unfoldable pub int_of : Reply → ℤ
unfolding atoi
int_of r = atoi (string_of r)

abbrev pub success : SuccessReply
success = record { code = success_reply_code; msg = [] }

-- PushRoom's changes to its argument; `now` is tools.GetNowDateTime.
unfoldable pub room_send : Send → Bytes → Send
room_send args now = record args { op = op_room_send; create_time = now }

module _ {R : Redis} {U : Users} where
  -- HSet and Incr, where the user's field of the room is empty.
  unfoldable pub enter_room : Bytes → ℤ → ℤ → Bytes → Exec (World R U) (Unit {0})
  unfolding call get_room_online_count_key itoa
  enter_room room_user_key rid uid name = do
    r ← call (hget room_user_key (itoa uid))
    if is_empty (string_of r)
        then (do
          call (hset room_user_key (itoa uid) name)
          call (incr (get_room_online_count_key (itoa rid)))
          pure tt)
        else pure tt

  -- The user's server is noted; an error of that is returned in the end.
  unfoldable pub connect_user :
      ConnectRequest → ℤ → List (Bytes × Bytes) → Exec (World R U) ConnectReply
  unfolding call enter_room get_user_key get_room_user_key field itoa
  connect_user args uid info = if int_eq uid (pos 0) then pure (record { user_id = uid }) else do
    r ← call (set (get_user_key (itoa uid)) args.server_id redis_base_valid_time)
    enter_room (get_room_user_key (itoa args.room_id)) args.room_id uid
        (field (codes "userName") info)
    check (err_of r)
    pure (record { user_id = uid })

  unfoldable pub connect_info :
      ConnectRequest → List (Bytes × Bytes) → Exec (World R U) ConnectReply
  unfolding connect_user field atoi
  connect_info args [] = pure (record { user_id = pos 0 })
  connect_info args (f ∷ fs) = connect_user args (atoi (field (codes "userId") (f ∷ fs))) (f ∷ fs)

  unfoldable pub connect : ConnectRequest → Exec (World R U) ConnectReply
  unfolding call connect_info get_session_name
  connect args = do
    r ← call (hget_all (get_session_name args.auth_token))
    check (err_of r)
    connect_info args (map_of r)

  -- Decr, of a count that is positive.
  unfoldable pub count_down : ℤ → Exec (World R U) (Unit {0})
  unfolding call get_room_online_count_key int_of itoa
  count_down rid = if is_nonpos rid then pure tt else do
    r ← call (get (get_room_online_count_key (itoa rid)))
    if is_nonpos (int_of r)
        then pure tt
        else (do call (decr (get_room_online_count_key (itoa rid))); pure tt)

  unfoldable pub leave_room : Bytes → ℤ → Exec (World R U) (Unit {0})
  unfolding call itoa
  leave_room room_user_key uid =
      if int_eq uid (pos 0) then pure tt else do call (hdel room_user_key (itoa uid)); pure tt

module _ {R : Redis} {U : Users} (marshal : RedisMsg → Result Bytes) where
  unfoldable pub push : (Send → Result Bytes) → Send → Exec (World R U) SuccessReply
  unfolding call get_user_key redis_publish_channel itoa
  push marshal_send args = do
    body ← λ w. (marshal_send args, w)
    r ← call (get (get_user_key (itoa args.to_user_id)))
    redis_publish_channel marshal (string_of r) args.to_user_id body
    pure success

  unfoldable pub push_room : (Send → Result Bytes) → Bytes → Send → Exec (World R U) SuccessReply
  unfolding call get_room_user_key redis_publish_room_info room_send itoa
  push_room marshal_send now args = do
    r ← call (hget_all (get_room_user_key (itoa args.room_id)))
    check (err_of r)
    body ← λ w. (marshal_send (room_send args now), w)
    redis_publish_room_info marshal args.room_id (pos (length (map_of r))) (map_of r) body
    pure success

  unfoldable pub count : Send → Exec (World R U) SuccessReply
  unfolding call get_room_online_count_key redis_push_room_count int_of itoa
  count args = do
    r ← call (get (get_room_online_count_key (itoa args.room_id)))
    redis_push_room_count marshal args.room_id (int_of r)
    pure success

  unfoldable pub info_of : ℤ → List (Bytes × Bytes) → Exec (World R U) SuccessReply
  unfolding redis_push_room_info
  info_of rid [] = raise (codes "getRoomInfo no this user")
  info_of rid (f ∷ fs) = do
    redis_push_room_info marshal rid (pos (length (f ∷ fs))) (f ∷ fs)
    pure success

  unfoldable pub get_room_info : Send → Exec (World R U) SuccessReply
  unfolding call info_of get_room_user_key itoa
  get_room_info args = do
    r ← call (hget_all (get_room_user_key (itoa args.room_id)))
    info_of args.room_id (map_of r)

  unfoldable pub dis_connect : DisConnectRequest → Exec (World R U) (Unit {0})
  unfolding call count_down leave_room get_room_user_key redis_publish_room_info itoa
  dis_connect args = do
    count_down args.room_id
    leave_room (get_room_user_key (itoa args.room_id)) args.user_id
    r ← call (hget_all (get_room_user_key (itoa args.room_id)))
    redis_publish_room_info marshal args.room_id (pos (length (map_of r))) (map_of r) []
