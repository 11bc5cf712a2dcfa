-- ===== src/Task/Published.antt =====
-- A message from PushRoom or Push of logic/rpc.go through the queue to Push of task/push.go.
use zhibo.Task.Queue.{Queues, send_params, process_single_push, send_params-process}
use zhibo.Prelude.{
  ℕ, ◌<◌, ◌%◌, get_elem?, pos, Bytes, itoa, length, none, some, List, [], ◌≡◌, refl, ap, ◌∙◌, true,
}
use zhibo.Proto.{
  Send, RedisMsg, RedisRoomInfo, RedisRoomCountMsg, op_room_send, op_single_send, queue_name,
}
use zhibo.Connect.Bucket.{done}
use zhibo.Logic.Exec.{Result, ok}
use zhibo.Logic.Redis.{
  Redis, get, publish, answer, status, Value, text, nil, a_text, text_reply, IsHealthy,
}
use zhibo.Logic.Keys.{get_user_key}
use zhibo.Logic.World.{Users, World, call, publish_msg, redis_publish_channel}
use zhibo.Logic.Room
use zhibo.Logic.Room.{success}
use zhibo.Task.{PushParams, ConnectClients, member, message, push_single_to_connect, push}

-- What PushRoom publishes, and what Push does.
abbrev pub room_msg : Send → Bytes → List (Bytes × Bytes) → RedisMsg
room_msg args body info = record {
  op = op_room_send;
  server_id = [];
  room_id = args.room_id;
  user_id = pos 0;
  msg = body;
  count = pos (length info);
  room_user_info = info;
}

abbrev pub single_msg : Send → Bytes → Bytes → RedisMsg
single_msg args server_id body = record {
  op = op_single_send;
  server_id = server_id;
  room_id = pos 0;
  user_id = args.to_user_id;
  msg = body;
  count = pos 0;
  room_user_info = [];
}

module _ {W : Type 0} (clients : ConnectClients W)
    (marshal_count : RedisRoomCountMsg → Result Bytes)
    (marshal_info : RedisRoomInfo → Result Bytes) where
  push-single_msg :
      (seq : Bytes) (args : Send) (server_id body : Bytes) (v : W)
      → push clients marshal_count marshal_info seq (single_msg args server_id body) v ≡ (
        some (record {
          server_id = server_id;
          user_id = args.to_user_id;
          msg = body;
          room_id = pos 0;
        }),
        v,
      )
  unfolding push
  push-single_msg seq args server_id body v = refl

  push_single_to_connect-member :
      (seq : Bytes) (arg : PushParams) (v : W)
      → member arg.server_id clients.ids ≡ true
      → push_single_to_connect clients seq arg v
        ≡ done (
            clients.push_single_msg arg.server_id
              (record { user_id = arg.user_id; msg = message op_single_send seq arg.msg })
              v)
  unfolding push_single_to_connect
  push_single_to_connect-member seq arg v there = rw there refl

module _ {R : Redis} {U : Users} (H : IsHealthy R) (marshal : RedisMsg → Result Bytes) where
  published :
      (body : Bytes) (w : World R U)
      → H.queued w.redis ≡ none
      → (R.run (publish queue_name body) w.redis).0 ≡ status
  unfolding answer
  published body w idle = H.answers (publish queue_name body) w.redis idle

  publish_msg-done :
      (m : RedisMsg) (json : Bytes) (w : World R U)
      → H.queued w.redis ≡ none
      → marshal m ≡ ok json
      → publish_msg marshal m w
        ≡ (ok tt, record w { redis = (R.run (publish queue_name json) w.redis).1 })
  unfolding publish_msg call
  publish_msg-done m json w idle marshalled = rw (marshalled, published json w idle) refl

module _ {R : Redis} {U : Users} (H : IsHealthy R) (marshal : RedisMsg → Result Bytes)
    (unmarshal : Bytes → RedisMsg) (marshal_send : Send → Result Bytes) {W : Type 0}
    (clients : ConnectClients W) (marshal_count : RedisRoomCountMsg → Result Bytes)
    (marshal_info : RedisRoomInfo → Result Bytes) where
  -- On a healthy Redis with no open transaction that has the server of the user, where the message
  -- can be marshalled and is what its JSON reads back as, and the push channel that is chosen is empty
  -- and has room: Push of the logic layer publishes one message to the queue and answers success, Push
  -- of the task layer on that message sends it to the push channel, and the channel's goroutine, where
  -- that server has a client, calls PushSingleMsg of that server with the user and the body that was
  -- sent, and leaves the channels as they were.
  pub push-push :
      (seq body json server_id : Bytes) (args : Send) (w : World R U) (v : W)
      (rand push_chan size : ℕ) (qs : Queues)
      → H.queued w.redis ≡ none
      → H.view w.redis (get_user_key (itoa args.to_user_id)) ≡ a_text server_id
      → marshal_send args ≡ ok body
      → marshal (single_msg args server_id body) ≡ ok json
      → unmarshal json ≡ single_msg args server_id body
      → member server_id clients.ids ≡ true
      → 0 < push_chan
      → 0 < size
      → get_elem? qs (rand % push_chan) ≡ some []
      → (Room.push marshal marshal_send args w ≡ (
        ok success,
        record w {
          redis =
              (R.run
                (publish queue_name json)
                (R.run (get (get_user_key (itoa args.to_user_id))) w.redis).1).1;
        },
      ))
        × ((params : PushParams) × (sent : Queues) × (push clients marshal_count marshal_info seq
                (unmarshal json)
                v
              ≡ (some params, v))
            × (send_params rand push_chan size params qs ≡ done sent)
            × (process_single_push clients seq (rand % push_chan) sent v
                ≡ done (
                  qs,
                  clients.push_single_msg server_id
                      (record { user_id = args.to_user_id; msg = message op_single_send seq body })
                      v,
                )))
  unfolding Room.push redis_publish_channel call answer
  push-push seq body json server_id args w v rand push_chan size qs idle at marshalled_send
        marshalled read there some_chan some_size empty =
      let q = get (get_user_key (itoa args.to_user_id)) in
      let w1 : World R U = record w { redis = (R.run q w.redis).1 } in
      let idle1 = H.stays q w.redis idle (λ e. cc) in
      let params : PushParams = record {
        server_id = server_id;
        user_id = args.to_user_id;
        msg = body;
        room_id = pos 0;
      } in
      let found = H.answers q w.redis idle ∙ ap (λ (x : Value). text_reply text nil x) at in
      let called =
        push_single_to_connect-member clients marshal_count marshal_info seq params v there in
      let (sent, goes, taken) =
        send_params-process clients seq rand push_chan size params qs v _ some_chan some_size empty
          called in
      (
        rw (marshalled_send, found)
            (rw
              (publish_msg-done H marshal (single_msg args server_id body) json w1 idle1 marshalled)
              refl),
        (
          params,
          sent,
          ap (λ (m : RedisMsg). push clients marshal_count marshal_info seq m v) read
              ∙ push-single_msg clients marshal_count marshal_info seq args server_id body v,
          goes,
          taken,
        ),
      )
