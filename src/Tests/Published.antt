-- ===== src/Tests/Published.antt =====
-- A message to a room and one to a user, with a Redis in memory and two connect servers that count
-- their calls. The JSON is the body itself.
use zhibo.Task.Queue.{Queues, go_push, send_params, process_single_push}
use zhibo.Prelude.{arith, pos, itoa, codes, none, some, [], ◌≡◌, refl, true}
use zhibo.Proto.{Send, op_room_send, op_single_send, queue_name}
use zhibo.Connect.Bucket.{done}
use zhibo.Logic.Exec.{ok}
use zhibo.Logic.Redis.{get, publish, a_text, write, absent}
use zhibo.Logic.Keys.{get_user_key}
use zhibo.Logic.World.{World}
use zhibo.Logic.Room
use zhibo.Logic.Room.{success}
use zhibo.Task.{PushParams, member, message, push}
use zhibo.Task.Published.{single_msg, push-push}
use zhibo.Tests.Memory.{memory, healthy, run}
use zhibo.Tests.Accounts.{table, counting}

abbrev sent : Send
sent = record {
  code = pos 0;
  msg = codes "hi";
  from_user_id = pos 1;
  from_user_name = codes "demo";
  to_user_id = pos 7;
  to_user_name = [];
  room_id = pos 5;
  op = op_room_send;
  create_time = [];
}

abbrev online_world : World memory table
online_world = record {
  redis = (write (get_user_key (itoa sent.to_user_id)) (a_text (codes "a")) (λ k. absent), none);
  users = tt;
}

online : healthy.view online_world.redis (get_user_key (itoa sent.to_user_id)) ≡ a_text (codes "a")
unfolding write get_user_key itoa
online = refl

has_client : member (codes "a") counting.ids ≡ true
unfolding member
has_client = refl

push-push_example :
    (Room.push (λ m. ok m.msg) (λ m. ok m.msg) sent online_world ≡ (
      ok success,
      record online_world {
        redis =
            (run
              (publish queue_name (codes "hi"))
              (run (get (get_user_key (itoa sent.to_user_id))) online_world.redis).1).1;
      },
    ))
    × ((params : PushParams) × (there : Queues) × (push counting
            (λ m. ok [])
            (λ m. ok [])
            (codes "1")
            (single_msg sent (codes "a") (codes "hi"))
            0
          ≡ (some params, 0))
        × (send_params 5 2 50 params (go_push 2) ≡ done there)
        × (process_single_push counting (codes "1") 1 there 0
            ≡ done (
              go_push 2,
              counting.push_single_msg
                  (codes "a")
                  (record {
                    user_id = sent.to_user_id;
                    msg = message op_single_send (codes "1") (codes "hi");
                  })
                  0,
            )))
unfolding go_push
push-push_example =
    push-push healthy (λ m. ok m.msg) (λ b. single_msg sent (codes "a") b) (λ m. ok m.msg) counting
      (λ m. ok []) (λ m. ok []) (codes "1") (codes "hi") (codes "hi") (codes "a") sent online_world
      0 5 2 50 (go_push 2) refl online refl refl refl has_client (omega arith) (omega arith) refl
