-- ===== src/Tests/Counting.antt =====
-- The count of room 5, in a Redis in memory.
use zhibo.Prelude.{pos, itoa, is_empty, codes, true, none, ◌≡◌, ◌≢◌, refl}
use zhibo.Proto.{DisConnectRequest}
use zhibo.Logic.Exec.{ok}
use zhibo.Logic.Redis.{absent, a_text, answer, hget, string_of, write}
use zhibo.Logic.Keys.{get_room_user_key, get_room_online_count_key}
use zhibo.Logic.World.{World}
use zhibo.Logic.Room.{enter_room, dis_connect}
use zhibo.Logic.Room.Counting.{dis_connect-dis_connect, enter_room-dis_connect}
use zhibo.Tests.Memory.{memory, healthy}
use zhibo.Tests.Accounts.{table}

abbrev leaving : DisConnectRequest
leaving = record { room_id = pos 5; user_id = pos 7 }

-- The count is two, and nobody is in the room's hash.
abbrev two_online : World memory table
two_online = record {
  redis = (
    write (get_room_online_count_key (itoa (pos 5))) (a_text (itoa (pos 2))) (λ k. absent),
    none,
  );
  users = tt;
}

count_there :
    healthy.view two_online.redis (get_room_online_count_key (itoa leaving.room_id))
    ≡ a_text (itoa (pos 2))
unfolding write get_room_online_count_key itoa
count_there = refl

keys_apart :
    get_room_user_key (itoa leaving.room_id) ≢ get_room_online_count_key (itoa leaving.room_id)
unfolding get_room_user_key get_room_online_count_key itoa
keys_apart e = cc

not_entered :
    is_empty (
      string_of (
        answer
          (hget (get_room_user_key (itoa leaving.room_id)) (itoa leaving.user_id))
          (healthy.view two_online.redis)))
    ≡ true
unfolding answer write get_room_user_key get_room_online_count_key itoa
not_entered = refl

dis_connect-dis_connect_example :
    healthy.view
      (dis_connect
        (λ m. ok m.msg)
        leaving
        (dis_connect (λ m. ok m.msg) leaving two_online).1).1.redis
      (get_room_online_count_key (itoa leaving.room_id))
    ≡ a_text (itoa (pos 0))
dis_connect-dis_connect_example =
    dis_connect-dis_connect healthy (λ m. ok m.msg) leaving 0 two_online refl refl keys_apart
      count_there

enter_room-dis_connect_example :
    (healthy.view
        (enter_room
          (get_room_user_key (itoa leaving.room_id))
          leaving.room_id
          leaving.user_id
          (codes "ann")
          two_online).1.redis
        (get_room_online_count_key (itoa leaving.room_id))
      ≡ a_text (itoa (pos 3)))
    × (healthy.view
          (dis_connect
            (λ m. ok m.msg)
            leaving
            (enter_room
              (get_room_user_key (itoa leaving.room_id))
              leaving.room_id
              leaving.user_id
              (codes "ann")
              two_online).1).1.redis
          (get_room_online_count_key (itoa leaving.room_id))
        ≡ a_text (itoa (pos 2)))
enter_room-dis_connect_example =
    enter_room-dis_connect healthy (λ m. ok m.msg) leaving (codes "ann") 2 two_online refl refl
      keys_apart not_entered count_there
