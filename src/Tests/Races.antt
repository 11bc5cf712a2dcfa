-- ===== src/Tests/Races.antt =====
-- User 7 alone in room 5, which user 8 and then user 9 join while the first one leaves.
use zhibo.Prelude.{pos, none, some, [], ◌∷◌, ◌≡◌, refl, update, update_key}
use zhibo.Connect.Heap.{Heap}
use zhibo.Connect.Room
use zhibo.Connect.Room.{room_drop}
use zhibo.Connect.Bucket.{
  Bucket, done, put, new_bucket, register, register_when, find_room, open_room, set_user, set_room,
  enter_room, delete_channel,
}
use zhibo.Connect.Bucket.Put.{after_put}
use zhibo.Connect.Bucket.Raced.{put-raced}
use zhibo.Tests.Buckets.{b1, g1, members1, one_channel-IsBucket}

room_there : b1.rooms (pos 5) ≡ some 0
unfolding put register register_when find_room open_room set_user set_room enter_room new_bucket
    Room.put update update_key
room_there = refl

alone : members1 0 ≡ 1 ∷ []
unfolding after_put put register register_when find_room open_room set_user set_room enter_room
    new_bucket Room.put update update_key
alone = refl

connected : b1.chs (pos 7) ≡ some 1
unfolding put register register_when find_room open_room set_user set_room enter_room new_bucket
    Room.put update update_key
connected = refl

put-raced_example :
    let (o, b2, h2) = register (pos 8) (pos 5) 2 b1 g1 in
    (b3 : Bucket) × (h3 : Heap) × (delete_channel 1 b2 h2 ≡ done (b3, h3))
    × (enter_room 2 (o, b3, h3) ≡ (b3, h3, some room_drop))
    × (let (b4, h4, e) = put (pos 9) (pos 5) 3 b3 h3 in
        (e ≡ none)
        × (b4.rooms (pos 5) ≡ some h3.fresh_room)
        × ((b5 : Bucket) × (h5 : Heap) × (delete_channel 2 b4 h4 ≡ done (b5, h5))
            × (b5.chs (pos 9) ≡ some 3)
            × ((h5.channels 3).room ≡ some h3.fresh_room)
            × (b5.rooms (pos 5) ≡ none)))
put-raced_example =
    put-raced b1 g1 members1 1 2 3 (pos 7) (pos 8) (pos 9) (pos 5) 0 one_channel-IsBucket refl
      room_there alone connected refl refl refl refl
