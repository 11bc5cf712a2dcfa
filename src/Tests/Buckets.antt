-- ===== src/Tests/Buckets.antt =====
-- A bucket with a room of one or two channels, and a server of one bucket.
use zhibo.Prelude.{
  ℕ, ℤ, pos, Bytes, none, some, [], ◌∷◌, ◌≡◌, ◌≢◌, refl, arith, length, if◌then◌else◌, codes,
  is_empty, update, update_key, itoa, ◌∈◌, ◌∉◌,
}
use zhibo.Proto.{Msg, PushRoomMsgRequest, PushMsgRequest, SuccessReply}
use zhibo.Connect.Heap.{Heap, new_channel, set_prev, set_next}
use zhibo.Connect.Room.{PutError, new_room}
use zhibo.Connect.Room
use zhibo.Connect.Room.Links.{link_front}
use zhibo.Connect.Bucket.{
  BucketOptions, Bucket, done, new_bucket, put, delete_channel, open_room, find_room, set_user,
  set_room, register_when, register, enter_room,
}
use zhibo.Connect.Bucket.Invariant.{Members, IsBucket}
use zhibo.Connect.Bucket.Put.{after_put, put-IsBucket}
use zhibo.Connect.Bucket.Leaving.{without}
use zhibo.Connect.Bucket.Delete.{delete_channel-IsBucket, delete_channel-stale}
use zhibo.Connect.Bucket.Routines.{members_of}
use zhibo.Connect.Server.{new_server, State, bucket, index, at_index}

abbrev pub g0 : Heap
g0 = record { channels = λ _. new_channel 10; rooms = λ _. new_room (pos 0); fresh_room = 0 }

abbrev pub options : BucketOptions
options = record { channel_size = 1024; room_size = 1024; routine_amount = 2; routine_size = 20 }

abbrev pub b0 : Bucket
b0 = new_bucket options

-- User 7 connects twice to room 5, by the channels 1 and 2.
abbrev pub b1 : Bucket
b1 = (put (pos 7) (pos 5) 1 b0 g0).0

abbrev pub g1 : Heap
g1 = (put (pos 7) (pos 5) 1 b0 g0).1

abbrev b2 : Bucket
b2 = (put (pos 7) (pos 5) 2 b1 g1).0

abbrev g2 : Heap
g2 = (put (pos 7) (pos 5) 2 b1 g1).1

abbrev pub nobody : Members
nobody _ = []

abbrev pub members1 : Members
members1 = after_put (pos 5) 1 b0 g0 nobody

abbrev members2 : Members
members2 = after_put (pos 5) 2 b1 g1 members1

abbrev note : Msg
note = record { ver = pos 1; operation = pos 3; seq_id = codes "1"; body = codes "hi" }

abbrev pub to_room : PushRoomMsgRequest
to_room = record { room_id = pos 5; msg = note }

empty-IsBucket : IsBucket b0 g0 nobody
unfolding new_bucket
empty-IsBucket = record {
  at_room = λ rid r e. cc;
  online = λ uid x e. cc;
  joined = λ uid x r e. cc;
}

pub one_channel-IsBucket : IsBucket b1 g1 members1
unfolding new_bucket
one_channel-IsBucket =
    (put-IsBucket b0 g0 nobody (pos 7) (pos 5) 1 empty-IsBucket refl (λ u e. cc)).0

only_one : (u : ℤ) → b1.chs u ≢ some 2
unfolding put register register_when find_room open_room set_user set_room enter_room new_bucket
    Room.put update update_key
only_one u e = ground arith

fresh2 : (g1.channels 2).room ≡ none
unfolding put register register_when find_room open_room set_user set_room enter_room new_bucket
    Room.put update update_key link_front set_prev set_next
fresh2 = refl

two_channels-IsBucket : IsBucket b2 g2 members2
two_channels-IsBucket =
    (put-IsBucket b1 g1 members1 (pos 7) (pos 5) 2 one_channel-IsBucket fresh2 only_one).0

put-IsBucket_example :
    IsBucket
      (put (pos 7) (pos 5) 2 b1 g1).0
      (put (pos 7) (pos 5) 2 b1 g1).1
      (after_put (pos 5) 2 b1 g1 members1)
    × ((put (pos 7) (pos 5) 2 b1 g1).0.chs (pos 7) ≡ some 2)
    × ((put (pos 7) (pos 5) 2 b1 g1).2 ≡ none)
put-IsBucket_example =
    put-IsBucket b1 g1 members1 (pos 7) (pos 5) 2 one_channel-IsBucket fresh2 only_one

pub known1 : b1.chs (g1.channels 1).user_id ≡ some 1
unfolding put register register_when find_room open_room set_user set_room enter_room new_bucket
    Room.put update update_key link_front set_prev set_next
known1 = refl

room1 : (g1.channels 1).room ≡ some 0
unfolding put register register_when find_room open_room set_user set_room enter_room new_bucket
    Room.put update update_key link_front set_prev set_next
room1 = refl

delete_channel-IsBucket_example :
    (b' : Bucket) × (h' : Heap) × (delete_channel 1 b1 g1 ≡ done (b', h'))
    × IsBucket b' h' (update members1 0 (without 1 (members1 0)))
    × (b'.chs (g1.channels 1).user_id ≡ none)
    × (b'.rooms (g1.rooms 0).id ≡ (if is_empty (without 1 (members1 0)) then none else some 0))
delete_channel-IsBucket_example =
    delete_channel-IsBucket b1 g1 members1 0 1 one_channel-IsBucket known1 room1

known2 : b2.chs (g2.channels 2).user_id ≡ some 2
unfolding put register register_when find_room open_room set_user set_room enter_room new_bucket
    Room.put update update_key link_front set_prev set_next
known2 = refl

room2 : (g2.channels 2).room ≡ some 0
unfolding put register register_when find_room open_room set_user set_room enter_room new_bucket
    Room.put update update_key link_front set_prev set_next
room2 = refl

same_user : (g2.channels 1).user_id ≡ (g2.channels 2).user_id
unfolding put register register_when find_room open_room set_user set_room enter_room new_bucket
    Room.put update update_key link_front set_prev set_next
same_user = refl

old_stays : 1 ∈ members2 0
unfolding after_put put register register_when find_room open_room set_user set_room enter_room
    new_bucket Room.put update update_key link_front set_prev set_next
old_stays = refl

delete_channel-stale_example :
    (b' : Bucket) × (h' : Heap) × (members' : Members) × (delete_channel 1 b2 g2 ≡ done (b', h'))
    × IsBucket b' h' members'
    × (1 ∈ members' 0)
    × (2 ∉ members' 0)
    × (b'.chs (g2.channels 2).user_id ≡ none)
delete_channel-stale_example =
    delete_channel-stale b2 g2 members2 0 1 2 two_channels-IsBucket known2 room2 same_user refl
      old_stays

-- The bucket with a request waiting in its first routine.
abbrev waiting : Bucket
waiting = record b1 { routines = (to_room ∷ []) ∷ [] ∷ [] }

waiting-IsBucket : IsBucket waiting g1 members1
waiting-IsBucket = record {
  at_room = one_channel-IsBucket.at_room;
  online = one_channel-IsBucket.online;
  joined = one_channel-IsBucket.joined;
}

few : length (members_of members1 (waiting.rooms to_room.room_id)) ≡ 1
unfolding after_put put register register_when find_room open_room set_user set_room enter_room
    new_bucket Room.put update update_key
few = refl

abbrev pub city : Bytes → ℕ → ℕ
city key n = n

abbrev one_server : State
one_server = record { server = new_server (b1 ∷ []); heap = g1 }

abbrev no_reply : SuccessReply
no_reply = record { code = pos 0; msg = [] }

abbrev to_user : PushMsgRequest
to_user = record { user_id = pos 7; msg = note }

home : bucket city (pos 7) one_server.server ≡ done (0, b1)
unfolding bucket index at_index new_server itoa
home = refl
