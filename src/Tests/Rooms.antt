-- ===== src/Tests/Rooms.antt =====
-- A room of two channels.
use zhibo.Prelude.{
  pos, none, some, [], ◌∷◌, ◌≡◌, refl, arith, false, has, if◌then◌else◌, codes, update,
}
use zhibo.Proto.{Msg}
use zhibo.Connect.Heap.{Ptr, Heap, new_channel, offer}
use zhibo.Connect.Room.{put, push_room, new_room}
use zhibo.Connect.Room.Members.{IsRoom, put-IsRoom}
use zhibo.Connect.Room.Interleaved.{
  entering, left, run, in_order, nested, link_from, run-neighbours,
}
use zhibo.Connect.Room.Delivery.{push_room-members, put_twice-push_room}

abbrev h0 : Heap
h0 = record { channels = λ _. new_channel 10; rooms = λ _. new_room (pos 5); fresh_room = 1 }

abbrev h1 : Heap
h1 = (put 0 1 h0).0

abbrev h2 : Heap
h2 = (put 0 2 h1).0

abbrev note : Msg
note = record { ver = pos 1; operation = pos 3; seq_id = codes "1"; body = codes "hi" }

empty-IsRoom : IsRoom h0 0 []
empty-IsRoom = record { chain = refl; distinct = tt; counted = refl }

live1 : (h1.rooms 0).dropped ≡ false
unfolding put update
live1 = refl

one_member-IsRoom : IsRoom h1 0 (1 ∷ [])
one_member-IsRoom = (put-IsRoom h0 0 1 [] empty-IsRoom refl refl).0

two_members-IsRoom : IsRoom h2 0 (2 ∷ 1 ∷ [])
two_members-IsRoom = (put-IsRoom h1 0 2 (1 ∷ []) one_member-IsRoom live1 refl).0

push_room-members_example :
    (g : Heap) × (push_room 2 0 note h2 ≡ some g)
    × ((y : Ptr)
        → g.channels y ≡ (if has y (2 ∷ 1 ∷ []) then offer note (h2.channels y) else h2.channels y))
    × (g.rooms ≡ h2.rooms)
push_room-members_example =
    push_room-members h2 0 (2 ∷ 1 ∷ []) note 2 two_members-IsRoom (omega arith)

put_twice-push_room_example : push_room 100 0 note (put 0 1 (put 0 1 h0).0).0 ≡ none
put_twice-push_room_example = put_twice-push_room h0 0 1 note 100 refl

run-neighbours_example :
    ((g : Heap) × (run 0 2 1 in_order (entering h2 0) ≡ some (left g 0)) × IsRoom g 0 [])
    × ((g : Heap) × (run 0 2 1 nested (entering h2 0) ≡ some (left g 0))
        × (link_from none 0 g ≡ some 1))
run-neighbours_example = run-neighbours h2 0 2 1 [] [] 0 two_members-IsRoom
