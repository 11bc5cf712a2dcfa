-- ===== src/Connect/Bucket/Routines.antt =====
-- The push goroutines: broadcasts take the routines in turn, and a request that reaches the head of
-- its queue is offered to every member of its room.
use zhibo.Prelude.{
  ℕ, ◌%◌, ◌<◌, ◌≤◌, false, Option, none, some, List, [], ◌∷◌, ◌++◌, ◌≡◌, refl, ap, ◌∙◌, arith, has,
  if◌then◌else◌, length, get_elem?, get_elem?-lt, set, ltb, ◌==◌,
}
use zhibo.Proto.{PushRoomMsgRequest}
use zhibo.Connect.Heap.{Ptr, Heap, offer}
use zhibo.Connect.Room.Delivery.{push_room-members}
use zhibo.Connect.Bucket.{
  Bucket, done, waits, next_num, broadcast_room, enqueue, push_to, push_head, push_room_round,
}
use zhibo.Connect.Bucket.Invariant.{Members, IsBucket}
use native.Mathlib.Nat.{mod-lt}

-- The routines that NewBucket makes: at least one, and as many as the option says.
pub record HasRoutines (b : Bucket) : Type 0 where
  pub some_routine : 0 < b.bucket_options.routine_amount
  pub amount : length b.routines ≡ b.bucket_options.routine_amount

abbrev pub turn : Bucket → ℕ
turn b = next_num b % b.bucket_options.routine_amount

turn-lt : (b : Bucket) → HasRoutines b → turn b < length b.routines
turn-lt b ok = grind (arith, ok.some_routine, ok.amount, mod-lt)

-- With at least one routine a broadcast never panics: it is queued at the end of the next routine's
-- queue if that has room, and waits if not; the routines stay as many.
pub broadcast_room-queues :
    (b : Bucket) (req : PushRoomMsgRequest)
    → HasRoutines b
    → (q : List PushRoomMsgRequest) × (get_elem? b.routines (turn b) ≡ some q)
      × (broadcast_room req b ≡ (
          if ltb (length q) b.bucket_options.routine_size
          then done (record b {
            routines = set b.routines (turn b) (q ++ req ∷ []);
            routines_num = next_num b;
          })
          else waits))
unfolding broadcast_room
broadcast_room-queues b req ok =
    let (q, at) = get_elem?-lt b.routines (turn b) (turn-lt b ok) in
    let positive : (b.bucket_options.routine_amount == 0) ≡ false =
      ground (arith, ok.some_routine) in
    (q, at, rw (positive, broadcast_room) (ap (enqueue req b (turn b)) at))

-- The members of a room that may not be there.
abbrev pub members_of : Members → Option Ptr → List Ptr
members_of members none = []
members_of members (some r) = members r

push_to-members :
    (o : Option Ptr) (b : Bucket) (h : Heap) (members : Members) (req : PushRoomMsgRequest)
    (fuel : ℕ)
    → IsBucket b h members
    → b.rooms req.room_id ≡ o
    → length (members_of members o) ≤ fuel
    → (g : Heap) × (push_to o fuel req h ≡ some g)
      × ((y : Ptr)
          → g.channels y
            ≡ (if has y (members_of members o) then offer req.msg (h.channels y) else h.channels y))
      × (g.rooms ≡ h.rooms)
unfolding push_to
push_to-members none b h members req fuel is at enough = (h, refl, λ y. refl, refl)
push_to-members (some r) b h members req fuel is at enough =
    push_room-members h r (members r) req.msg fuel (is.at_room req.room_id r at).is_room enough

-- A round of the push goroutine on a queue with a request takes the request off the queue and
-- offers its message once to each member of the request's room, and to no other channel; if the
-- bucket has no such room, to none. The loop over the members ends.
pub push_room_round-members :
    (b : Bucket) (h : Heap) (members : Members) (fuel i : ℕ) (req : PushRoomMsgRequest)
    (rest : List PushRoomMsgRequest)
    → IsBucket b h members
    → get_elem? b.routines i ≡ some (req ∷ rest)
    → length (members_of members (b.rooms req.room_id)) ≤ fuel
    → (g : Heap) × (push_room_round fuel i b h
        ≡ done (record b { routines = set b.routines i rest }, some g))
      × ((y : Ptr)
          → g.channels y ≡ (
              if has y (members_of members (b.rooms req.room_id))
              then offer req.msg (h.channels y)
              else h.channels y))
      × (g.rooms ≡ h.rooms)
unfolding push_room_round
push_room_round-members b h members fuel i req rest is at enough =
    let (g, ran, sent, rooms) =
      push_to-members (b.rooms req.room_id) b h members req fuel is refl enough in
    (
      g,
      ap (λ (o : Option (List PushRoomMsgRequest)). push_head o fuel i b h) at
          ∙ ap (λ (o : Option Heap). done (record b { routines = set b.routines i rest }, o)) ran,
      sent,
      rooms,
    )
