-- ===== src/Connect/Bucket.antt =====
-- connect/bucket.go: the users and rooms of one bucket. The bucket's state is a record; the
-- channels and rooms that its maps point to are in the heap. A function is one step, but
-- for Put, whose two parts are `register` and `Room.put`, since the lock is held in the first only.
pub mod Invariant
pub mod Opened
pub mod Joined
pub mod Put
pub mod Leaving
pub mod Delete
pub mod Routines
pub mod Raced
use zhibo.Prelude.{
  ℕ, zero, suc, ◌+◌, ◌%◌, ◌^◌, ℤ, pos, negsuc, int_eq, Bool, true, false, Option, none, some, List,
  [], ◌∷◌, ◌++◌, update, update_key, if◌then◌else◌, ltb, length, get_elem?, set, replicate, ◌==◌,
}
use zhibo.Proto.{PushRoomMsgRequest}
use zhibo.Connect.Heap.{Ptr, Channel, Heap}
use zhibo.Connect.Room
use zhibo.Connect.Room.{PutError, new_room}

pub record BucketOptions : Type 0 where
  pub channel_size : ℕ
  pub room_size : ℕ
  pub routine_amount : ℕ
  pub routine_size : ℕ

-- A map's nil pointer for a missing key is `none`. `routines` are the queues of the push
-- goroutines, oldest request first; `routines_num` is a uint64.
pub record Bucket : Type 0 where
  pub chs : ℤ → Option Ptr
  pub bucket_options : BucketOptions
  pub rooms : ℤ → Option Ptr
  pub routines : List (List PushRoomMsgRequest)
  pub routines_num : ℕ

-- How a call ends: it returns, it waits on a full or empty queue, or the process panics.
pub data Outcome {ℓ} (A : Type ℓ) : Type ℓ where
  done : A → Outcome A
  waits : Outcome A
  panics : Outcome A

-- NewBucket. The map sizes are hints to Go's allocator.
unfoldable pub new_bucket : BucketOptions → Bucket
new_bucket o = record {
  chs = λ _. none;
  bucket_options = o;
  rooms = λ _. none;
  routines = replicate o.routine_amount [];
  routines_num = 0;
}

abbrev pub no_room : ℤ
no_room = negsuc 0

-- `if room, ok = b.rooms[roomId]; !ok { room = NewRoom(roomId); b.rooms[roomId] = room }`
unfoldable pub open_room : Option Ptr → ℤ → Bucket → Heap → Ptr × Bucket × Heap
unfolding update update_key
open_room (some r) rid b h = (r, b, h)
open_room none rid b h = (
  h.fresh_room,
  record b { rooms = update_key b.rooms rid (some h.fresh_room) },
  record h { rooms = update h.rooms h.fresh_room (new_room rid); fresh_room = suc h.fresh_room },
)

unfoldable pub find_room : ℤ → Bucket → Heap → Ptr × Bucket × Heap
unfolding open_room
find_room rid b h = open_room (b.rooms rid) rid b h

-- `ch.userId = userId; b.chs[userId] = ch`, and `ch.Room = room` in a room.
unfoldable pub set_user : ℤ → Ptr → Bucket → Heap → Bucket × Heap
unfolding update update_key
set_user uid ch b h = (
  record b { chs = update_key b.chs uid (some ch) },
  record h { channels = update h.channels ch (record (h.channels ch) { user_id = uid }) },
)

unfoldable pub set_room : Ptr → Ptr → Heap → Heap
unfolding update
set_room r ch h = record h {
  channels = update h.channels ch (record (h.channels ch) { room = some r });
}

-- What Put does under the bucket's lock: the room that the channel is then put into, if any. The
-- first argument is the test `roomId == NoRoom`.
unfoldable pub register_when : Bool → ℤ → ℤ → Ptr → Bucket → Heap → Option Ptr × Bucket × Heap
unfolding find_room set_user set_room
register_when true uid rid ch b h = let (b', h') = set_user uid ch b h in (none, b', h')
register_when false uid rid ch b h =
    let (r, b', h') = find_room rid b h in
    let (b'', h'') = set_user uid ch b' (set_room r ch h') in (some r, b'', h'')

unfoldable pub register : ℤ → ℤ → Ptr → Bucket → Heap → Option Ptr × Bucket × Heap
unfolding register_when
register uid rid ch b h = register_when (int_eq rid no_room) uid rid ch b h

-- `if room != nil { err = room.Put(ch) }`
unfoldable pub enter_room : Ptr → Option Ptr × Bucket × Heap → Bucket × Heap × Option PutError
unfolding Room.put
enter_room ch (none, b, h) = (b, h, none)
enter_room ch (some r, b, h) = let (h', e) = Room.put r ch h in (b, h', e)

-- Bucket.Put
unfoldable pub put : ℤ → ℤ → Ptr → Bucket → Heap → Bucket × Heap × Option PutError
unfolding register enter_room
put uid rid ch b h = enter_room ch (register uid rid ch b h)

-- `if room != nil && room.DeleteChannel(ch) { if room.drop { delete(b.rooms, room.Id) } }`, from
-- the result of Room.DeleteChannel and the flag that it left.
unfoldable pub drop_room : Bool → Bool → Ptr → Bucket → Heap → Bucket × Heap
unfolding update_key
drop_room true true r b h = (record b { rooms = update_key b.rooms (h.rooms r).id none }, h)
drop_room true false r b h = (b, h)
drop_room false drop r b h = (b, h)

unfoldable pub leave_room : Option Ptr → Ptr → Bucket → Heap → Bucket × Heap
unfolding drop_room Room.delete_channel
leave_room none ch b h = (b, h)
leave_room (some r) ch b h =
    let (h', emptied) = Room.delete_channel r ch h in drop_room emptied (h'.rooms r).dropped r b h'

-- Bucket.DeleteChannel. The channel that leaves is the one the map holds for the given channel's
-- user; its own user is looked up once more, and a nil found there is dereferenced.
unfoldable pub delete_found : Option Ptr → Ptr → Bucket → Heap → Outcome (Bucket × Heap)
unfolding leave_room update_key
delete_found none ch b h = panics
delete_found (some c) ch b h = done (
    leave_room (h.channels c).room ch
      (record b { chs = update_key b.chs (h.channels ch).user_id none }) h)

unfoldable pub delete_known : Option Ptr → Bucket → Heap → Outcome (Bucket × Heap)
unfolding delete_found
delete_known none b h = done (b, h)
delete_known (some ch) b h = delete_found (b.chs (h.channels ch).user_id) ch b h

unfoldable pub delete_channel : Ptr → Bucket → Heap → Outcome (Bucket × Heap)
unfolding delete_known
delete_channel ch b h = delete_known (b.chs (h.channels ch).user_id) b h

-- Bucket.BroadcastRoom: the next routine in turn gets the request, once its queue has room.
abbrev pub next_num : Bucket → ℕ
next_num b = (b.routines_num + 1) % 2 ^ 64

-- `b.routines[num] <- req` on the queue found at `num`.
unfoldable pub enqueue :
    PushRoomMsgRequest → Bucket → ℕ → Option (List PushRoomMsgRequest) → Outcome Bucket
enqueue req b i none = panics
enqueue req b i (some q) =
    if ltb (length q) b.bucket_options.routine_size
    then done (record b { routines = set b.routines i (q ++ req ∷ []); routines_num = next_num b })
    else waits

unfoldable pub broadcast_room : PushRoomMsgRequest → Bucket → Outcome Bucket
unfolding enqueue
broadcast_room req b =
    let i = next_num b % b.bucket_options.routine_amount in
    if b.bucket_options.routine_amount == 0
    then panics
    else enqueue req b i (get_elem? b.routines i)

-- One round of the goroutine Bucket.PushRoom on routine `i`: it takes a request, and pushes it to
-- the room if the bucket has the room. In Go these are three parts, of which the second and the third
-- each take and give back a lock; here nothing comes between them. `none` means that the fuel of
-- Room.Push ran out.
unfoldable pub push_to : Option Ptr → ℕ → PushRoomMsgRequest → Heap → Option Heap
unfolding Room.push_room
push_to none fuel req h = some h
push_to (some r) fuel req h = Room.push_room fuel r req.msg h

unfoldable pub push_head :
    Option (List PushRoomMsgRequest) → ℕ → ℕ → Bucket → Heap → Outcome (Bucket × Option Heap)
unfolding push_to
push_head none fuel i b h = panics
push_head (some []) fuel i b h = waits
push_head (some (req ∷ rest)) fuel i b h =
    done (record b { routines = set b.routines i rest }, push_to (b.rooms req.room_id) fuel req h)

unfoldable pub push_room_round : ℕ → ℕ → Bucket → Heap → Outcome (Bucket × Option Heap)
unfolding push_head
push_room_round fuel i b h = push_head (get_elem? b.routines i) fuel i b h
