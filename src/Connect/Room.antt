-- ===== src/Connect/Room.antt =====
-- connect/room.go: a room's members as a doubly linked list of channels, newest first.
-- Each function is one step; two calls of DeleteChannel, which hold the room's lock for reading only,
-- are taken apart in Room/Interleaved.
pub mod Links
pub mod Chain
pub mod Unlink
pub mod Members
pub mod Delivery
pub mod Interleaved
use zhibo.Prelude.{
  ℕ, zero, suc, ℤ, pos, inc, dec, is_nonpos, Bool, true, false, Option, none, some, ◌≡◌, refl,
  update, if◌then◌else◌,
}
use zhibo.Proto.{Msg}
use zhibo.Connect.Room.Links.{link_front, unlink_next, unlink}
use zhibo.Connect.Heap.{Ptr, Channel, Channels, Room, Heap, set_prev, set_next, push}

-- const NoRoom = -1
-- NewRoom: the room object at a fresh address.
abbrev pub new_room : ℤ → Room
new_room rid = record { id = rid; online_count = pos 0; dropped = false; next = none }

-- What Put returns: `room drop`, or no error.
pub data PutError : Type 0 where
  room_drop : PutError

-- Room.Put
unfoldable pub put : Ptr → Ptr → Heap → Heap × Option PutError
unfolding update link_front
put r ch h = if (h.rooms r).dropped then (h, some room_drop) else (
  record h {
    channels = link_front (h.rooms r).next ch h.channels;
    rooms =
        update h.rooms r
          (record (h.rooms r) { next = some ch; online_count = inc (h.rooms r).online_count });
  },
  none,
)

-- The loop of Room.Push, `for ch := r.next; ch != nil; ch = ch.Next`. It has no bound of its own:
-- `none` says that the fuel ran out.
unfoldable pub push_loop : ℕ → Option Ptr → Msg → Channels → Option Channels
push_loop fuel none m c = some c
push_loop zero (some ch) m c = none
push_loop (suc fuel) (some ch) m c = push_loop fuel (push ch m c ch).next m (push ch m c)

-- Room.Push
unfoldable pub push_room : ℕ → Ptr → Msg → Heap → Option Heap
unfolding push_loop
push_room fuel r m h = elim (push_loop fuel (h.rooms r).next m h.channels) [
  | none ↦ none
  | some c ↦ some (record h { channels = c })
]

-- `r.next = ch.Next` where the channel heads the list
abbrev pub head_after : Option Ptr → Option Ptr → Option Ptr → Option Ptr
head_after none next old = next
head_after (some p) next old = old

-- Room.DeleteChannel; the result is the room's drop flag.
unfoldable pub delete_channel : Ptr → Ptr → Heap → Heap × Bool
unfolding update unlink
delete_channel r ch h =
    let c = unlink_next ch (h.channels ch).next h.channels in
    let count = dec (h.rooms r).online_count in
    (
      record h {
        channels = unlink ch h.channels;
        rooms = update h.rooms r (record (h.rooms r) {
          next = head_after (c ch).prev (c ch).next (h.rooms r).next;
          online_count = count;
          dropped = is_nonpos count;
        });
      },
      is_nonpos count,
    )
