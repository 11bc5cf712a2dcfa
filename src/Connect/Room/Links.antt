-- ===== src/Connect/Room/Links.antt =====
-- The pointer writes of `Put` and `DeleteChannel` in connect/room.go.
use zhibo.Prelude.{Option, none, some}
use zhibo.Connect.Heap.{Ptr, Channels, set_prev, set_next}

-- `if r.next != nil { r.next.Prev = ch }; ch.Next = r.next; ch.Prev = nil`
unfoldable pub link_front : Option Ptr → Ptr → Channels → Channels
link_front none ch c = set_prev ch none (set_next ch none c)
link_front (some n) ch c = set_prev ch none (set_next ch (some n) (set_prev n (some ch) c))

-- The unlinking writes of Room.DeleteChannel, `ch.Next.Prev = ch.Prev` first.
unfoldable pub unlink_next : Ptr → Option Ptr → Channels → Channels
unlink_next ch none c = c
unlink_next ch (some n) c = set_prev n (c ch).prev c

unfoldable pub unlink_prev : Ptr → Option Ptr → Channels → Channels
unlink_prev ch none c = c
unlink_prev ch (some p) c = set_next p (c ch).next c

unfoldable pub unlink : Ptr → Channels → Channels
unfolding unlink_next unlink_prev
unlink ch c = let c' = unlink_next ch (c ch).next c in unlink_prev ch (c' ch).prev c'
