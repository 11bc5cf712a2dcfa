-- ===== src/Connect/Room/Interleaved.antt =====
-- Two calls of Room.DeleteChannel in connect/room.go at once. The method locks `rLock` for reading
-- only, so two of them can hold it together; here each is four steps, which take turns.
use zhibo.Prelude.{
  ℕ, zero, suc, dec, is_nonpos, Bool, true, false, Option, none, some, List, [], ◌∷◌, ◌++◌, ◌≡◌,
  refl, arith, update, ◌∉◌, has-append, ◌==◌, if◌then◌else◌,
}
use zhibo.Connect.Heap.{Ptr, Heap, set_prev, set_next}
use zhibo.Connect.Room.{delete_channel, head_after}
use zhibo.Connect.Room.Links.{unlink_next, unlink_prev, unlink}
use zhibo.Connect.Room.Unlink.{is_at, is_at-start, is_at-last, last_or, prev-last, rest-Chain}
use zhibo.Connect.Room.Members.{IsRoom, Distinct-remove, delete_channel-IsRoom}

-- A sync.RWMutex: how many hold it for reading, and whether one holds it for writing.
pub record RwLock : Type 0 where
  pub readers : ℕ
  pub writing : Bool

-- RLock waits while somebody holds the lock for writing.
unfoldable pub r_lock : RwLock → Option RwLock
r_lock l = if l.writing then none else some (record l { readers = suc l.readers })

abbrev pub one_less : ℕ → ℕ
one_less zero = zero
one_less (suc n) = n

abbrev pub r_unlock : RwLock → RwLock
r_unlock l = record l { readers = one_less l.readers }

-- `if ch.Next != nil { ch.Next.Prev = ch.Prev }`
unfoldable pub back_link : Ptr → Heap → Heap
unfolding unlink_next
back_link ch h = record h { channels = unlink_next ch (h.channels ch).next h.channels }

-- The writes after it, to the unlocking.
unfoldable pub forward_link : Ptr → Ptr → Heap → Heap
unfolding unlink_prev update
forward_link r ch h =
    let c = h.channels in
    let count = dec (h.rooms r).online_count in
    record h {
      channels = unlink_prev ch (c ch).prev c;
      rooms = update h.rooms r (record (h.rooms r) {
        next = head_after (c ch).prev (c ch).next (h.rooms r).next;
        online_count = count;
        dropped = is_nonpos count;
      });
    }

-- Where a call of DeleteChannel stands.
pub data Phase : Type 0 where
  outside locked linked_back linked returned : Phase

-- A room's heap and lock, and two calls.
pub record Threads : Type 0 where
  pub heap : Heap
  pub lock : RwLock
  pub first : Phase
  pub second : Phase

abbrev pub take_lock : Option RwLock → Heap → Option (Phase × Heap × RwLock)
take_lock none h = none
take_lock (some l) h = some (locked, h, l)

-- The next step of a call for a channel; none where it waits, or has returned.
unfoldable pub advance : Ptr → Ptr → Phase → Heap → RwLock → Option (Phase × Heap × RwLock)
unfolding r_lock back_link forward_link
advance r ch outside h l = take_lock (r_lock l) h
advance r ch locked h l = some (linked_back, back_link ch h, l)
advance r ch linked_back h l = some (linked, forward_link r ch h, l)
advance r ch linked h l = some (returned, h, r_unlock l)
advance r ch returned h l = none

module _ (r x y : Ptr) where
  abbrev pub moved_first : Threads → Option (Phase × Heap × RwLock) → Option Threads
  moved_first s none = none
  moved_first s (some (p, h, l)) = some (record s { heap = h; lock = l; first = p })

  abbrev pub moved_second : Threads → Option (Phase × Heap × RwLock) → Option Threads
  moved_second s none = none
  moved_second s (some (p, h, l)) = some (record s { heap = h; lock = l; second = p })

  -- The first call, for the channel `x`, takes its turn, or the second one, for `y`.
  unfoldable pub turn : Bool → Threads → Option Threads
  unfolding advance
  turn true s = moved_first s (advance r x s.first s.heap s.lock)
  turn false s = moved_second s (advance r y s.second s.heap s.lock)

  abbrev pub and_run : (Threads → Option Threads) → Option Threads → Option Threads
  and_run rest none = none
  and_run rest (some s) = rest s

  unfoldable pub run : List Bool → Threads → Option Threads
  unfolding turn
  run [] s = some s
  run (t ∷ ts) s = and_run (run ts) (turn t s)

-- Both calls are to come, and nobody writes.
abbrev pub entering : Heap → ℕ → Threads
entering h n = record {
  heap = h;
  lock = record { readers = n; writing = false };
  first = outside;
  second = outside;
}

abbrev pub left : Heap → ℕ → Threads
left h n = record {
  heap = h;
  lock = record { readers = n; writing = false };
  first = returned;
  second = returned;
}

-- One call after the other; and the second call as a whole within the first one.
abbrev pub in_order : List Bool
in_order = true ∷ true ∷ true ∷ true ∷ false ∷ false ∷ false ∷ false ∷ []

abbrev pub nested : List Bool
nested = true ∷ true ∷ false ∷ false ∷ false ∷ false ∷ true ∷ true ∷ []

delete_channel-links :
    (r ch : Ptr) (h : Heap) → (delete_channel r ch h).0 ≡ forward_link r ch (back_link ch h)
unfolding delete_channel forward_link back_link unlink
delete_channel-links r ch h = refl

run-in_order :
    (r x y : Ptr) (h : Heap) (n : ℕ)
    → run r x y in_order (entering h n)
      ≡ some (left (delete_channel r y (delete_channel r x h).0).0 n)
unfolding run turn advance r_lock delete_channel forward_link back_link unlink
run-in_order r x y h n = refl

run-nested :
    (r x y : Ptr) (h : Heap) (n : ℕ)
    → run r x y nested (entering h n)
      ≡ some (left (forward_link r x (delete_channel r y (back_link x h)).0) n)
unfolding run turn advance r_lock delete_channel forward_link back_link unlink
run-nested r x y h n = refl

-- What leads to the first channel behind `before`.
abbrev pub link_from : Option Ptr → Ptr → Heap → Option Ptr
link_from none r h = (h.rooms r).next
link_from (some a) r h = (h.channels a).next

-- `x` and then `y` follow `before`, and no two of them are one.
record Neighbours (h : Heap) (before : Option Ptr) (x y : Ptr) : Type 0 where
  before_x : (h.channels x).prev ≡ before
  x_next : (h.channels x).next ≡ some y
  apart : (y == x) ≡ false
  behind_x : is_at (h.channels y).next x ≡ false
  behind_y : is_at (h.channels y).next y ≡ false
  ahead_x : is_at before x ≡ false
  ahead_y : is_at before y ≡ false

nested-links :
    (h : Heap) (r x y : Ptr) (before : Option Ptr)
    → Neighbours h before x y
    → link_from before r (forward_link r x (delete_channel r y (back_link x h)).0) ≡ some y
unfolding forward_link back_link delete_channel unlink unlink_next unlink_prev set_prev set_next
    update
nested-links h r x y none is =
    ground
      (arith, is.before_x, is.x_next, is.apart, is.behind_x, is.behind_y, is.ahead_x, is.ahead_y)
nested-links h r x y (some a) is =
    ground
      (arith, is.before_x, is.x_next, is.apart, is.behind_x, is.behind_y, is.ahead_x, is.ahead_y)

is_at-before :
    (ys : List Ptr) (x : Ptr) (zs : List Ptr) → x ∉ (ys ++ zs) → is_at (last_or none ys) x ≡ false
is_at-before [] x zs out = refl
is_at-before (y ∷ ys) x zs out = is_at-last x y ys none (ground (arith, has-append x (y ∷ ys) zs))

IsRoom-Neighbours :
    (h : Heap) (r x y : Ptr) (ys zs : List Ptr)
    → IsRoom h r (ys ++ x ∷ y ∷ zs)
    → Neighbours h (last_or none ys) x y
IsRoom-Neighbours h r x y ys zs is =
    let c = h.channels in
    let start = (h.rooms r).next in
    let (rest, x_out, x_apart) = Distinct-remove x ys (y ∷ zs) is.distinct in
    let (_, y_out, y_apart) = Distinct-remove y ys zs rest in
    let behind = rest-Chain c x (y ∷ zs) none start ys is.chain in
    record {
      before_x = prev-last c x (y ∷ zs) none start ys is.chain;
      x_next = behind.0;
      apart = ground (arith, x_out);
      behind_x = is_at-start c (some y) (c y).next zs x behind.2 (ground (arith, x_out));
      behind_y = is_at-start c (some y) (c y).next zs y behind.2 y_out;
      ahead_x = is_at-before ys x (y ∷ zs) x_apart;
      ahead_y = is_at-before ys y zs y_apart;
    }

-- Two calls of DeleteChannel for channels that are neighbours in a room, `x` in front of `y`: one
-- after the other, both return with exactly the two gone from the members. Where the second call
-- runs between the first one's two writes of links, which the lock lets it, both return too, and
-- what leads past the two, the room's next or the Next of the channel in front of `x`, leads to `y`,
-- whose connection is gone.
pub run-neighbours :
    (h : Heap) (r x y : Ptr) (ys zs : List Ptr) (n : ℕ)
    → IsRoom h r (ys ++ x ∷ y ∷ zs)
    → ((g : Heap) × (run r x y in_order (entering h n) ≡ some (left g n)) × IsRoom g r (ys ++ zs))
      × ((g : Heap) × (run r x y nested (entering h n) ≡ some (left g n))
          × (link_from (last_or none ys) r g ≡ some y))
run-neighbours h r x y ys zs n is =
    let once = (delete_channel-IsRoom h r x ys (y ∷ zs) is).0 in
    (
      (
        (delete_channel r y (delete_channel r x h).0).0,
        run-in_order r x y h n,
        (delete_channel-IsRoom (delete_channel r x h).0 r y ys zs once).0,
      ),
      (
        forward_link r x (delete_channel r y (back_link x h)).0,
        run-nested r x y h n,
        nested-links h r x y (last_or none ys) (IsRoom-Neighbours h r x y ys zs is),
      ),
    )
