-- ===== src/Connect/Heap.antt =====
-- The objects that connect/channel.go and connect/room.go allocate. A `*Channel` or a `*Room` is an
-- address, nil is `none`; a heap gives the object at each address, as Go's memory never loses one
-- that is pointed to.
use zhibo.Prelude.{
  ℕ, ℤ, pos, Bool, Option, none, List, [], ◌∷◌, ◌++◌, update, length, ltb, if◌then◌else◌,
}
use zhibo.Proto.{Msg}

abbrev pub Ptr : Type 0
Ptr = ℕ

-- `broadcast` is the buffered Go channel: what it holds and its capacity. The connection that a
-- channel wraps is not part of its state here.
pub record Channel : Type 0 where
  pub room : Option Ptr
  pub next : Option Ptr
  pub prev : Option Ptr
  pub broadcast : List Msg
  pub size : ℕ
  pub user_id : ℤ

-- NewChannel
abbrev pub new_channel : ℕ → Channel
new_channel size = record {
  room = none;
  next = none;
  prev = none;
  broadcast = [];
  size = size;
  user_id = pos 0;
}

pub record Room : Type 0 where
  pub id : ℤ
  pub online_count : ℤ
  pub dropped : Bool
  pub next : Option Ptr

abbrev pub Channels : Type 0
Channels = Ptr → Channel

-- `fresh_room` is the address that the next NewRoom gets.
pub record Heap : Type 0 where
  pub channels : Channels
  pub rooms : Ptr → Room
  pub fresh_room : Ptr

-- x.Prev = v, x.Next = v, where x is not nil
unfoldable pub set_prev : Ptr → Option Ptr → Channels → Channels
unfolding update
set_prev x v c = update c x (record (c x) { prev = v })

unfoldable pub set_next : Ptr → Option Ptr → Channels → Channels
unfolding update
set_next x v c = update c x (record (c x) { next = v })

-- `select { case ch.broadcast <- msg: default: }`: a full buffer drops the message.
unfoldable pub offer : Msg → Channel → Channel
offer m ch =
    if ltb (length ch.broadcast) ch.size
    then record ch { broadcast = ch.broadcast ++ m ∷ [] }
    else ch

-- Channel.Push
unfoldable pub push : Ptr → Msg → Channels → Channels
unfolding offer update
push x m c = update c x (offer m (c x))
