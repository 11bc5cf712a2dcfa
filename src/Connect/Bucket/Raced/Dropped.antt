-- ===== src/Connect/Bucket/Raced/Dropped.antt =====
-- A user of connect/bucket.go whose Room was dropped before Room.Put, and DeleteChannel of the last of a
-- room.
use zhibo.Prelude.{
  ◌<◌, ℤ, pos, dec, int_eq, int_eq_self, is_nonpos, Bool, true, false, Option, none, some, ◌≡◌,
  refl, ap, ◌∙◌, arith, ◌==◌, update, update_key,
}
use zhibo.Connect.Heap.{Ptr, Heap, set_prev, set_next}
use zhibo.Connect.Room
use zhibo.Connect.Room.{PutError, room_drop, new_room}
use zhibo.Connect.Room.Links.{link_front}
use zhibo.Connect.Room.Members.{room_after, delete_channel-fields}
use zhibo.Connect.Bucket.{
  Bucket, done, no_room, register, register_when, find_room, open_room, set_user, set_room,
  enter_room, put, delete_channel, delete_known, delete_found, leave_room, drop_room,
}

-- The user's channel is in the map, and its Room is a room that was dropped when it was empty.
pub record Lost (b : Bucket) (h : Heap) (y : Ptr) (uid rid : ℤ) (r : Ptr) : Type 0 where
  pub online : b.chs uid ≡ some y
  pub user : (h.channels y).user_id ≡ uid
  pub room : (h.channels y).room ≡ some r
  pub named : (h.rooms r).id ≡ rid
  pub dropped : (h.rooms r).dropped ≡ true
  pub empty : (h.rooms r).online_count ≡ pos 0
  pub allocated : r < h.fresh_room

pub Lost-enter_room :
    (b : Bucket) (h : Heap) (y : Ptr) (uid rid : ℤ) (r : Ptr)
    → Lost b h y uid rid r
    → enter_room y (some r, b, h) ≡ (b, h, some room_drop)
unfolding enter_room Room.put
Lost-enter_room b h y uid rid r is = rw is.dropped refl

-- Another user joins: the room is made anew.
pub Lost-put :
    (b : Bucket) (h : Heap) (y z : Ptr) (uid uid' rid : ℤ) (r : Ptr)
    → Lost b h y uid rid r
    → int_eq rid no_room ≡ false
    → b.rooms rid ≡ none
    → (z == y) ≡ false
    → int_eq uid uid' ≡ false
    → let (b', h', e) = put uid' rid z b h in
      (e ≡ none)
      × (b'.chs uid' ≡ some z)
      × ((h'.channels z).room ≡ some h.fresh_room)
      × (b'.rooms rid ≡ some h.fresh_room)
      × Lost b' h' y uid rid r
unfolding put register register_when find_room open_room set_user set_room enter_room Room.put
    link_front set_prev set_next update update_key
Lost-put b h y z uid uid' rid r is a_room absent apart others =
    rw (a_room, absent)
      (
        ground arith,
        ground (arith, int_eq_self uid'),
        ground arith,
        ground (arith, int_eq_self rid),
        record {
          online = ground (arith, is.online);
          user = ground (arith, is.user);
          room = ground (arith, is.room);
          named = ground (arith, is.named, is.allocated);
          dropped = ground (arith, is.dropped, is.allocated);
          empty = ground (arith, is.empty, is.allocated);
          allocated = ground (arith, is.allocated);
        },
      )

drop_room-true :
    (e d : Bool) (r : Ptr) (rid : ℤ) (b : Bucket) (h : Heap)
    → e ≡ true
    → d ≡ true
    → (h.rooms r).id ≡ rid
    → drop_room e d r b h ≡ (record b { rooms = update_key b.rooms rid none }, h)
unfolding drop_room
drop_room-true true true r rid b h f g named =
    ap (λ (k : ℤ). (record b { rooms = update_key b.rooms k none }, h)) named
drop_room-true true false r rid b h f g named = cc (g)
drop_room-true false d r rid b h f g named = cc (f)

delete_found-eq :
    (y r : Ptr) (o : Option Ptr) (b b' : Bucket) (h h' : Heap)
    → o ≡ some y
    → (h.channels y).room ≡ some r
    → leave_room (some r) y (record b { chs = update_key b.chs (h.channels y).user_id none }) h
      ≡ (b', h')
    → delete_found o y b h ≡ done (b', h')
unfolding delete_found
delete_found-eq y r o b b' h h' found room left =
    let gone : Bucket = record b { chs = update_key b.chs (h.channels y).user_id none } in
    ap (λ (p : Option Ptr). delete_found p y b h) found
    ∙ ap (λ (p : Option Ptr). done (leave_room p y gone h)) room
    ∙ ap done left

-- The user's channel is in the map, and its leaving empties its Room.
pub record Last (b : Bucket) (h : Heap) (y : Ptr) (uid rid : ℤ) (r : Ptr) : Type 0 where
  pub online : b.chs uid ≡ some y
  pub user : (h.channels y).user_id ≡ uid
  pub room : (h.channels y).room ≡ some r
  pub named : (h.rooms r).id ≡ rid
  pub ends : is_nonpos (dec (h.rooms r).online_count) ≡ true

-- What DeleteChannel of such a channel leaves.
pub record Closed (b b' : Bucket) (h h' : Heap) (uid rid : ℤ) (r : Ptr) : Type 0 where
  pub no_room_left : b'.rooms rid ≡ none
  pub others : (u : ℤ) → int_eq u uid ≡ false → b'.chs u ≡ b.chs u
  pub room : (x : Ptr) → (h'.channels x).room ≡ (h.channels x).room
  pub user : (x : Ptr) → (h'.channels x).user_id ≡ (h.channels x).user_id
  pub named : (h'.rooms r).id ≡ rid
  pub dropped : (h'.rooms r).dropped ≡ true
  pub count : (h'.rooms r).online_count ≡ dec (h.rooms r).online_count
  pub fresh_room : h'.fresh_room ≡ h.fresh_room

pub Last-delete_channel :
    (b : Bucket) (h : Heap) (y : Ptr) (uid rid : ℤ) (r : Ptr)
    → Last b h y uid rid r
    → (b' : Bucket) × (h' : Heap) × (delete_channel y b h ≡ done (b', h'))
      × Closed b b' h h' uid rid r
unfolding delete_channel leave_room Room.delete_channel update_key update
Last-delete_channel b h y uid rid r is =
    let gone : Bucket = record b { chs = update_key b.chs (h.channels y).user_id none } in
    let h' = (Room.delete_channel r y h).0 in
    let known = ap b.chs is.user ∙ is.online in
    let room = room_after r y h in
    let dropped = ap (λ q. q.dropped) room ∙ is.ends in
    let named = ap (λ q. q.id) room ∙ is.named in
    (
      record gone { rooms = update_key b.rooms rid none },
      h',
      ap (λ (o : Option Ptr). delete_known o b h) known
          ∙ unfold delete_known in
            delete_found-eq y r (b.chs (h.channels y).user_id) b _ h h' known is.room (
              drop_room-true (Room.delete_channel r y h).1 (h'.rooms r).dropped r rid gone h'
                is.ends dropped named),
      record {
        no_room_left = ground (arith, int_eq_self rid);
        others = λ u other. ground (arith, is.user);
        room = λ x. (delete_channel-fields h r y x).0;
        user = λ x. (delete_channel-fields h r y x).1;
        named = named;
        dropped = dropped;
        count = ap (λ q. q.online_count) room;
        fresh_room = refl;
      },
    )
