-- ===== src/Connect/Bucket/Raced.antt =====
-- Put of connect/bucket.go against DeleteChannel: Put gives the bucket's lock back before it calls
-- Room.Put, and the room may be dropped in between.
pub mod Dropped
use zhibo.Prelude.{
  ◌<◌, ℤ, pos, dec, int_eq, int_eq_self, int_eq_iff, is_nonpos, Bool, true, false, Option, none,
  some, List, [], ◌∷◌, ◌≡◌, refl, ap, ◌∙◌, arith, length, ◌∈◌, ◌==◌, update, update_key,
}
use zhibo.Connect.Heap.{Ptr, Heap, set_prev, set_next}
use zhibo.Connect.Room
use zhibo.Connect.Room.{PutError, room_drop, new_room}
use zhibo.Connect.Room.Links.{link_front}
use zhibo.Connect.Room.Members.{room_after, delete_channel-fields}
use zhibo.Connect.Bucket.{
  Bucket, done, no_room, register, register_when, find_room, open_room, set_user, set_room,
  enter_room, put, delete_channel, delete_known, delete_found, leave_room, drop_room,
}
use zhibo.Connect.Bucket.Invariant.{Members, IsBucket}
use zhibo.Connect.Bucket.Raced.Dropped.{
  Lost, Lost-enter_room, Lost-put, Last, Closed, Last-delete_channel,
}

-- The first part of Put in a room whose only member then leaves.
registered-Last :
    (b : Bucket) (h : Heap) (members : Members) (x y : Ptr) (u uid rid : ℤ) (r : Ptr)
    → IsBucket b h members
    → int_eq rid no_room ≡ false
    → b.rooms rid ≡ some r
    → members r ≡ x ∷ []
    → b.chs u ≡ some x
    → int_eq u uid ≡ false
    → (x == y) ≡ false
    → let (o, b', h') = register uid rid y b h in
      (o ≡ some r)
      × Last b' h' x u rid r
      × (b'.chs uid ≡ some y)
      × ((h'.channels y).user_id ≡ uid)
      × ((h'.channels y).room ≡ some r)
      × ((h'.rooms r).online_count ≡ pos 1)
      × (r < h'.fresh_room)
unfolding register register_when find_room open_room set_user set_room update update_key
registered-Last b h members x y u uid rid r is a_room at alone known other apart =
    let here = is.at_room rid r at in
    let member : x ∈ members r = ground (arith, alone) in
    let room = here.inside x member in
    let user = is.online u x known in
    let count : (h.rooms r).online_count ≡ pos 1 =
      here.is_room.counted ∙ ap (λ (xs : List Ptr). pos (length xs)) alone in
    rw (a_room, at)
      (
        refl,
        record {
          online = ground (arith, known);
          user = ground (arith, user);
          room = ground (arith, room);
          named = here.named;
          ends = ap (λ (n : ℤ). is_nonpos (dec n)) count;
        },
        ground (arith, int_eq_self uid),
        ground arith,
        ground arith,
        count,
        here.allocated,
      )

Lost-Last :
    (b : Bucket) (h : Heap) (y : Ptr) (uid rid : ℤ) (r : Ptr)
    → Lost b h y uid rid r
    → Last b h y uid rid r
Lost-Last b h y uid rid r is = record {
  online = is.online;
  user = is.user;
  room = is.room;
  named = is.named;
  ends = ap (λ (n : ℤ). is_nonpos (dec n)) is.empty;
}

int_eq_flip : (a c : ℤ) → int_eq a c ≡ false → int_eq c a ≡ false
int_eq_flip a c e = ground (arith, int_eq_iff a c, int_eq_iff c a)

-- In a bucket that keeps the invariant, with the user `u` alone in a room that has an id other than
-- NoRoom: `uid` joins the room by `y`, and before its Put calls Room.Put, DeleteChannel of the channel
-- of `u` drops the room. Room.Put then answers `room drop` and changes nothing; `uid'` joins by `z`
-- and gets a new room under the id; and DeleteChannel of `y`, when it is closed, takes that new room
-- out of the map, while `uid'` is connected and the Room of `z` is the new room. The user `uid` is
-- none of the other two, and `y` is neither the channel of `u` nor `z`.
pub put-raced :
    (b : Bucket) (h : Heap) (members : Members) (x y z : Ptr) (u uid uid' rid : ℤ) (r : Ptr)
    → IsBucket b h members
    → int_eq rid no_room ≡ false
    → b.rooms rid ≡ some r
    → members r ≡ x ∷ []
    → b.chs u ≡ some x
    → int_eq u uid ≡ false
    → int_eq uid' uid ≡ false
    → (x == y) ≡ false
    → (z == y) ≡ false
    → let (o, b1, h1) = register uid rid y b h in
      (b2 : Bucket) × (h2 : Heap) × (delete_channel x b1 h1 ≡ done (b2, h2))
      × (enter_room y (o, b2, h2) ≡ (b2, h2, some room_drop))
      × (let (b3, h3, e) = put uid' rid z b2 h2 in
          (e ≡ none)
          × (b3.rooms rid ≡ some h2.fresh_room)
          × ((b4 : Bucket) × (h4 : Heap) × (delete_channel y b3 h3 ≡ done (b4, h4))
              × (b4.chs uid' ≡ some z)
              × ((h4.channels z).room ≡ some h2.fresh_room)
              × (b4.rooms rid ≡ none)))
put-raced b h members x y z u uid uid' rid r is a_room at alone known other others apart apart' =
    let b1 = (register uid rid y b h).1 in
    let h1 = (register uid rid y b h).2 in
    let (found, last, online, user, room, count, allocated) =
      registered-Last b h members x y u uid rid r is a_room at alone known other apart in
    let (b2, h2, ran, closed) = Last-delete_channel b1 h1 x u rid r last in
    let lost : Lost b2 h2 y uid rid r = record {
      online = closed.others uid (int_eq_flip u uid other) ∙ online;
      user = closed.user y ∙ user;
      room = closed.room y ∙ room;
      named = closed.named;
      dropped = closed.dropped;
      empty = closed.count ∙ ap dec count;
      allocated = omega (arith, allocated, closed.fresh_room);
    } in
    let (no_error, online', room', new, lost3) =
      Lost-put b2 h2 y z uid uid' rid r lost a_room closed.no_room_left apart'
        (int_eq_flip uid' uid others) in
    let b3 = (put uid' rid z b2 h2).0 in
    let h3 = (put uid' rid z b2 h2).1 in
    let (b4, h4, ran4, closed4) =
      Last-delete_channel b3 h3 y uid rid r (Lost-Last b3 h3 y uid rid r lost3) in
    (
      b2,
      h2,
      ran,
      ap (λ (o : Option Ptr). enter_room y (o, b2, h2)) found
          ∙ Lost-enter_room b2 h2 y uid rid r lost,
      (
        no_error,
        new,
        (
          b4,
          h4,
          ran4,
          closed4.others uid' others ∙ online',
          closed4.room z ∙ room',
          closed4.no_room_left,
        ),
      ),
    )
