-- ===== src/Connect/Bucket/Delete.antt =====
-- Bucket.DeleteChannel keeps the bucket's invariant and takes the channel out of its room.
use mathlib.Core.Path.{subst}
use zhibo.Prelude.{
  ℤ, int_eq, int_eq_iff, int_eq_self, false, ◌&&◌, Option, none, some, List, ◌≡◌, ap, ◌∙◌, sym,
  arith, ◌∈◌, ◌∉◌, ◌==◌, ==_iff, update, update_key, update_self, Bool-cases, inl, inr,
  if◌then◌else◌, is_empty,
}
use zhibo.Connect.Heap.{Ptr, Heap}
use zhibo.Connect.Room
use zhibo.Connect.Room.Members.{IsRoom, delete_channel-fields}
use zhibo.Connect.Bucket.{
  Bucket, done, drop_room, leave_room, delete_found, delete_known, delete_channel,
}
use zhibo.Connect.Bucket.Invariant.{Members, RoomAt, IsBucket, RoomAt-frame}
use zhibo.Connect.Bucket.Leaving.{
  without, has-without, not_empty, left-IsRoom, left-links, left-room_id, left-other_room,
  left-fresh, leave_room_lem, drop_room-facts,
}

module _ (b : Bucket) (h : Heap) (members : Members) (r ch : Ptr) (is : IsBucket b h members)
    (known : b.chs (h.channels ch).user_id ≡ some ch) (room : (h.channels ch).room ≡ some r) where
  abbrev pub uid : ℤ
  uid = (h.channels ch).user_id

  abbrev pub rest : List Ptr
  rest = without ch (members r)

  abbrev pub left : Heap
  left = (Room.delete_channel r ch h).0

  abbrev pub gone : Bucket
  gone = record b { chs = update_key b.chs uid none }

  abbrev pub final : Bucket
  final = (drop_room (is_empty rest) (is_empty rest) r gone left).0

  abbrev pub without_member : Members
  without_member = update members r rest

  pub joins : (ch ∈ members r) × (b.rooms (h.rooms r).id ≡ some r)
  joins = is.joined uid ch r known room

  pub here : RoomAt h members (h.rooms r).id r
  here = is.at_room (h.rooms r).id r joins.1

  final_chs : (u : ℤ) (x : Ptr) → final.chs u ≡ some x → (int_eq u uid ≡ false) × (b.chs u ≡ some x)
  unfolding update_key
  final_chs u x e = ground (arith, drop_room-facts (is_empty rest) r gone left)

  pub final_rooms :
      (k : ℤ) (q : Ptr)
      → final.rooms k ≡ some q
      → (b.rooms k ≡ some q) × ((is_empty rest && int_eq k (left.rooms r).id) ≡ false)
  final_rooms k q e = ground (arith, (drop_room-facts (is_empty rest) r gone left).2 k)

  not_here :
      (k : ℤ) (q : Ptr)
      → b.rooms k ≡ some q
      → (q == r) ≡ false
      → (y : Ptr) → y ∈ members q
      → y ∉ members r
  not_here k q e ne y m = ground (arith, (is.at_room k q e).inside y, here.inside y)

  other-RoomAt :
      (k : ℤ) (q : Ptr) → b.rooms k ≡ some q → (q == r) ≡ false → RoomAt left without_member k q
  unfolding update
  other-RoomAt k q e ne =
      let at = is.at_room k q e in
      RoomAt-frame h left members without_member k q (ground arith)
        (left-other_room h r ch (members r) here.is_room joins.0 q ne)
        (omega (arith, left-fresh h r ch (members r) here.is_room joins.0))
        (λ y m. left-links h r ch (members r) here.is_room joins.0 y (not_here k q e ne y m))
        (λ y m. (delete_channel-fields h r ch y).0) at

  self-RoomAt : is_empty rest ≡ false → RoomAt left without_member (h.rooms r).id r
  unfolding update
  self-RoomAt some_left =
      let out = left-IsRoom h r ch (members r) here.is_room joins.0 in
      let mine = update_self members r rest in
      record {
        is_room = subst (λ (l : List Ptr). IsRoom left r l) (sym mine) out.0;
        live = out.2 ∙ some_left;
        named = left-room_id h r ch (members r) here.is_room joins.0;
        allocated =
            omega (arith, here.allocated, left-fresh h r ch (members r) here.is_room joins.0);
        inside = λ x m.
            let m' = subst (λ (l : List Ptr). x ∈ l) mine m in
            ground (
              arith,
              delete_channel-fields h r ch x,
              has-without ch x (members r) here.is_room.distinct,
              here.inside x,
            );
      }

  final-at_room : (k : ℤ) (q : Ptr) → final.rooms k ≡ some q → RoomAt left without_member k q
  final-at_room k q e =
      let old = final_rooms k q e in
      elim (Bool-cases (q == r)) [
        | inl same ↦
            let e_room : r ≡ q = sym ((==_iff q r).0 same) in
            let at = is.at_room k q old.0 in
            let e_key : (h.rooms r).id ≡ k = ap (λ (p : Ptr). (h.rooms p).id) e_room ∙ at.named in
            let kept : is_empty rest ≡ false = ground (
              arith,
              left-room_id h r ch (members r) here.is_room joins.0,
              int_eq_iff k (left.rooms r).id,
            ) in
            subst (λ j. RoomAt left without_member j q) e_key
              (subst (λ p. RoomAt left without_member (h.rooms r).id p) e_room (self-RoomAt kept))
        | inr ne ↦ other-RoomAt k q old.0 ne
      ]

  final_room-joined :
      (x q : Ptr)
      → b.rooms (h.rooms q).id ≡ some q
      → x ∈ without_member q
      → final.rooms (left.rooms q).id ≡ some q
  unfolding update
  final_room-joined x q e m =
      let facts = (drop_room-facts (is_empty rest) r gone left).2 (left.rooms q).id in
      let same_id = left-room_id h r ch (members r) here.is_room joins.0 in
      elim (Bool-cases (q == r)) [
        | inl same ↦
            let e_room : q ≡ r = (==_iff q r).0 same in
            let some_left : is_empty rest ≡ false = not_empty x rest (ground arith) in ground arith
        | inr ne ↦
            let same = left-other_room h r ch (members r) here.is_room joins.0 q ne in
            ground (arith, int_eq_iff (left.rooms q).id (left.rooms r).id, joins.1)
      ]

  final-joined :
      (u : ℤ) (x q : Ptr)
      → final.chs u ≡ some x
      → (left.channels x).room ≡ some q
      → (x ∈ without_member q) × (final.rooms (left.rooms q).id ≡ some q)
  unfolding update
  final-joined u x q e m =
      let (ne, e') = final_chs u x e in
      let j = is.joined u x q e' (sym (delete_channel-fields h r ch x).0 ∙ m) in
      let not_ch : (x == ch) ≡ false = ground (arith, is.online u x e', int_eq_iff u uid) in
      let kept : x ∈ without_member q =
        ground (arith, has-without ch x (members r) here.is_room.distinct) in
      (kept, final_room-joined x q j.1 kept)

  gone_chs : final.chs uid ≡ none
  unfolding update_key
  gone_chs = ground (arith, (drop_room-facts (is_empty rest) r gone left).1, int_eq_self uid)

  kept_room : final.rooms (h.rooms r).id ≡ (if is_empty rest then none else some r)
  kept_room = ground (
    arith,
    (drop_room-facts (is_empty rest) r gone left).2 (h.rooms r).id,
    left-room_id h r ch (members r) here.is_room joins.0,
    int_eq_self (h.rooms r).id,
    joins.1,
  )

  pub delete_channel-eq : delete_channel ch b h ≡ done (final, left)
  unfolding delete_channel update_key
  delete_channel-eq =
      let here_too = (left-IsRoom h r ch (members r) here.is_room joins.0) in
      let e = is_empty rest in
      let heap : drop_room e e r gone left ≡ (final, left) =
        λ i. (final, (drop_room-facts e r gone left).0 i) in
      ap (λ (o : Option Ptr). delete_known o b h) known
      ∙ ap (λ (o : Option Ptr). delete_found o ch b h) known
      ∙ ap done (
          ap (λ (o : Option Ptr). leave_room o ch gone h) room
          ∙ leave_room_lem r ch gone h e here_too.1 here_too.2
          ∙ heap)

  pub delete_channel-own : IsBucket final left without_member
  delete_channel-own = record {
    at_room = final-at_room;
    online = λ u x e. (delete_channel-fields h r ch x).1 ∙ is.online u x (final_chs u x e).1;
    joined = final-joined;
  }

  -- DeleteChannel of a connected user's own channel keeps the invariant, and takes the channel out
  -- of the users and out of the members of its room.
  pub delete_channel-IsBucket :
      (b' : Bucket) × (h' : Heap) × (delete_channel ch b h ≡ done (b', h'))
      × IsBucket b' h' without_member
      × (b'.chs uid ≡ none)
      × (b'.rooms (h.rooms r).id ≡ (if is_empty rest then none else some r))
  delete_channel-IsBucket =
      (final, left, delete_channel-eq, delete_channel-own, gone_chs, kept_room)

-- DeleteChannel goes by the user alone.
pub delete_channel-user :
    (c d : Ptr) (b : Bucket) (h : Heap)
    → (h.channels c).user_id ≡ (h.channels d).user_id
    → delete_channel c b h ≡ delete_channel d b h
unfolding delete_channel
delete_channel-user c d b h e = ap (λ (u : ℤ). delete_known (b.chs u) b h) e

-- When a user has connected again, and the older connection closes, DeleteChannel takes the newer
-- channel out of the room and the user out of the bucket; the older channel stays a member.
pub delete_channel-stale :
    (b : Bucket) (h : Heap) (members : Members) (r old new : Ptr)
    → IsBucket b h members
    → b.chs (h.channels new).user_id ≡ some new
    → (h.channels new).room ≡ some r
    → (h.channels old).user_id ≡ (h.channels new).user_id
    → (old == new) ≡ false
    → old ∈ members r
    → (b' : Bucket) × (h' : Heap) × (members' : Members) × (delete_channel old b h ≡ done (b', h'))
      × IsBucket b' h' members'
      × (old ∈ members' r)
      × (new ∉ members' r)
      × (b'.chs (h.channels new).user_id ≡ none)
unfolding update
delete_channel-stale b h members r old new is known room same other stays =
    let (b', h', ran, is', gone_user, kept) =
      delete_channel-IsBucket b h members r new is known room in
    let j = is.joined (h.channels new).user_id new r known room in
    let d = (is.at_room (h.rooms r).id r j.1).is_room.distinct in
    (
      b',
      h',
      update members r (without new (members r)),
      delete_channel-user old new b h same ∙ ran,
      is',
      ground (arith, has-without new old (members r) d),
      ground (arith, has-without new new (members r) d),
      gone_user,
    )
